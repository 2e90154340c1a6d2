-- ===== src/NamespaceNames/Laws.antt =====
-- A printed flag is read back.
use text.Mathlib.TextLemmas.{nil-append, cons-append}
use kluster_capacity.Base.{
  String, true, ◌<>◌, ◌≡◌, refl, sym, ap, ◌∙◌, List, [], ◌∷◌, ◌++◌, append_assoc, append-nil, map,
  All, some, arith,
}
use kluster_capacity.Base.Text.{split}
use kluster_capacity.Base.Split.{lacks, split-lacks, split-append, lacks-append}
use kluster_capacity.Base.Monad.{ok}
use kluster_capacity.NamespaceNames.{
  NamespaceName, parse_name, parsed, set_parts, set, print_name, to_string,
}

-- Neither part has a comma or a slash.
abbrev pub IsPlain : NamespaceName → Type 0
IsPlain nn =
    (lacks 44 nn.namespace ≡ true)
    × (lacks 47 nn.namespace ≡ true)
    × (lacks 44 nn.name ≡ true)
    × (lacks 47 nn.name ≡ true)

abbrev slashed : NamespaceName → String
slashed nn = nn.namespace <> String.◌∷◌ "/" nn.name

print_name-slashed : (nn : NamespaceName) → print_name nn ≡ slashed nn
print_name-slashed nn =
    ap (λ s. nn.namespace <> s)
      (cons-append "/" String.[] nn.name ∙ ap (String.◌∷◌ "/") (nil-append nn.name))

parsed-print_name : (nn : NamespaceName) → IsPlain nn → parsed (print_name nn) ≡ some nn
unfolding parsed parse_name
parsed-print_name nn h =
    rw
      (
        print_name-slashed nn,
        split-append 47 nn.namespace nn.name "/" h.1 refl,
        split-lacks 47 nn.name h.3,
      )
      refl

print_name-lacks : (nn : NamespaceName) → IsPlain nn → lacks 44 (print_name nn) ≡ true
print_name-lacks nn h =
    rw (print_name-slashed nn)
      (lacks-append 44 nn.namespace (String.◌∷◌ "/" nn.name) h.0 (ground (arith, h.2)))

split-to_string :
    (nn : NamespaceName) (nns : List NamespaceName)
    → All IsPlain (nn ∷ nns)
    → split 44 (to_string (nn ∷ nns)) ≡ map print_name (nn ∷ nns)
unfolding to_string
split-to_string nn [] h = split-lacks 44 (print_name nn) (print_name-lacks nn h.0)
split-to_string nn (mm ∷ nns) h =
    rw (cons-append "," String.[] (to_string (mm ∷ nns)), nil-append (to_string (mm ∷ nns)))
      (split-append 44 (print_name nn) (to_string (mm ∷ nns)) "," (print_name-lacks nn h.0) refl
        ∙ ap (λ l. print_name nn ∷ l) (split-to_string mm nns h.1))

set_parts-print_name :
    (nns acc : List NamespaceName)
    → All IsPlain nns
    → set_parts (map print_name nns) acc ≡ (ok tt, acc ++ nns)
unfolding set_parts
set_parts-print_name [] acc h = ap (λ l. (ok tt, l)) (sym (append-nil acc))
set_parts-print_name (nn ∷ nns) acc h =
    rw (set_parts, parsed-print_name nn h.0)
      (set_parts-print_name nns (acc ++ (nn ∷ [])) h.1
        ∙ ap (λ l. (ok tt, l)) (append_assoc acc (nn ∷ []) nns))

-- If the names and namespaces have no comma and no slash, then setting the flag to the text of a list
-- that is not empty returns no error and adds that list behind the names already set.
pub set-to_string :
    (nn : NamespaceName) (nns acc : List NamespaceName)
    → All IsPlain (nn ∷ nns)
    → set (to_string (nn ∷ nns)) acc ≡ (ok tt, acc ++ (nn ∷ nns))
unfolding set
set-to_string nn nns acc h = rw (split-to_string nn nns h) (set_parts-print_name (nn ∷ nns) acc h)

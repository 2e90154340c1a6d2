-- ===== src/Print/Laws.antt =====
-- Loops that print a text for each element.
use kluster_capacity.Base.{
  String, ◌≡◌, sym, ap, ◌∙◌, List, [], ◌∷◌, ◌++◌, map, append-nil, append_assoc,
}
use kluster_capacity.Base.Monad.{ok}
use kluster_capacity.Print.{Output, print, for_each}

pub for_each-print :
    {A : Type 0} (f : A → String) (xs : List A) (out : Output)
    → for_each (λ x. print (f x)) xs out ≡ (ok tt, out ++ map f xs)
for_each-print f [] out = ap (λ o. (ok tt, o)) (sym (append-nil out))
for_each-print f (x ∷ xs) out =
    for_each-print f xs (out ++ (f x ∷ []))
    ∙ ap (λ o. (ok tt, o)) (append_assoc out (f x ∷ []) (map f xs))

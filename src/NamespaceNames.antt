-- ===== src/NamespaceNames.antt =====
-- app/cmds/capacityestimation/options/namespacename.go: a flag that names pods, as in `ns/a,ns/b`.
pub mod Laws
mod Tests
use kluster_capacity.Base.{String, ◌<>◌, List, [], ◌∷◌, ◌++◌, Option, none, some}
use kluster_capacity.Base.Text.{split}
use kluster_capacity.Base.Monad.{Result, ok, err, Action}

pub record NamespaceName : Type 0 where
  pub namespace : String
  pub name : String

-- metav1.NamespaceDefault
abbrev namespace_default : String
namespace_default = "default"

-- One part, split at its slashes.
unfoldable pub parse_name : List String → Option NamespaceName
parse_name [] = none
parse_name (name ∷ []) = some (record { namespace = namespace_default; name = name })
parse_name (ns ∷ name ∷ []) = some (record { namespace = ns; name = name })
parse_name (a ∷ b ∷ c ∷ rest) = none

abbrev parsed : String → Option NamespaceName
unfolding parse_name split
parsed part = parse_name (split 47 part)

-- The names before a part of an invalid format stay.
unfoldable pub set_parts : List String → Action (List NamespaceName) (Unit {0})
unfolding parsed
set_parts [] n = (ok tt, n)
set_parts (part ∷ parts) n = elim (parsed part) [
  | none ↦ (err "invalid format", n)
  | some nn ↦ set_parts parts (n ++ (nn ∷ []))
]

-- The code point of a comma is 44, that of a slash 47.
unfoldable pub set : String → Action (List NamespaceName) (Unit {0})
unfolding set_parts split
set nns = set_parts (split 44 nns)

abbrev pub print_name : NamespaceName → String
print_name nn = nn.namespace <> ("/" <> nn.name)

-- `strings.Join(strs, ",")` of the names that are printed.
unfoldable pub to_string : List NamespaceName → String
to_string [] = ""
to_string (nn ∷ []) = print_name nn
to_string (nn ∷ mm ∷ nns) = print_name nn <> ("," <> to_string (mm ∷ nns))

-- ===== src/NamespaceNames/Tests.antt =====
-- A flag with two names.
use kluster_capacity.Base.{◌≡◌, refl, [], ◌∷◌}
use kluster_capacity.Base.Monad.{ok}
use kluster_capacity.NamespaceNames.{NamespaceName, set, to_string}
use kluster_capacity.NamespaceNames.Laws.{set-to_string}

abbrev web : NamespaceName
web = record { namespace = "default"; name = "web" }

abbrev db : NamespaceName
db = record { namespace = "data"; name = "db" }

set-to_string_example : set (to_string (web ∷ db ∷ [])) [] ≡ (ok tt, web ∷ db ∷ [])
set-to_string_example =
    set-to_string web (db ∷ []) [] ((refl, refl, refl, refl), ((refl, refl, refl, refl), tt))

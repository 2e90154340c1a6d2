-- ===== src/Print.antt =====
-- PrintJson and PrintYaml of pkg/utils/utils.go. The output is the texts of the calls of fmt.Print, fmt.Printf
-- and fmt.Println, in their order.
pub mod Laws
use kluster_capacity.Base.{String, ◌<>◌, List, [], ◌∷◌, ◌++◌}
use kluster_capacity.Base.Monad.{
  Result, ok, err, panic, stuck, Action, ◌>>=◌, ◌>>◌, pure, raise, lift,
}
use kluster_capacity.Base.Outcome.{wrap}
use kluster_capacity.StopReason.{newline}

abbrev pub Output : Type 0
Output = List String

abbrev pub print : String → Action Output (Unit {0})
print text out = (ok tt, out ++ (text ∷ []))

abbrev pub print_line : String → Action Output (Unit {0})
print_line text = print (text <> newline)

abbrev pub for_each :
    {A : Type 0} → (A → Action Output (Unit {0})) → List A → Action Output (Unit {0})
for_each f [] = pure tt
for_each f (x ∷ xs) = let rest = for_each f xs in f x >> rest

-- `json.Marshal`, `yaml.Marshal` of a report, and the verb %q.
pub record Encoders (R : Type 0) : Type 0 where
  pub marshal_json : R → Result String
  pub marshal_yaml : R → Result String
  pub quote : String → String

module _ {R : Type 0} (encoders : Encoders R) where
  open encoders use {marshal_json, marshal_yaml, quote}

  unfoldable pub print_json : R → Action Output (Unit {0})
  print_json r = lift (wrap "failed to create json: " "" (marshal_json r)) >>= print_line

  unfoldable pub print_yaml : R → Action Output (Unit {0})
  print_yaml r = lift (wrap "failed to create yaml: " "" (marshal_yaml r)) >>= print

  abbrev pub not_recognized : String → String
  not_recognized format = "output format " <> (quote format <> " not recognized")

-- ===== src/StopReason/Laws.antt =====
-- What getMainStopReason reads from a reason.
use text.Mathlib.TextLemmas.{nil-append, cons-append}
use kluster_capacity.Base.{
  String, true, ◌<>◌, ◌≡◌, ◌↔◌, refl, ap, ◌∙◌, arith, Option-cases, inl, inr,
}
use kluster_capacity.Base.Split.{lacks, split-lacks, cut-append, cut-none_iff, lacks-append}
use kluster_capacity.Base.Text.{cut, trim}
use kluster_capacity.Base.Monad.{ok, panic}
use kluster_capacity.StopReason.{get_main_stop_reason, reason_of, first_line}

colon-append : (s : String) → ":" <> s ≡ String.◌∷◌ ":" s
colon-append s = cons-append ":" String.[] s ∙ ap (String.◌∷◌ ":") (nil-append s)

first_line-lacks : (s : String) → lacks 10 s ≡ true → first_line s ≡ s
unfolding first_line
first_line-lacks s h = rw (first_line, split-lacks 10 s h) refl

-- A reason of one line that starts with a type, in which there is no colon, and goes on with a colon and a
-- message, is read back as that type and that message without the blanks around it.
pub get_main_stop_reason-append :
    (type message : String)
    → lacks 58 type ≡ true
    → lacks 10 type ≡ true
    → lacks 10 message ≡ true
    → get_main_stop_reason (type <> (":" <> message))
      ≡ ok (record { stop_type = type; stop_message = trim message })
unfolding get_main_stop_reason reason_of
get_main_stop_reason-append type message a b c =
    rw
      (
        colon-append message,
        first_line-lacks (type <> String.◌∷◌ ":" message)
            (lacks-append 10 type (String.◌∷◌ ":" message) b (ground arith)),
        cut-append 58 type message ":" a refl,
      )
      refl

-- Reading a reason panics exactly if its first line has no colon.
pub get_main_stop_reason_panic_iff :
    (message : String)
    → (get_main_stop_reason message ≡ panic) ↔ (lacks 58 (first_line message) ≡ true)
unfolding get_main_stop_reason reason_of
get_main_stop_reason_panic_iff message = elim (Option-cases (cut 58 (first_line message))) [
  | inl e ↦ ground (arith, cut-none_iff 58 (first_line message))
  | inr (x, e) ↦ ground (arith, cut-none_iff 58 (first_line message))
]

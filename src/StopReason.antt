-- ===== src/StopReason.antt =====
-- getMainStopReason, which two simulators have in the same wording: the type and the message of a reason.
pub mod Laws
mod Tests
use kluster_capacity.Base.{String, ◌≡◌, List, [], ◌∷◌, Option, none, some}
use kluster_capacity.Base.Text.{split, cut, trim}
use kluster_capacity.Base.Monad.{Result, ok, err, panic}

pub record StopReason : Type 0 where
  pub stop_type : String
  pub stop_message : String

abbrev pub newline : String
newline = "\n"

-- `strings.Split(message, "\n")[0]`; the code point of a line feed is 10, that of a colon 58.
abbrev pub first_line : String → String
unfolding split
first_line message = elim (split 10 message) [ [] ↦ "" | line ∷ lines ↦ line ]

-- Without a colon the index is -1, and the slice up to it panics.
abbrev pub reason_of : Option (String × String) → Result StopReason
unfolding trim
reason_of none = panic
reason_of (some (before, after)) = ok (record { stop_type = before; stop_message = trim after })

unfoldable pub get_main_stop_reason : String → Result StopReason
unfolding cut first_line reason_of
get_main_stop_reason message = reason_of (cut 58 (first_line message))

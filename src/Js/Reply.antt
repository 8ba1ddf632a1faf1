-- ===== src/Js/Reply.antt =====
-- What a call of other code answers.
use swapfloor.Js.Text.{Text}
use swapfloor.Js.Value.{Value}

-- A value, or the message of an error.
pub data Reply : Type 0 where
  answer : Value → Reply
  failure : Text → Reply

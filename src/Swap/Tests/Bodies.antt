-- ===== src/Swap/Tests/Bodies.antt =====
-- Bodies that the schema accepts, an envelope that is signed, and the theorems about them.
use swapfloor.Common.{refl}
use swapfloor.Js.Text.{codes}
use swapfloor.Js.Value.{null, Value, obj, field, end}
use swapfloor.Swap.Envelope.{create_unsigned_envelope}
use swapfloor.Swap.Valid.Signatures.{KeyPair, IsSignable, create-sign-verify}
use swapfloor.Swap.Tests.Sample.{machine, toy, text, number}

toy_pair : KeyPair toy (codes "5e") (codes "b0b")
unfolding machine
toy_pair = record { reads = λ m. refl; lower = λ m. refl; filled = λ m. refl; verifies = λ m. refl }

abbrev cancel_body : Value
cancel_body = obj (field "reason" (text "no") end)

create-sign-verify_example :
    IsSignable toy
      (codes "5e")
      (codes "b0b")
      toy_pair
      (obj (
        field "v" (number 1) (
          field "kind" (text "swap.cancel") (
            field "trade_id"
              (text "t1")
              (field "ts" (number 5) (field "nonce" (text "r1") (field "body" cancel_body end)))))))
      (text "5E")
      (codes "b0b")
unfolding machine create_unsigned_envelope
create-sign-verify_example =
    create-sign-verify toy (codes "5e") (codes "b0b") toy_pair (text "swap.cancel") (text "t1")
      cancel_body (number 5) null (number 1)
      (obj (
        field "v" (number 1) (
          field "kind" (text "swap.cancel") (
            field "trade_id" (text "t1")
              (field "ts" (number 5) (field "nonce" (text "r1") (field "body" cancel_body end)))))))
      (text "5E") (codes "r1") (codes "b0b") refl refl refl refl refl

-- ===== src/Swap/Envelope.antt =====
-- src/protocol/signedMessage.js, src/swap/hash.js and src/swap/terms.js: signed envelopes and
-- their hashes. The wallet, the hex codec and SHA-256 are parameters.
use text.Mathlib.Text.{◌==◌ as str_eq}
use swapfloor.Common.{
  String, Bool, not, Option, none, some, [], Result, ok, err, refused, thrown, guard, ◌>>=◌, ◌>>◌,
  if◌then◌else◌,
}
use swapfloor.Js.Text.{Text, codes, trim, to_lower_case}
use swapfloor.Js.Value.{
  Value, str, is_reference, obj, Fields, end, field, get, truthy, is_defined, strict_eq, to_text,
}
use swapfloor.Js.Convert.{or_empty}
use swapfloor.Js.Stringify.{stable_stringify}
use swapfloor.Swap.Schema.Field.{is_nonempty_string}
use swapfloor.Swap.Constants.{Kind, kind_name}

-- The libraries `b4a`, `trac-wallet` and `crypto`; byte strings are lists of numbers.
pub record Crypto : Type 0 where
  pub decode_hex : Text → Option Text
  pub encode_hex : Text → Text
  pub sign : Text → Text → Text
  pub verify : Text → Text → Text → Bool
  pub sha256 : Text → Text

-- `{ ...fs, [k]: v }`
unfoldable pub put : String → Value → Fields → Fields
put k v end = field k v end
put k v (field j w fs) =
    let later = field j w (put k v fs) in if str_eq j k then field j v fs else later

unfoldable pub without : String → Fields → Fields
without k end = end
without k (field j v fs) = let rest = without k fs in if str_eq j k then rest else field j v rest

-- `const { sig, signer, ...unsigned } = envelope`
unfoldable pub strip_signature : Value → Value
unfolding without
strip_signature (obj fs) = obj (without "signer" (without "sig" fs))
strip_signature _ = obj end

-- `random` is the value of `Math.random().toString(36).slice(2, 12)`.
unfoldable pub create_unsigned_envelope :
    Value → Value → Value → Value → Value → Text → Value → Result Value
create_unsigned_envelope kind trade_id body ts nonce random v =
    if not (is_nonempty_string kind)
    then err (thrown "kind is required")
    else if not (is_nonempty_string trade_id)
    then err (thrown "tradeId is required")
    else if not (is_defined body)
    then err (thrown "body is required")
    else ok (
        obj (
          field "v" v (
            field "kind" kind (
              field "trade_id" trade_id (
                field "ts" ts (
                  field "nonce" (if truthy nonce then nonce else str random)
                    (field "body" body end)))))))

unfoldable pub encode_envelope_for_signing : Value → Text
encode_envelope_for_signing unsigned = stable_stringify unsigned

-- `{ ...unsignedEnvelope, signer, sig }`
unfoldable pub with_signature : Value → Text → Text → Value
unfolding put
with_signature (obj fs) signer sig = obj (put "sig" (str sig) (put "signer" (str signer) fs))
with_signature _ signer sig = obj (field "signer" (str signer) (field "sig" (str sig) end))

unfoldable pub normal : Value → Text
normal (str s) = to_lower_case (trim s)
normal _ = []

unfoldable pub attach_signature : Value → Value → Value → Result Value
unfolding with_signature normal
attach_signature unsigned signer sig =
    if not (is_nonempty_string signer)
    then err (thrown "signerPubKeyHex is required")
    else if not (is_nonempty_string sig)
    then err (thrown "sigHex is required")
    else ok (with_signature unsigned (normal signer) (normal sig))

module _ (crypto : Crypto) where
  unfoldable pub sign_with : Value → Option Text → Result Text
  sign_with unsigned none = err (thrown "Invalid signing material")
  sign_with unsigned (some key) =
      ok (crypto.encode_hex (crypto.sign (encode_envelope_for_signing unsigned) key))

  -- The secret key is given as hex.
  unfoldable pub sign_unsigned_envelope_hex : Value → Value → Result Text
  sign_unsigned_envelope_hex unsigned secret =
      sign_with unsigned (crypto.decode_hex (to_lower_case (trim (to_text (or_empty secret)))))

  unfoldable pub check_signature : Option Text → Option Text → Text → Result (Unit {0})
  check_signature (some sig) (some public_key) message =
      guard (crypto.verify sig message public_key) "Invalid signature"
  check_signature _ _ message = err (refused "Invalid signature encoding")

  unfoldable pub verify_signed_envelope : Value → Result (Unit {0})
  unfolding check_signature normal
  verify_signed_envelope envelope = do
    guard (is_reference envelope) "Invalid envelope"
    guard (is_nonempty_string (get envelope "sig")) "Missing sig"
    guard (is_nonempty_string (get envelope "signer")) "Missing signer"
    check_signature (crypto.decode_hex (normal (get envelope "sig")))
        (crypto.decode_hex (normal (get envelope "signer")))
        (encode_envelope_for_signing (strip_signature envelope))

  unfoldable pub hash_unsigned_envelope : Value → Text
  hash_unsigned_envelope unsigned = crypto.sha256 (encode_envelope_for_signing unsigned)

  unfoldable pub hash_terms_envelope : Value → Result Text
  hash_terms_envelope envelope =
      if not (is_reference envelope)
      then err (thrown "termsEnvelope is required")
      else if not
          (strict_eq (get (strip_signature envelope) "kind") (str (codes (kind_name Kind.terms))))
      then err (thrown "Expected kind=swap.terms")
      else ok (hash_unsigned_envelope (strip_signature envelope))

  unfoldable pub accept_body_for_terms : Value → Result Value
  accept_body_for_terms envelope = do
    hash ← hash_terms_envelope envelope
    ok (obj (field "terms_hash" (str hash) end))

-- ===== src/Swap/Valid/Signatures.antt =====
-- An envelope that is created, signed and given its signature is verified.
use swapfloor.Common.{true, some, ok, ◌≡◌, subst, refl, sym, ap, arith, if◌then◌else◌}
use swapfloor.Js.Text.{Text, trim, to_lower_case}
use swapfloor.Js.Value.{Value, str, obj, field, end, get, lookup, to_text, is_reference, truthy}
use swapfloor.Js.Convert.{or_empty}
use swapfloor.Swap.Schema.Field.{is_nonempty_string}
use swapfloor.Swap.Envelope.{
  Crypto, put, without, strip_signature, with_signature, normal, create_unsigned_envelope,
  encode_envelope_for_signing, sign_with, sign_unsigned_envelope_hex, attach_signature,
  check_signature, verify_signed_envelope,
}

-- The six fields of an envelope that is not signed.
abbrev pub unsigned : Value → Value → Value → Value → Value → Value → Value
unsigned v kind trade_id ts nonce body = obj (
    field "v" v (
      field "kind" kind
        (field "trade_id" trade_id (field "ts" ts (field "nonce" nonce (field "body" body end))))))

-- What the signing relies on: the codec writes a signature in lower case and reads it back, it is not
-- empty, and one by the secret key is verified with the public one.
pub record KeyPair (crypto : Crypto) (secret_key public_key : Text) : Type 0 where
  pub reads :
      (message : Text)
      → crypto.decode_hex (crypto.encode_hex (crypto.sign message secret_key))
        ≡ some (crypto.sign message secret_key)
  pub lower :
      (message : Text)
      → to_lower_case (trim (crypto.encode_hex (crypto.sign message secret_key)))
        ≡ crypto.encode_hex (crypto.sign message secret_key)
  pub filled :
      (message : Text)
      → is_nonempty_string (str (crypto.encode_hex (crypto.sign message secret_key))) ≡ true
  pub verifies :
      (message : Text) → crypto.verify (crypto.sign message secret_key) message public_key ≡ true

strip-with_signature :
    (v kind trade_id ts nonce body : Value) (signer sig : Text)
    → strip_signature (with_signature (unsigned v kind trade_id ts nonce body) signer sig)
      ≡ unsigned v kind trade_id ts nonce body
unfolding strip_signature with_signature put without
strip-with_signature v kind trade_id ts nonce body signer sig = refl

with_signature-fields :
    (v kind trade_id ts nonce body : Value) (signer sig : Text)
    → (get (with_signature (unsigned v kind trade_id ts nonce body) signer sig) "sig" ≡ str sig)
      × (get (with_signature (unsigned v kind trade_id ts nonce body) signer sig) "signer"
          ≡ str signer)
      × (is_reference (with_signature (unsigned v kind trade_id ts nonce body) signer sig) ≡ true)
unfolding with_signature put get lookup
with_signature-fields v kind trade_id ts nonce body signer sig = (refl, refl, refl)

create_unsigned_envelope-unsigned :
    (kind trade_id body ts nonce v e : Value) (random : Text)
    → create_unsigned_envelope kind trade_id body ts nonce random v ≡ ok e
    → e ≡ unsigned v kind trade_id ts (if truthy nonce then nonce else str random) body
unfolding create_unsigned_envelope
create_unsigned_envelope-unsigned kind trade_id body ts nonce v e random h = ground arith

module _ (crypto : Crypto) (secret_key public_key : Text)
    (pair : KeyPair crypto secret_key public_key) where
  -- Of what stands in the envelope.
  signed-verified :
      (e : Value) (m signer : Text)
      → is_reference e ≡ true
      → get e "sig" ≡ str (crypto.encode_hex (crypto.sign m secret_key))
      → get e "signer" ≡ str signer
      → is_nonempty_string (str (crypto.encode_hex (crypto.sign m secret_key))) ≡ true
      → is_nonempty_string (str signer) ≡ true
      → to_lower_case (trim signer) ≡ signer
      → crypto.decode_hex signer ≡ some public_key
      → encode_envelope_for_signing (strip_signature e) ≡ m
      → verify_signed_envelope crypto e ≡ ok tt
  unfolding verify_signed_envelope normal check_signature
  signed-verified e m signer r s g ns ng low key msg =
      rw (r, s, g, ns, ng, low, key, msg, pair.lower m, pair.reads m, pair.verifies m) refl

  -- Signing, attaching and verifying succeed in turn.
  abbrev pub IsSignable : Value → Value → Text → Type 0
  IsSignable e secret signer =
      (sig : Text) × (signed : Value) × (sign_unsigned_envelope_hex crypto e secret ≡ ok sig)
      × (attach_signature e (str signer) (str sig) ≡ ok signed)
      × (verify_signed_envelope crypto signed ≡ ok tt)

  signature_of :
      (e secret : Value)
      → crypto.decode_hex (to_lower_case (trim (to_text (or_empty secret)))) ≡ some secret_key
      → sign_unsigned_envelope_hex crypto e secret
        ≡ ok (crypto.encode_hex (crypto.sign (encode_envelope_for_signing e) secret_key))
  unfolding sign_unsigned_envelope_hex sign_with
  signature_of e secret known = rw known refl

  attached :
      (e : Value) (signer sig : Text)
      → is_nonempty_string (str signer) ≡ true
      → is_nonempty_string (str sig) ≡ true
      → to_lower_case (trim signer) ≡ signer
      → to_lower_case (trim sig) ≡ sig
      → attach_signature e (str signer) (str sig) ≡ ok (with_signature e signer sig)
  unfolding attach_signature normal
  attached e signer sig a b c d = rw (a, b, c, d) refl

  unsigned-IsSignable :
      (v kind trade_id ts nonce body secret : Value) (signer : Text)
      → crypto.decode_hex (to_lower_case (trim (to_text (or_empty secret)))) ≡ some secret_key
      → is_nonempty_string (str signer) ≡ true
      → to_lower_case (trim signer) ≡ signer
      → crypto.decode_hex signer ≡ some public_key
      → IsSignable (unsigned v kind trade_id ts nonce body) secret signer
  unsigned-IsSignable v kind trade_id ts nonce body secret signer known filled low key =
      let e = unsigned v kind trade_id ts nonce body in
      let m : Text = encode_envelope_for_signing e in
      let sig : Text = crypto.encode_hex (crypto.sign m secret_key) in
      let signed : Value = with_signature e signer sig in
      let (s, g, r) = with_signature-fields v kind trade_id ts nonce body signer sig in
      (
        sig,
        signed,
        signature_of e secret known,
        attached e signer sig filled (pair.filled m) low (pair.lower m),
        signed-verified signed m signer r s g (pair.filled m) filled low key (
            ap encode_envelope_for_signing
              (strip-with_signature v kind trade_id ts nonce body signer sig)),
      )

  -- An envelope that is created is signed, and verified as signed: for a key pair, whose secret key is
  -- read from its text and whose public key is written in lower case, signing it gives a signature,
  -- attaching this gives an envelope, and its verification succeeds.
  pub create-sign-verify :
      (kind trade_id body ts nonce v e secret : Value) (random signer : Text)
      → crypto.decode_hex (to_lower_case (trim (to_text (or_empty secret)))) ≡ some secret_key
      → is_nonempty_string (str signer) ≡ true
      → to_lower_case (trim signer) ≡ signer
      → crypto.decode_hex signer ≡ some public_key
      → create_unsigned_envelope kind trade_id body ts nonce random v ≡ ok e
      → IsSignable e secret signer
  create-sign-verify kind trade_id body ts nonce v e secret random signer known filled low key h =
      let used : Value = if truthy nonce then nonce else str random in
      subst (λ u. IsSignable u secret signer)
        (sym (create_unsigned_envelope-unsigned kind trade_id body ts nonce v e random h))
        (unsigned-IsSignable v kind trade_id ts used body secret signer known filled low key)

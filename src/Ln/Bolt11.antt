-- ===== src/Ln/Bolt11.antt =====
-- src/ln/bolt11.js: decoding a Lightning invoice and comparing it with an invoice message.
pub mod Amount
pub mod Tags
use swapfloor.Common.{
  ℕ, ◌+◌, ◌-◌, ◌*◌, ◌<◌, String, Bool, true, false, not, ◌&&◌, ◌||◌, Option, none, some, List, [],
  ◌∷◌, Result, ok, err, refused, thrown, guard, ◌>>=◌, ◌>>◌, if◌then◌else◌, ltb, ◌==◌, length, take,
  drop,
}
use swapfloor.Js.Text.{Text, codes, trim, to_lower_case, text_eq, is_empty}
use swapfloor.Js.Value.{
  Value, Number, nat, str, truthy, to_text, is_present, number_eq, number_is_finite,
}
use swapfloor.Js.Convert.{to_number, big_int}
use swapfloor.Swap.Schema.Field.{is_filled_string}
use Amount.{parse_hrp_amount_msat}
use Tags.{Bech32, Fields, words_to_big_int, read_tags}

pub record Decoded : Type 0 where
  pub hrp : Text
  pub currency : Text
  pub amount_msat : Option ℕ
  pub timestamp_unix : ℕ
  pub payment_hash_hex : Option Text
  pub expiry_seconds : ℕ
  pub expires_at_unix : ℕ

-- The 65-byte signature in 5-bit words.
abbrev pub signature_words : ℕ
signature_words = 104

module _ (bech32 : Bech32) where
  decoded_with : Text → Text → Option ℕ → ℕ → Fields → Decoded
  decoded_with hrp currency amount timestamp fields = record {
    hrp = hrp;
    currency = currency;
    amount_msat = amount;
    timestamp_unix = timestamp;
    payment_hash_hex = fields.payment_hash_hex;
    expiry_seconds = fields.expiry_seconds;
    expires_at_unix = timestamp + fields.expiry_seconds;
  }

  -- The part behind the bech32 decoding.
  unfoldable pub decode_words : Text → List ℕ → Result Decoded
  unfolding decoded_with
  decode_words hrp words = do
    (currency, amount) ← parse_hrp_amount_msat hrp
    if ltb (length words) (7 + signature_words) then err (thrown "Invoice too short") else (do
      let timestamp = words_to_big_int (take 7 words)
      if timestamp == 0 then err (thrown "Invalid invoice timestamp") else (do
        fields ← read_tags bech32 (take (length words - signature_words - 7) (drop 7 words))
        ok (decoded_with hrp currency amount timestamp fields)))

  decode_text : Option (Text × List ℕ) → Result Decoded
  decode_text none = err (thrown "Invalid bech32 invoice")
  decode_text (some (hrp, words)) = decode_words hrp words

  unfoldable pub decode_bolt11 : Value → Result Decoded
  unfolding decode_text
  decode_bolt11 bolt11 =
      if is_filled_string bolt11
      then decode_text (bech32.decode (to_lower_case (trim (to_text bolt11))))
      else err (thrown "bolt11 is required")

  -- `hash ? String(hash).trim().toLowerCase() : null` against the hash of the invoice.
  unfoldable pub hash_matches : Value → Option Text → Bool
  hash_matches wanted none = true
  hash_matches wanted (some hash) =
      not (truthy wanted)
      || is_empty (to_lower_case (trim (to_text wanted)))
      || is_empty hash
      || text_eq hash (to_lower_case (trim (to_text wanted)))

  unfoldable pub check_msat : Value → Option ℕ → Result (Unit {0})
  check_msat wanted none = ok tt
  check_msat wanted (some msat) =
      if is_present wanted
      then (do
        want ← big_int (str (to_text wanted))
        guard (number_eq (nat msat) want) "bolt11 amount mismatch")
      else ok tt

  unfoldable pub check_expiry : Value → ℕ → Result (Unit {0})
  check_expiry wanted expires =
      if is_present wanted
      then (do
        guard (number_is_finite (to_number wanted)) "invalid expires_at_unix"
        guard (number_eq (nat expires) (to_number wanted)) "bolt11 expires_at_unix mismatch")
      else ok tt

  -- A failure to decode becomes a refusal.
  unfoldable pub caught : Result Decoded → Result Decoded
  caught (ok d) = ok d
  caught (err (refused m)) = err (refused m)
  caught (err (thrown m)) = err (refused m)

  unfoldable pub verify_bolt11_matches_invoice_body : Value → Value → Value → Value → Result Decoded
  unfolding caught hash_matches check_msat check_expiry
  verify_bolt11_matches_invoice_body bolt11 payment_hash amount expires = do
    decoded ← caught (decode_bolt11 bolt11)
    guard (hash_matches payment_hash decoded.payment_hash_hex) "bolt11 payment_hash mismatch"
    check_msat amount decoded.amount_msat
    check_expiry expires decoded.expires_at_unix
    ok decoded

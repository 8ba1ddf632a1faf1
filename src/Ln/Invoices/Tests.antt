-- ===== src/Ln/Invoices/Tests.antt =====
-- Invoices at work, and the theorems about them at concrete words.
use swapfloor.Common.{◌≡◌, ◌≢◌, refl, some, none, List, [], ◌∷◌, ok, arith}
use swapfloor.Ln.Bolt11.Tags.{Bech32, default_fields, read_tags, tag_loop, read_field}
use swapfloor.Ln.Invoices.Tagged.{Field, write_fields, tag_loop-ne-none}

abbrev toy_bech32 : Bech32
toy_bech32 = record {
  decode = λ t. none;
  from_words = λ ws. some ws;
  bytes_to_hex = λ bytes. bytes;
}

abbrev two_fields : List Field
two_fields = (1, 7 ∷ 8 ∷ []) ∷ (6, 2 ∷ 0 ∷ []) ∷ []

two_fields_read :
    read_tags toy_bech32 (write_fields two_fields)
    ≡ ok (record { payment_hash_hex = some (7 ∷ 8 ∷ []); expiry_seconds = 64 })
unfolding read_tags tag_loop read_field
two_fields_read = refl

tag_loop-ne-none_example : tag_loop toy_bech32 3 (1 ∷ 31 ∷ []) default_fields ≢ none
tag_loop-ne-none_example = tag_loop-ne-none toy_bech32 3 (1 ∷ 31 ∷ []) default_fields (omega arith)

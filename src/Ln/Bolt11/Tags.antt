-- ===== src/Ln/Bolt11/Tags.antt =====
-- The tagged fields of an invoice, as 5-bit words.
use swapfloor.Common.{
  ℕ, zero, suc, ◌+◌, ◌*◌, true, false, Option, none, some, List, [], ◌∷◌, Result, ok, err, thrown,
  if◌then◌else◌, ◌==◌, ltb, length, take, drop, get_elem?,
}
use swapfloor.Js.Text.{Text, codes}

-- The libraries `bech32` and `b4a`: `decode` gives prefix and words, `from_words` packs words into
-- bytes, and both may throw.
pub record Bech32 : Type 0 where
  pub decode : Text → Option (Text × List ℕ)
  pub from_words : List ℕ → Option (List ℕ)
  pub bytes_to_hex : List ℕ → Text

abbrev pub bech32_charset : Text
bech32_charset = codes "qpzry9x8gf2tvdw0s3jn54khce6mua7l"

words_from : ℕ → List ℕ → ℕ
words_from n [] = n
words_from n (w ∷ ws) = words_from (n * 32 + w) ws

unfoldable pub words_to_big_int : List ℕ → ℕ
unfolding words_from
words_to_big_int words = words_from 0 words

pub record Fields : Type 0 where
  pub payment_hash_hex : Option Text
  pub expiry_seconds : ℕ

abbrev pub default_fields : Fields
default_fields = record { payment_hash_hex = none; expiry_seconds = 3600 }

abbrev pub max_safe_integer : ℕ
max_safe_integer = 9007199254740991

module _ (bech32 : Bech32) where
  with_hash : Fields → Option (List ℕ) → Result Fields
  with_hash fields none = err (thrown "from_words")
  with_hash fields (some bytes) =
      ok (record fields { payment_hash_hex = some (bech32.bytes_to_hex bytes) })

  with_expiry : Fields → ℕ → Result Fields
  with_expiry fields n =
      if ltb max_safe_integer n
      then err (thrown "Expiry too large")
      else ok (record fields { expiry_seconds = n })

  -- What one field means, by the character of its tag.
  unfoldable pub read_field : ℕ → List ℕ → Fields → Result Fields
  unfolding with_hash with_expiry words_to_big_int
  read_field tag words fields =
      if tag == b'p'
      then with_hash fields (bech32.from_words words)
      else if tag == b'x'
      then with_expiry fields (words_to_big_int words)
      else ok fields

  -- An exception ends the loop.
  abbrev pub proceed : Result Fields → (Fields → Option (Result Fields)) → Option (Result Fields)
  proceed (err e) rest = some (err e)
  proceed (ok next) rest = rest next

  -- The loop over the words that are left; `none` is the end of the fuel.
  unfoldable pub tag_loop : ℕ → List ℕ → Fields → Option (Result Fields)
  tag_loop fuel [] fields = some (ok fields)
  tag_loop zero (_ ∷ _) fields = none
  tag_loop (suc fuel) (tag ∷ high ∷ low ∷ words) fields = elim (get_elem? bech32_charset tag) [
    | none ↦ some (err (thrown "Invalid tag"))
    | some ch ↦ elim (ltb (length words) (high * 32 + low)) [
      | true ↦ some (err (thrown "Truncated tagged field data"))
      | false ↦
          proceed (read_field ch (take (high * 32 + low) words) fields)
            (λ next. tag_loop fuel (drop (high * 32 + low) words) next)
    ]
  ]
  tag_loop (suc fuel) (_ ∷ _) fields = some (err (thrown "Truncated tagged field header"))

  unfoldable pub finished : Option (Result Fields) → Result Fields
  finished none = err (thrown "unreachable")
  finished (some r) = r

  unfoldable pub read_tags : List ℕ → Result Fields
  unfolding finished
  read_tags words = finished (tag_loop (length words) words default_fields)

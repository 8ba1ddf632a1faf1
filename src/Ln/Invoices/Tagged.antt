-- ===== src/Ln/Invoices/Tagged.antt =====
-- Reading the tagged fields of an invoice undoes writing them, and always comes to an end.
use swapfloor.Common.{
  ℕ, zero, suc, ◌+◌, ◌*◌, ◌/◌, ◌%◌, ◌≤◌, Option, none, some, List, [], ◌∷◌, ◌++◌, Result, ok, err,
  thrown, ◌≢◌, arith, length, take, drop, get_elem?, ltb, Bool-cases, Option-cases, inl, inr, ◌>>=◌,
}
use swapfloor.Ln.Bolt11.Tags.{Bech32, Fields, bech32_charset, read_field, tag_loop, proceed}

length-drop-le {ℓ} : {A : Type ℓ} (n : ℕ) (xs : List A) → length (drop n xs) ≤ length xs
length-drop-le zero xs = omega arith
length-drop-le (suc n) [] = omega arith
length-drop-le (suc n) (x ∷ xs) = omega (arith, length-drop-le n xs)

-- A field as it is written: tag, length in two words, data.
abbrev pub Field : Type 0
Field = ℕ × List ℕ

abbrev pub write_field : Field → List ℕ → List ℕ
write_field (tag, words) rest = tag ∷ length words / 32 ∷ length words % 32 ∷ words ++ rest

abbrev pub write_fields : List Field → List ℕ
write_fields [] = []
write_fields (f ∷ fs) = write_field f (write_fields fs)

module _ (bech32 : Bech32) where
  -- The fields in turn, with no words in sight.
  pub fold_fields : List Field → Fields → Result Fields
  fold_fields [] fields = ok fields
  fold_fields ((tag, words) ∷ fs) fields = elim (get_elem? bech32_charset tag) [
    | none ↦ err (thrown "Invalid tag")
    | some ch ↦ read_field bech32 ch words fields >>= λ next. fold_fields fs next
  ]

  proceed-ne-none :
      (r : Result Fields) (k : Fields → Option (Result Fields))
      → ((next : Fields) → k next ≢ none)
      → proceed bech32 r k ≢ none
  proceed-ne-none (ok next) k h = h next
  proceed-ne-none (err e) k h = λ p. cc

  -- As much fuel as there are words is enough: the loop over the words always ends.
  pub tag_loop-ne-none :
      (fuel : ℕ) (words : List ℕ) (fields : Fields)
      → length words ≤ fuel
      → tag_loop bech32 fuel words fields ≢ none
  unfolding tag_loop
  tag_loop-ne-none fuel [] fields h = λ p. cc
  tag_loop-ne-none zero (w ∷ ws) fields h = absurd (omega arith)
  tag_loop-ne-none (suc fuel) (tag ∷ high ∷ low ∷ words) fields h =
      elim (Option-cases (get_elem? bech32_charset tag)) [
        | inl missing ↦ rw missing (λ p. cc)
        | inr (ch, found) ↦ elim (Bool-cases (ltb (length words) (high * 32 + low))) [
          | inl short ↦ rw (found, short) (λ p. cc)
          | inr long ↦
              rw (found, long)
                (proceed-ne-none (read_field bech32 ch (take (high * 32 + low) words) fields)
                  (tag_loop bech32 fuel (drop (high * 32 + low) words))
                  (λ next.
                    tag_loop-ne-none fuel (drop (high * 32 + low) words) next
                      (omega (arith, length-drop-le (high * 32 + low) words))))
        ]
      ]
  tag_loop-ne-none (suc fuel) (a ∷ []) fields h = λ p. cc
  tag_loop-ne-none (suc fuel) (a ∷ b ∷ []) fields h = λ p. cc

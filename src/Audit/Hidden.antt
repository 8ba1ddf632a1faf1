-- ===== src/Audit/Hidden.antt =====
-- What is shown of a value does not depend on its secrets.
use swapfloor.Common.{
  ℕ, List, [], ◌∷◌, ◌++◌, String, ◌≡◌, refl, ap, ◌∙◌, arith, true, if◌then◌else◌,
}
use swapfloor.Js.Text.{Text, codes}
use swapfloor.Js.Value.{Value, nat, num, str, arr, obj, Items, nil, cons, Fields, end, field}
use swapfloor.Audit.{
  should_redact_key, redact_sensitive, redact_items, redact_fields, write, entry_line,
}
use swapfloor.Js.Stringify.{stable_stringify}

-- The values differ at most in fields, at any depth, whose keys name a secret.
mutual
  pub data Alike : Value → Value → Type 0 where
    same : (v : Value) → Alike v v
    alike_arr : {vs ws : Items} → AlikeItems vs ws → Alike (arr vs) (arr ws)
    alike_obj : {fs gs : Fields} → AlikeFields fs gs → Alike (obj fs) (obj gs)

  pub data AlikeItems : Items → Items → Type 0 where
    none : AlikeItems nil nil
    item :
        {v w : Value} {vs ws : Items}
        → Alike v w
        → AlikeItems vs ws
        → AlikeItems (cons v vs) (cons w ws)

  pub data AlikeFields : Fields → Fields → Type 0 where
    no_field : AlikeFields end end
    shown :
        {v w : Value} {fs gs : Fields}
        → (k : String) → Alike v w
        → AlikeFields fs gs
        → AlikeFields (field k v fs) (field k w gs)
    secret :
        {fs gs : Fields}
        → (k : String) (v w : Value) → should_redact_key (codes k) ≡ true
        → AlikeFields fs gs
        → AlikeFields (field k v fs) (field k w gs)

cons_eq : {v w : Value} {vs ws : Items} → v ≡ w → vs ≡ ws → cons v vs ≡ cons w ws
cons_eq p q = cc

field_eq :
    (k : String) {v w : Value} {fs gs : Fields} → v ≡ w → fs ≡ gs → field k v fs ≡ field k w gs
field_eq k p q = cc

-- They are shown as the same.
mutual
  unfolding redact_sensitive

  redact_sensitive-Alike :
      (max : ℕ) {v w : Value} → Alike v w → redact_sensitive max v ≡ redact_sensitive max w
  redact_sensitive-Alike max (same v) = refl
  redact_sensitive-Alike max (alike_arr vs) = ap arr (redact_items-Alike max vs)
  redact_sensitive-Alike max (alike_obj fs) = ap obj (redact_fields-Alike max fs)

  redact_items-Alike :
      (max : ℕ) {vs ws : Items} → AlikeItems vs ws → redact_items max vs ≡ redact_items max ws
  redact_items-Alike max none = refl
  redact_items-Alike max (item v vs) =
      cons_eq (redact_sensitive-Alike max v) (redact_items-Alike max vs)

  redact_fields-Alike :
      (max : ℕ) {fs gs : Fields} → AlikeFields fs gs → redact_fields max fs ≡ redact_fields max gs
  redact_fields-Alike max no_field = refl
  redact_fields-Alike max (shown k v fs) =
      field_eq k
        (ap (λ r. if should_redact_key (codes k) then str (codes "<redacted>") else r)
          (redact_sensitive-Alike max v))
        (redact_fields-Alike max fs)
  redact_fields-Alike max (secret k v w h fs) = ground (arith, h, redact_fields-Alike max fs)

pub record Entry : Type 0 where
  pub now : ℕ
  pub event : Text
  pub payload : Value

unfoldable pub write_all : List Entry → Text → Text
write_all [] file = file
write_all (e ∷ es) file = write_all es (write e.now e.event e.payload file)

-- Entries of the same times and events, with payloads that are alike.
abbrev pub AlikeEntries : List Entry → List Entry → Type 0
AlikeEntries [] [] = Unit
AlikeEntries (e ∷ es) (d ∷ ds) =
    (e.now ≡ d.now) × (e.event ≡ d.event) × Alike e.payload d.payload × AlikeEntries es ds
AlikeEntries _ _ = ⊥

write-Alike :
    (now : ℕ) (event : Text) {v w : Value}
    → Alike v w
    → (file : Text) → write now event v file ≡ write now event w file
unfolding write entry_line
write-Alike now event a file =
    ap
      (λ r.
        file
        ++ (stable_stringify
              (obj (field "ts" (num (nat now)) (field "event" (str event) (field "payload" r end))))
            ++ 10 ∷ []))
      (redact_sensitive-Alike 2000 a)

-- Two sequences of entries of the same times and events, whose payloads differ at most in fields
-- at any depth that the test of keys names as secret, leave the same text in the file of the audit
-- log.
pub write_all-AlikeEntries :
    (es ds : List Entry) (file : Text) → AlikeEntries es ds → write_all es file ≡ write_all ds file
unfolding write_all
write_all-AlikeEntries [] [] file h = refl
write_all-AlikeEntries (e ∷ es) (d ∷ ds) file (n, v, a, rest) =
    let first : write e.now e.event e.payload file ≡ write d.now d.event d.payload file =
      ap (λ t. write t e.event e.payload file) n
      ∙ ap (λ x. write d.now x e.payload file) v
      ∙ write-Alike d.now d.event a file in
    write_all-AlikeEntries es ds (write e.now e.event e.payload file) rest ∙ ap (write_all ds) first
write_all-AlikeEntries [] (d ∷ ds) file h = absurd h
write_all-AlikeEntries (e ∷ es) [] file h = absurd h

-- ===== src/Receipts/Patch.antt =====
-- What a patch does to the columns of a row: reads of an object after writes to it.
use text.Mathlib.Text.{◌==◌ as str_eq}
use text.Mathlib.TextEquality.{eq_iff}
use swapfloor.Common.{
  ◌≡◌, refl, sym, ap, ◌∙◌, subst, String, true, false, ◌&&◌, arith, if◌then◌else◌,
}
use swapfloor.Js.Value.{Value, undefined, Fields, end, field, lookup, has_key, is_defined}
use swapfloor.Swap.Envelope.{put}
use swapfloor.Receipts.Columns.{apply_patch, patched}

-- A key that equals another reads the same field.
same_key : (j k n : String) → str_eq j k ≡ true → str_eq j n ≡ str_eq k n
same_key j k n h = ap (λ x. str_eq x n) ((eq_iff j k).0 h)

other_key : (j k n : String) → str_eq j n ≡ true → str_eq k n ≡ true → str_eq j k ≡ true
other_key j k n h g = (eq_iff j k).1 ((eq_iff j n).0 h ∙ sym ((eq_iff k n).0 g))

put_step :
    (j k n : String) (v w : Value) (fs : Fields)
    → lookup n (put k v fs) ≡ (if str_eq k n then v else lookup n fs)
    → lookup n (put k v (field j w fs)) ≡ (if str_eq k n then v else lookup n (field j w fs))
unfolding put lookup
put_step j k n v w fs h = ground (arith, h, same_key j k n, other_key j k n)

pub lookup-put :
    (n k : String) (v : Value) (fs : Fields)
    → lookup n (put k v fs) ≡ (if str_eq k n then v else lookup n fs)
unfolding put lookup
lookup-put n k v end = refl
lookup-put n k v (field j w fs) = put_step j k n v w fs (lookup-put n k v fs)

-- Each key once.
abbrev pub Once : Fields → Type 0
Once end = Unit
Once (field k v fs) = (has_key k fs ≡ false) × Once fs

lookup_absent : (k : String) (fs : Fields) → has_key k fs ≡ false → lookup k fs ≡ undefined
unfolding has_key lookup
lookup_absent k end h = refl
lookup_absent k (field j v fs) h = ground (arith, lookup_absent k fs)

lookup-patched :
    (n k : String) (v : Value) (next : Fields)
    → lookup n (patched k v next) ≡ (if str_eq k n && is_defined v then v else lookup n next)
lookup-patched n k v next = ground (arith, lookup-put n k v next)

-- A column of the patched object is the patch's where the patch defines it, and else the old one.
pub lookup-apply_patch :
    (n : String) (p next : Fields)
    → Once p
    → lookup n (apply_patch p next)
      ≡ (if is_defined (lookup n p) then lookup n p else lookup n next)
unfolding apply_patch lookup
lookup-apply_patch n end next once = refl
lookup-apply_patch n (field k v p) next (fresh, once) =
    let gone : str_eq k n ≡ true → lookup n p ≡ undefined =
      λ h. lookup_absent n p (subst (λ m. has_key m p ≡ false) ((eq_iff k n).0 h) fresh) in
    ground (arith, gone, lookup-patched n k v next, lookup-apply_patch n p (patched k v next) once)

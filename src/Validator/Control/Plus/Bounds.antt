-- ===== src/Validator/Control/Plus/Bounds.antt =====
-- src/validator/control.rs: the sums of machine integers in `plus_operation`.
use cddl.Prelude.{
  ℕ, suc, ◌+◌, ◌-◌, ◌^◌, ◌<◌, Bool, true, false, List, ◌≡◌, refl, ap, ◌∙◌, arith, ltb,
  if◌then◌else◌, Bool-cases, inl, inr,
}
use cddl.Prelude.Int.{ℤ, pos, negsuc, ◌+ℤ◌}
use cddl.Prelude.Reply.{answered, panicked, ◌>>=◌}
use cddl.Prelude.Reply.Laws.{Concludes}
use cddl.Ast.{Type2, Rule}
use cddl.Validator.Control.{Codecs, ControlError, literal}
use cddl.Validator.Control.Plus

pub isize_as_usize-lt : (z : ℤ) → Plus.isize_as_usize z < 2 ^ 64
isize_as_usize-lt (pos n) = omega arith
isize_as_usize-lt (negsuc n) = omega arith

pub usize_as_isize-is_isize : (n : ℕ) → n < 2 ^ 64 → Plus.is_isize (Plus.usize_as_isize n) ≡ true
usize_as_isize-is_isize n h = ground arith

pub add_usize-Concludes :
    (checks : Bool) (a b : ℕ)
    → Concludes (checks ≡ true) (λ n. n < 2 ^ 64) (Plus.add_usize checks a b)
unfolding Plus.add_usize
add_usize-Concludes true a b = ground arith
add_usize-Concludes false a b = ground arith

fit_isize-Concludes :
    (checks : Bool) (s : ℤ)
    → Concludes (checks ≡ true) (λ z. Plus.is_isize z ≡ true) (Plus.fit_isize checks s)
unfolding Plus.fit_isize
fit_isize-Concludes checks s = elim (Bool-cases (Plus.is_isize s)) [
  | inl e ↦ rw (e, Plus.fit_isize) e
  | inr e ↦ rw (e, Plus.fit_isize) (wrapped checks)
]
  where
    wrapped :
        (c : Bool)
        → Concludes {E = ControlError}
            (c ≡ true)
            (λ z. Plus.is_isize z ≡ true)
            (if c then panicked else answered (Plus.usize_as_isize (Plus.isize_as_usize s)))
    wrapped true = refl
    wrapped false = usize_as_isize-is_isize (Plus.isize_as_usize s) (isize_as_usize-lt s)

pub add_isize-Concludes :
    (checks : Bool) (a b : ℤ)
    → Concludes (checks ≡ true) (λ z. Plus.is_isize z ≡ true) (Plus.add_isize checks a b)
unfolding Plus.add_isize
add_isize-Concludes checks a b = fit_isize-Concludes checks (a +ℤ b)

fit_isize-answered :
    (checks : Bool) (s : ℤ) → Plus.is_isize s ≡ true → Plus.fit_isize checks s ≡ answered s
unfolding Plus.fit_isize
fit_isize-answered checks s h = rw h refl

-- The sum of an unsigned integer below 2 ^ 63 and a negative one.
negative_sum :
    (checks : Bool) (a k : ℕ)
    → a < 2 ^ 63
    → k < 2 ^ 63
    → Plus.add_isize checks (Plus.usize_as_isize a) (negsuc k)
      ≡ answered (if ltb k a then pos (a - (k + 1)) else negsuc (k - a))
unfolding Plus.add_isize
negative_sum checks a k ha hk =
    fit_isize-answered checks (Plus.usize_as_isize a +ℤ negsuc k) in_range ∙ ap answered exact
  where
    exact :
        Plus.usize_as_isize a +ℤ negsuc k ≡ (if ltb k a then pos (a - (k + 1)) else negsuc (k - a))
    exact = ground arith

    in_range : Plus.is_isize (Plus.usize_as_isize a +ℤ negsuc k) ≡ true
    in_range = ground (arith, exact)

-- An unsigned integer below 2 ^ 63 and a negative one -(k + 1): the difference where it is not negative,
-- and otherwise the difference wrapped around to a large unsigned integer, with overflow checks or not.
pub plus_operation-negative :
    (x : Codecs) (checks : Bool) (rules : List Rule) (f a k : ℕ)
    → a < 2 ^ 63
    → k < 2 ^ 63
    → Plus.plus_operation x checks rules (suc f) (Type2.uint_value a) (Type2.int_value (negsuc k))
      ≡ literal (Type2.uint_value (if ltb k a then a - (k + 1) else 2 ^ 64 - (k + 1 - a)))
unfolding Plus.plus_operation Plus.plus_target Plus.plus_uint Plus.add_isize
plus_operation-negative x checks rules f a k ha hk =
    ap (λ r. r >>= (λ v. literal (Type2.uint_value (Plus.isize_as_usize v))))
      (negative_sum checks a k ha hk)
    ∙ ap (λ n. literal (Type2.uint_value n)) cast
  where
    cast :
        Plus.isize_as_usize (if ltb k a then pos (a - (k + 1)) else negsuc (k - a))
        ≡ (if ltb k a then a - (k + 1) else 2 ^ 64 - (k + 1 - a))
    cast = ground arith

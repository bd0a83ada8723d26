-- ===== src/Validator/Control/Plus.antt =====
-- src/validator/control.rs: `plus_operation`, on a 64-bit target. With overflow checks a sum out of range
-- panics, and without them it wraps around; the lines that the source prints are left out.
pub mod Bounds
pub mod Sums
pub mod Laws
use cddl.Prelude.{
  ℕ, zero, suc, ◌+◌, ◌-◌, ◌%◌, ◌^◌, Bool, true, false, ◌&&◌, Option, none, some, List, [], ◌∷◌,
  head?, ltb, leb, if◌then◌else◌,
}
use cddl.Prelude.Int.{ℤ, pos, negsuc, ◌+ℤ◌}
use cddl.Prelude.Reply.{Reply, answered, refused, panicked, out_of_fuel, ◌>>=◌, run, gather}
use cddl.Token.{Usize, F64, ControlOperator}
use cddl.Ast.{
  Type1, type1, no_operator, operator, Type2, typename, parenthesized_type, RangeCtlOp, TypeExpr,
  type_choices, Rule,
}
use cddl.Validator.Literals.{numeric_values_from_ident}
use cddl.Validator.Control.{
  Codecs, ControlError, not_a_numeric_value, invalid_controller, invalid_target, nested_operator,
  Literals, literal, each_named,
}

-- `as isize` and `as usize` keep the bits.
abbrev pub usize_as_isize : Usize → ℤ
usize_as_isize n = if ltb n (2 ^ 63) then pos n else negsuc (2 ^ 64 - 1 - n)

abbrev pub isize_as_usize : ℤ → Usize
isize_as_usize (pos n) = n % 2 ^ 64
isize_as_usize (negsuc n) = 2 ^ 64 - 1 - n % 2 ^ 64

abbrev pub is_isize : ℤ → Bool
is_isize (pos n) = ltb n (2 ^ 63)
is_isize (negsuc n) = ltb n (2 ^ 63)

-- `+` on `usize` and on `isize`.
unfoldable pub add_usize : Bool → Usize → Usize → Reply ControlError Usize
add_usize overflow_checks a b =
    if ltb (a + b) (2 ^ 64)
    then answered (a + b)
    else if overflow_checks
    then panicked
    else answered ((a + b) % 2 ^ 64)

unfoldable pub fit_isize : Bool → ℤ → Reply ControlError ℤ
fit_isize overflow_checks s =
    if is_isize s
    then answered s
    else if overflow_checks
    then panicked
    else answered (usize_as_isize (isize_as_usize s))

unfoldable pub add_isize : Bool → ℤ → ℤ → Reply ControlError ℤ
unfolding fit_isize
add_isize overflow_checks a b = fit_isize overflow_checks (a +ℤ b)

module _ (x : Codecs) (overflow_checks : Bool) where
  open x use {f64_add, f64_as_isize, isize_as_f64}

  -- The sum as a literal of the target's type.
  abbrev pub uint_sum : Usize → ℤ → Literals
  uint_sum value c =
      add_isize overflow_checks (usize_as_isize value) c
      >>= (λ v. literal (Type2.uint_value (isize_as_usize v)))

  abbrev pub int_sum : ℤ → ℤ → Literals
  int_sum value c = add_isize overflow_checks value c >>= (λ v. literal (Type2.int_value v))

  -- The controllers of each type of target. The others are passed to `other`; among them is an unsigned
  -- integer behind a float.
  unfoldable pub plus_uint : (Type2 → Literals) → Usize → Type2 → Literals
  unfolding add_usize add_isize
  plus_uint other value (Type2.uint_value c) =
      add_usize overflow_checks value c >>= (λ v. literal (Type2.uint_value v))
  plus_uint other value (Type2.int_value c) = uint_sum value c
  plus_uint other value (Type2.float_value c) = uint_sum value (f64_as_isize c)
  plus_uint other value c = other c

  unfoldable pub plus_int : (Type2 → Literals) → ℤ → Type2 → Literals
  unfolding add_isize
  plus_int other value (Type2.int_value c) = int_sum value c
  plus_int other value (Type2.uint_value c) = int_sum value (usize_as_isize c)
  plus_int other value (Type2.float_value c) = int_sum value (f64_as_isize c)
  plus_int other value c = other c

  unfoldable pub plus_float : (Type2 → Literals) → F64 → Type2 → Literals
  plus_float other value (Type2.int_value c) =
      literal (Type2.float_value (f64_add value (isize_as_f64 c)))
  plus_float other value (Type2.float_value c) = literal (Type2.float_value (f64_add value c))
  plus_float other value c = other c

  module _ (rules : List Rule) where
    -- A choice of a controller in parentheses: a value, or a sum whose results are added in turn. `rec`
    -- takes a target and a controller, `add` a controller.
    unfoldable pub plus_choice : (Type2 → Type2 → Literals) → (Type2 → Literals) → Type1 → Literals
    plus_choice rec add (type1 t (operator (RangeCtlOp.ctl_op ControlOperator.plus) u)) =
        rec t u >>= (λ vs. gather add vs)
    plus_choice rec add (type1 t no_operator) = add t
    plus_choice rec add t = refused nested_operator

    unfoldable pub plus_other : ℕ → (Type2 → Type2 → Literals) → Type2 → Type2 → Literals
    unfolding plus_choice
    plus_other f rec target (typename ident args) =
        each_named (not_a_numeric_value ident) (rec target)
          (numeric_values_from_ident rules f ident)
    plus_other f rec target (parenthesized_type pt) =
        gather (plus_choice rec (rec target)) (type_choices pt)
    plus_other f rec target c = refused invalid_controller

    unfoldable pub plus_target : ℕ → (Type2 → Type2 → Literals) → Type2 → Type2 → Literals
    unfolding plus_uint plus_int plus_float plus_other plus_choice
    plus_target f rec (Type2.uint_value value) c =
        plus_uint (plus_other f rec (Type2.uint_value value)) value c
    plus_target f rec (Type2.int_value value) c =
        plus_int (plus_other f rec (Type2.int_value value)) value c
    plus_target f rec (Type2.float_value value) c =
        plus_float (plus_other f rec (Type2.float_value value)) value c
    plus_target f rec (typename ident args) c =
        run (numeric_values_from_ident rules f ident)
        >>= (λ ts. elim (head? ts) [ some t ↦ rec t c | none ↦ refused invalid_controller ])
    plus_target f rec (parenthesized_type pt) c = elim (head? (type_choices pt)) [
      | some t ↦ plus_choice rec (λ t. rec t c) t
      | none ↦ refused invalid_target
    ]
    plus_target f rec t c = refused invalid_target

    unfoldable pub plus_operation : ℕ → Type2 → Type2 → Literals
    unfolding plus_target
    plus_operation zero target controller = out_of_fuel
    plus_operation (suc f) target controller = plus_target f (plus_operation f) target controller

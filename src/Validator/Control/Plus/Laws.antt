-- ===== src/Validator/Control/Plus/Laws.antt =====
-- src/validator/control.rs: `plus_operation` ends, with sums of the target's type and in its range.
use cddl.Prelude.{
  ℕ, zero, suc, ◌+◌, ◌≤◌, ◌<◌, ◌^◌, Bool, true, List, [], ◌∷◌, ◌≡◌, refl, arith, first, head?, some,
  none,
}
use cddl.Prelude.Int.{ℤ}
use cddl.Prelude.Reply.{answered, refused, panicked, out_of_fuel, gather, run, ◌>>=◌}
use cddl.Prelude.Fuel.{Run, done}
use cddl.Prelude.Reply.Laws.{Concludes, Concludes-bind, Each, gather-Concludes}
use cddl.Token.{Usize, F64, ControlOperator}
use cddl.Ast.{
  Identifier, MaybeGenericArgs, Type1, type1, no_operator, operator, Type2, typename,
  parenthesized_type, RangeCtlOp, no_type_choices, type_choice, type_choices, Rule,
}
use cddl.Validator.DataTypes.Refers.{IsRanked}
use cddl.Validator.Literals.{is_number, numeric_values_from_ident}
use cddl.Validator.Control.{Codecs, not_a_numeric_value, invalid_controller, Literals, ControlError}
use cddl.Validator.Control.Operands.{nesting, choice_nesting, choice-below}
use cddl.Validator.Control.Named.{numeric_values-Concludes, each_named-Concludes}
use cddl.Validator.Control.Cat.Kinds.{Each-one}
use cddl.Validator.Control.Plus
use cddl.Validator.Control.Plus.Sums.{
  SumOf, Gives, SumOf-number, number-SumOf, number-IsSum, named-SumOf, first_choice-SumOf,
}
use cddl.Validator.Control.Plus.Bounds.{isize_as_usize-lt, add_usize-Concludes, add_isize-Concludes}

number_nesting : (t : Type2) → is_number t ≡ true → nesting t ≡ 0
number_nesting (typename i args) h = absurd (cc)
number_nesting (parenthesized_type t) h = absurd (cc)
number_nesting t h = refl

Each-weaken :
    (Q : Type 0) (R S : Type2 → Type 0) (r : Literals)
    → ((l : Type2) → R l → S l)
    → Concludes Q (Each R) r
    → Concludes Q (Each S) r
Each-weaken Q R S (answered ls) k h = λ l m. k l (h l m)
Each-weaken Q R S (refused e) k h = tt
Each-weaken Q R S panicked k h = h
Each-weaken Q R S out_of_fuel k h = h

module _ (x : Codecs) (checks : Bool) (rules : List Rule) where
  open x use {f64_as_isize}

  abbrev Sums : Type2 → Literals → Type 0
  Sums t r = Concludes (checks ≡ true) (Each (SumOf rules t)) r

  uint_sum-Sums : (v : Usize) (c : ℤ) → Sums (Type2.uint_value v) (Plus.uint_sum x checks v c)
  uint_sum-Sums v c =
      Concludes-bind (checks ≡ true) (λ z. Plus.is_isize z ≡ true)
        (Each (SumOf rules (Type2.uint_value v))) (Plus.add_isize checks (Plus.usize_as_isize v) c)
        _ (add_isize-Concludes checks (Plus.usize_as_isize v) c)
        (λ z h. Each-one (SumOf rules (Type2.uint_value v)) (
          number-SumOf (Type2.uint_value v) _ refl
            (Plus.isize_as_usize z, refl, isize_as_usize-lt z)))

  int_sum-Sums : (v c : ℤ) → Sums (Type2.int_value v) (Plus.int_sum x checks v c)
  int_sum-Sums v c =
      Concludes-bind (checks ≡ true) (λ z. Plus.is_isize z ≡ true)
        (Each (SumOf rules (Type2.int_value v))) (Plus.add_isize checks v c) _
        (add_isize-Concludes checks v c)
        (λ z h.
          Each-one (SumOf rules (Type2.int_value v))
            (number-SumOf (Type2.int_value v) _ refl (z, refl, h)))

  module _ (other : Type2 → Literals) where
    plus_uint-Sums :
        (v : Usize) (c : Type2)
        → Sums (Type2.uint_value v) (other c)
        → Sums (Type2.uint_value v) (Plus.plus_uint x checks other v c)
    unfolding Plus.plus_uint
    plus_uint-Sums v (Type2.uint_value c) h =
        Concludes-bind (checks ≡ true) (λ n. n < 2 ^ 64) (Each (SumOf rules (Type2.uint_value v)))
          (Plus.add_usize checks v c) _ (add_usize-Concludes checks v c)
          (λ n h.
            Each-one (SumOf rules (Type2.uint_value v))
              (number-SumOf (Type2.uint_value v) _ refl (n, refl, h)))
    plus_uint-Sums v (Type2.int_value c) h = uint_sum-Sums v c
    plus_uint-Sums v (Type2.float_value c) h = uint_sum-Sums v (f64_as_isize c)
    plus_uint-Sums v c h = h

    plus_int-Sums :
        (v : ℤ) (c : Type2)
        → Sums (Type2.int_value v) (other c)
        → Sums (Type2.int_value v) (Plus.plus_int x checks other v c)
    unfolding Plus.plus_int
    plus_int-Sums v (Type2.int_value c) h = int_sum-Sums v c
    plus_int-Sums v (Type2.uint_value c) h = int_sum-Sums v (Plus.usize_as_isize c)
    plus_int-Sums v (Type2.float_value c) h = int_sum-Sums v (f64_as_isize c)
    plus_int-Sums v c h = h

    plus_float-Sums :
        (v : F64) (c : Type2)
        → Sums (Type2.float_value v) (other c)
        → Sums (Type2.float_value v) (Plus.plus_float x checks other v c)
    unfolding Plus.plus_float
    plus_float-Sums v (Type2.int_value c) h =
        Each-one (SumOf rules (Type2.float_value v))
          (number-SumOf (Type2.float_value v) _ refl (_, refl))
    plus_float-Sums v (Type2.float_value c) h =
        Each-one (SumOf rules (Type2.float_value v))
          (number-SumOf (Type2.float_value v) _ refl (_, refl))
    plus_float-Sums v c h = h

  module _ (rank : Identifier → ℕ) (g : ℕ) (ranked : IsRanked rules rank)
      (low : (i : Identifier) → rank i < g) where
    -- A choice of a type in parentheses, where the calls on smaller operands conclude.
    plus_choice-Sums :
        (rec : Type2 → Type2 → Literals) (add : Type2 → Literals) (R : Type2 → Type 0) (t : Type1)
        → ((t' u : Type2) → nesting t' + nesting u < choice_nesting t → Sums t' (rec t' u))
        → ((v : Type2)
            → Gives rules t v
            → nesting v ≤ choice_nesting t
            → Concludes (checks ≡ true) (Each R) (add v))
        → Concludes (checks ≡ true) (Each R) (Plus.plus_choice x checks rules rec add t)
    unfolding Plus.plus_choice
    plus_choice-Sums rec add R (type1 t (operator (RangeCtlOp.ctl_op ControlOperator.plus) u)) h k =
        Concludes-bind (checks ≡ true) (Each (SumOf rules t)) (Each R) (rec t u)
          (λ vs. gather add vs) (h t u (omega arith))
          (λ vs a.
            gather-Concludes (checks ≡ true) R add vs
              (λ v m. k v (a v m) (omega (arith, number_nesting v (SumOf-number t v (a v m))))))
    plus_choice-Sums rec add R (type1 t no_operator) h k = k t refl (omega arith)
    plus_choice-Sums rec add R t h k = tt

    plus_other-Sums :
        (f : ℕ) (rec : Type2 → Type2 → Literals) (t c : Type2)
        → g ≤ f
        → ((t' u : Type2) → nesting t' + nesting u < nesting t + nesting c → Sums t' (rec t' u))
        → Sums t (Plus.plus_other x checks rules f rec t c)
    unfolding Plus.plus_other
    plus_other-Sums f rec t (typename i args) fuel k =
        each_named-Concludes (checks ≡ true) (λ u. is_number u ≡ true) (SumOf rules t) (rec t)
          (λ u h. k t u (omega (arith, number_nesting u h))) (not_a_numeric_value i)
          (numeric_values_from_ident rules f i)
          (numeric_values-Concludes (checks ≡ true) rules rank ranked f i (omega (arith, low i)))
    plus_other-Sums f rec t (parenthesized_type pt) fuel k =
        gather-Concludes (checks ≡ true) (SumOf rules t)
          (Plus.plus_choice x checks rules rec (rec t)) (type_choices pt)
          (λ u m.
            plus_choice-Sums rec (rec t) (SumOf rules t) u
              (λ t' u' l. k t' u' (omega (arith, choice-below u pt m)))
              (λ v d l. k t v (omega (arith, choice-below u pt m))))
    plus_other-Sums f rec t c fuel k = tt

    abbrev others : ℕ → Type2 → Type2 → Literals
    others f t = Plus.plus_other x checks rules f (Plus.plus_operation x checks rules f) t

    -- A target that is a name, where the call on the first number behind it concludes.
    named-Sums :
        (f : ℕ) (i : Identifier) (args : MaybeGenericArgs) (c : Type2)
        → ((v : Type2) → is_number v ≡ true → Sums v (Plus.plus_operation x checks rules f v c))
        → (r : Run (List Type2)) → numeric_values_from_ident rules f i ≡ r
        → Concludes {E = ControlError} (checks ≡ true) (Each (λ v. is_number v ≡ true)) (run r)
        → Sums (typename i args) (
            run r >>= (λ ts. elim (head? ts) [
              | some t ↦ Plus.plus_operation x checks rules f t c
              | none ↦ refused invalid_controller
            ]))
    named-Sums f i args c k (done []) e a = tt
    named-Sums f i args c k (done (v ∷ vs)) e a =
        Each-weaken (checks ≡ true) (SumOf rules v) (SumOf rules (typename i args))
          (Plus.plus_operation x checks rules f v c)
          (λ l s. named-SumOf f vs i args v l e (number-IsSum v l (a v first) s)) (k v (a v first))
    named-Sums f i args c k Run.out_of_fuel e a = absurd a

    -- In a grammar whose references go down in rank, with fuel above the ranks of all names and the
    -- nesting of both operands, `plus_operation` returns; it panics only with overflow checks. What it
    -- answers are numbers of the type of the literal that the target stands for, and within the bounds of
    -- that type: a number stands for itself, a name for the first number that its rules give, and a type
    -- in parentheses for what its first choice stands for, or the target of the sum that this choice is.
    pub plus_operation-SumOf :
        (f : ℕ) (t c : Type2)
        → g + nesting t + nesting c < f
        → Concludes
            (checks ≡ true)
            (Each (SumOf rules t))
            (Plus.plus_operation x checks rules f t c)
    unfolding Plus.plus_operation Plus.plus_target
    plus_operation-SumOf zero t c fuel = absurd (omega arith)
    plus_operation-SumOf (suc f) (Type2.uint_value v) c fuel =
        plus_uint-Sums (others f (Type2.uint_value v)) v c (
          plus_other-Sums f (Plus.plus_operation x checks rules f) (Type2.uint_value v) c
            (omega arith) (λ t u l. plus_operation-SumOf f t u (omega arith)))
    plus_operation-SumOf (suc f) (Type2.int_value v) c fuel =
        plus_int-Sums (others f (Type2.int_value v)) v c (
          plus_other-Sums f (Plus.plus_operation x checks rules f) (Type2.int_value v) c
            (omega arith) (λ t u l. plus_operation-SumOf f t u (omega arith)))
    plus_operation-SumOf (suc f) (Type2.float_value v) c fuel =
        plus_float-Sums (others f (Type2.float_value v)) v c (
          plus_other-Sums f (Plus.plus_operation x checks rules f) (Type2.float_value v) c
            (omega arith) (λ t u l. plus_operation-SumOf f t u (omega arith)))
    plus_operation-SumOf (suc f) (typename i args) c fuel =
        named-Sums f i args c
          (λ v e. plus_operation-SumOf f v c (omega (arith, number_nesting v e)))
          (numeric_values_from_ident rules f i) refl
          (numeric_values-Concludes (checks ≡ true) rules rank ranked f i (omega (arith, low i)))
    plus_operation-SumOf (suc f) (parenthesized_type no_type_choices) c fuel = tt
    plus_operation-SumOf (suc f) (parenthesized_type (type_choice t ts)) c fuel =
        plus_choice-Sums (Plus.plus_operation x checks rules f)
          (λ t. Plus.plus_operation x checks rules f t c)
          (SumOf rules (parenthesized_type (type_choice t ts))) t
          (λ t' u l. plus_operation-SumOf f t' u (omega arith))
          (λ v d l.
            Each-weaken (checks ≡ true) (SumOf rules v)
              (SumOf rules (parenthesized_type (type_choice t ts)))
              (Plus.plus_operation x checks rules f v c) (λ s. first_choice-SumOf t ts v s d)
              (plus_operation-SumOf f v c (omega arith)))
    plus_operation-SumOf (suc f) t c fuel = tt

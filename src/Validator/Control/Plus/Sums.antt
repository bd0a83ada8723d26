-- ===== src/Validator/Control/Plus/Sums.antt =====
-- src/validator/control.rs: the literal that a target of `plus_operation` stands for, and the sums that are
-- of the type of this literal.
use cddl.Prelude.{ℕ, ◌<◌, ◌^◌, true, List, ◌∷◌, ◌≡◌, refl, subst}
use cddl.Prelude.Int.{ℤ}
use cddl.Prelude.Fuel.{done}
use cddl.Token.{F64, ControlOperator}
use cddl.Ast.{
  Identifier, MaybeGenericArgs, Type1, type1, no_operator, operator, Type2, typename,
  parenthesized_type, RangeCtlOp, TypeExpr, type_choice, Rule,
}
use cddl.Validator.Literals.{is_number, numeric_values_from_ident}
use cddl.Validator.Control.Plus

-- A number stands for itself, a name for the first number behind it, and a type in parentheses for what
-- its first choice stands for, where this is a type or a sum. A sum stands for what its target does.
pub data StandsFor (rules : List Rule) : Type2 → Type2 → Type 0 where
  itself : {t : Type2} → is_number t ≡ true → StandsFor rules t t
  first_named :
      {i : Identifier} {args : MaybeGenericArgs} {v : Type2} (f : ℕ) (vs : List Type2)
      → numeric_values_from_ident rules f i ≡ done (v ∷ vs)
      → StandsFor rules (typename i args) v
  first_choice :
      {t v : Type2} {ts : TypeExpr}
      → StandsFor rules t v
      → StandsFor rules (parenthesized_type (type_choice (type1 t no_operator) ts)) v
  first_sum :
      {t u v : Type2} {ts : TypeExpr}
      → StandsFor rules t v
      → StandsFor rules
          (parenthesized_type
            (type_choice (type1 t (operator (RangeCtlOp.ctl_op ControlOperator.plus) u)) ts))
          v

-- A number of the type of the literal, within the bounds of that type.
abbrev pub IsSum : Type2 → Type2 → Type 0
IsSum (Type2.uint_value v) l = (n : ℕ) × (l ≡ Type2.uint_value n) × (n < 2 ^ 64)
IsSum (Type2.int_value v) l = (z : ℤ) × (l ≡ Type2.int_value z) × (Plus.is_isize z ≡ true)
IsSum (Type2.float_value v) l = (w : F64) × (l ≡ Type2.float_value w)
IsSum t l = ⊥

-- A sum of the type of the literal that the target stands for.
abbrev pub SumOf : List Rule → Type2 → Type2 → Type 0
SumOf rules t l = (v : Type2) × StandsFor rules t v × IsSum v l

IsSum-number : (v l : Type2) → IsSum v l → is_number l ≡ true
IsSum-number (Type2.uint_value v) l (n, e, h) = rw e refl
IsSum-number (Type2.int_value v) l (n, e, h) = rw e refl
IsSum-number (Type2.float_value v) l (n, e) = rw e refl
IsSum-number t l h = absurd h

-- A sum of a sum is of the same type.
IsSum-trans : (w v l : Type2) → IsSum w v → IsSum v l → IsSum w l
IsSum-trans (Type2.uint_value a) v l (n, e, h) s = subst (λ v. IsSum v l) e s
IsSum-trans (Type2.int_value a) v l (n, e, h) s = subst (λ v. IsSum v l) e s
IsSum-trans (Type2.float_value a) v l (n, e) s = subst (λ v. IsSum v l) e s
IsSum-trans t v l h s = absurd h

-- The literals that a choice gives before the other operand is added: the type, or the sums.
abbrev pub Gives : List Rule → Type1 → Type2 → Type 0
Gives rules (type1 t (operator (RangeCtlOp.ctl_op ControlOperator.plus) u)) v = SumOf rules t v
Gives rules (type1 t no_operator) v = v ≡ t
Gives rules (type1 t op) v = ⊥

module _ {rules : List Rule} where
  pub SumOf-number : (t l : Type2) → SumOf rules t l → is_number l ≡ true
  SumOf-number t l (v, s, h) = IsSum-number v l h

  pub number-SumOf : (t l : Type2) → is_number t ≡ true → IsSum t l → SumOf rules t l
  number-SumOf t l e h = (t, itself e, h)

  -- A number stands for nothing but itself.
  number-StandsFor : {t v : Type2} → StandsFor rules t v → is_number t ≡ true → v ≡ t
  number-StandsFor (itself e) h = refl
  number-StandsFor (first_named f vs e) h = cc
  number-StandsFor (first_choice s) h = cc
  number-StandsFor (first_sum s) h = cc

  pub number-IsSum : (t l : Type2) → is_number t ≡ true → SumOf rules t l → IsSum t l
  number-IsSum t l e (v, s, h) = subst (λ v. IsSum v l) (number-StandsFor s e) h

  pub named-SumOf :
      (f : ℕ) (vs : List Type2) (i : Identifier) (args : MaybeGenericArgs) (v l : Type2)
      → numeric_values_from_ident rules f i ≡ done (v ∷ vs)
      → IsSum v l
      → SumOf rules (typename i args) l
  named-SumOf f vs i args v l e h = (v, first_named f vs e, h)

  pub first_choice-SumOf :
      (t : Type1) (ts : TypeExpr) (v l : Type2)
      → Gives rules t v
      → SumOf rules v l
      → SumOf rules (parenthesized_type (type_choice t ts)) l
  first_choice-SumOf (type1 t (operator (RangeCtlOp.ctl_op ControlOperator.plus) u)) ts v l
        (w, s, h) k =
      (w, first_sum s, IsSum-trans w v l h (number-IsSum v l (IsSum-number w v h) k))
  first_choice-SumOf (type1 t no_operator) ts v l e (w, s, h) =
      (w, first_choice (subst (λ v. StandsFor rules v w) e s), h)
  first_choice-SumOf (type1 t op) ts v l e k = absurd e

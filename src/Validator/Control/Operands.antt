-- ===== src/Validator/Control/Operands.antt =====
-- src/validator/control.rs: the nesting of operands, which bounds the depth to which `.cat` and `.plus`
-- call themselves.
use cddl.Prelude.{ℕ, suc, ◌+◌, ◌≤◌, arith, In, first, later}
use cddl.Ast.{
  Type1, type1, MaybeOperator, no_operator, operator, Type2, typename, parenthesized_type, TypeExpr,
  no_type_choices, type_choice, type_choices,
}

-- A literal has none; a name counts for the literals behind it.
abbrev mutual
  pub nesting : Type2 → ℕ
  nesting (typename i args) = 1
  nesting (parenthesized_type t) = suc (choices_nesting t)
  nesting _ = 0

  pub choices_nesting : TypeExpr → ℕ
  choices_nesting no_type_choices = 0
  choices_nesting (type_choice t ts) = choice_nesting t + choices_nesting ts

  pub choice_nesting : Type1 → ℕ
  choice_nesting (type1 t op) = nesting t + operator_nesting op

  pub operator_nesting : MaybeOperator → ℕ
  operator_nesting no_operator = 0
  operator_nesting (operator op u) = suc (nesting u)

pub choice-below :
    (t : Type1) (ts : TypeExpr) → In t (type_choices ts) → choice_nesting t ≤ choices_nesting ts
choice-below t no_type_choices m = elim m [ ]
choice-below t (type_choice u us) first = omega arith
choice-below t (type_choice u us) (later m) = omega (arith, choice-below t us m)

-- ===== src/Validator/DataTypes/Refers.antt =====
-- The references between the type rules of a grammar, as a relation: what `is_ident_*_data_type` walks.
use cddl.Prelude.{ℕ, ◌<◌, Bool, true, List, ◌≡◌, In}
use cddl.Token.{Token}
use cddl.Token.Lookup.{lookup_ident}
use cddl.Ast.{
  Identifier, identifier_eq, type1, typename, MaybeGenericArgs, MaybeOperator, type_choices,
  TypeRule, Rule,
}

-- A type rule of the name `i` has the type name `j` among its choices.
pub record Refers (rules : List Rule) (i j : Identifier) : Type 0 where
  pub rule : TypeRule
  pub args : MaybeGenericArgs
  pub op : MaybeOperator
  pub listed : In (Rule.type rule) rules
  pub named : identifier_eq rule.name i ≡ true
  pub choice : In (type1 (typename j args) op) (type_choices rule.value)

-- A chain of references leads from `i` to a name whose token passes the test.
pub data Reaches (test : Token → Bool) (rules : List Rule) : Identifier → Type 0 where
  here : {i : Identifier} → test (lookup_ident i.ident) ≡ true → Reaches test rules i
  via : {i j : Identifier} → Refers rules i j → Reaches test rules j → Reaches test rules i

-- Every reference goes down in rank, so no chain of references returns to its start.
abbrev pub IsRanked : List Rule → (Identifier → ℕ) → Type 0
IsRanked rules rank = (i j : Identifier) → Refers rules i j → rank j < rank i

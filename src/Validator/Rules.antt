-- ===== src/Validator/Rules.antt =====
-- src/validator/mod.rs: the look-up of rules by their name.
pub mod Laws
use cddl.Prelude.{
  Bool, true, false, not, ◌&&◌, Option, none, some, List, [], ◌∷◌, Text, find, filter_map, map,
  if◌then◌else◌,
}
use cddl.Ast.{Identifier, identifier_eq, TypeExpr, GroupEntry, TypeRule, GroupRule, Rule}

unfoldable pub is_base_rule : Identifier → Rule → Bool
is_base_rule i (Rule.type r) = identifier_eq r.name i && not r.is_type_choice_alternate
is_base_rule i (Rule.group r) = identifier_eq r.name i && not r.is_group_choice_alternate

unfoldable pub rule_from_ident : List Rule → Identifier → Option Rule
unfolding is_base_rule
rule_from_ident rules i = find (is_base_rule i) rules

unfoldable pub group_rule_from_ident : List Rule → Identifier → Option GroupRule
group_rule_from_ident [] i = none
group_rule_from_ident (Rule.type r ∷ rules) i = group_rule_from_ident rules i
group_rule_from_ident (Rule.group r ∷ rules) i =
    if identifier_eq r.name i && not r.is_group_choice_alternate
    then some r
    else group_rule_from_ident rules i

unfoldable pub type_rule_from_ident : List Rule → Identifier → Option TypeRule
type_rule_from_ident [] i = none
type_rule_from_ident (Rule.group r ∷ rules) i = type_rule_from_ident rules i
type_rule_from_ident (Rule.type r ∷ rules) i =
    if identifier_eq r.name i && not r.is_type_choice_alternate
    then some r
    else type_rule_from_ident rules i

abbrev param_names : Option (List Identifier) → Option (List Text)
param_names none = none
param_names (some ps) = some (map (λ p. p.ident) ps)

unfoldable pub generic_params_from_rule : Rule → Option (List Text)
generic_params_from_rule (Rule.type r) = param_names r.generic_params
generic_params_from_rule (Rule.group r) = param_names r.generic_params

unfoldable pub type_alternate : Identifier → Rule → Option TypeExpr
type_alternate i (Rule.type r) =
    if identifier_eq r.name i && r.is_type_choice_alternate then some r.value else none
type_alternate i (Rule.group r) = none

unfoldable pub type_choice_alternates_from_ident : List Rule → Identifier → List TypeExpr
unfolding type_alternate
type_choice_alternates_from_ident rules i = filter_map (type_alternate i) rules

unfoldable pub group_alternate : Identifier → Rule → Option GroupEntry
group_alternate i (Rule.type r) = none
group_alternate i (Rule.group r) =
    if identifier_eq r.name i && r.is_group_choice_alternate then some r.entry else none

unfoldable pub group_choice_alternates_from_ident : List Rule → Identifier → List GroupEntry
unfolding group_alternate
group_choice_alternates_from_ident rules i = filter_map (group_alternate i) rules

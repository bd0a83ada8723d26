-- ===== src/Validator/Values.antt =====
-- src/validator/mod.rs: the text value behind an identifier, the rule that `~` unwraps, and the type
-- choices of a group choice. Each calls itself along the rules, on fuel.
pub mod TextValues
pub mod Unwrap
pub mod TypeChoices
use cddl.Prelude.{
  ℕ, zero, suc, Bool, true, false, not, ◌&&◌, ◌||◌, Option, none, some, List, [], ◌∷◌, ◌++◌, ◌==◌,
  if◌then◌else◌, length, any,
}
use cddl.Prelude.Fuel.{Run, done, out_of_fuel, find_map, append_each}
use cddl.Ast.{
  Identifier, identifier_eq, Type1, type1, MaybeOperator, no_operator, operator, Type2, typename,
  no_generic_args, TypeExpr, type_choices, Group, group_choices, GroupChoice, group_entries,
  GroupEntry, no_member_key, Rule, TypeRule,
}
use cddl.Ast.Convert.{group_choice_new}
use cddl.Validator.Rules.{rule_from_ident}

-- A choice with no operator, given to a function on its type.
abbrev plain_choice : (Type2 → Run (Option Type2)) → Type1 → Run (Option Type2)
plain_choice f (type1 t no_operator) = f t
plain_choice f (type1 t (operator op u)) = done none

-- The arms of `text_value_from_ident` on the type of a choice.
ident_choice :
    (Identifier → Run (Option Type2)) → (Type2 → Run (Option Type2)) → Type2 → Run (Option Type2)
ident_choice of_ident of_type2 (Type2.text_value s) = done (some (Type2.text_value s))
ident_choice of_ident of_type2 (Type2.utf8_byte_string b) = done (some (Type2.utf8_byte_string b))
ident_choice of_ident of_type2 (typename j args) = of_ident j
ident_choice of_ident of_type2 (Type2.parenthesized_type pt) =
    find_map (plain_choice of_type2) (type_choices pt)
ident_choice of_ident of_type2 _ = done none

-- `gc.group_entries.len() == 2`, and the first entry is a value with no member key.
abbrev first_of_pair : GroupChoice → Option TypeExpr
first_of_pair c =
    if length (group_entries c) == 2
    then elim (group_entries c) [
      | GroupEntry.value_member_key o no_member_key t ∷ es ↦ some t
      | _ ↦ none
    ]
    else none

array_choice : (Type2 → Run (Option Type2)) → GroupChoice → Run (Option Type2)
array_choice of_type2 c = elim (first_of_pair c) [
  | some t ↦ find_map (plain_choice of_type2) (type_choices t)
  | none ↦ done none
]

rule_text_value :
    (Identifier → Run (Option Type2))
    → (Type2 → Run (Option Type2))
    → Identifier
    → Rule
    → Run (Option Type2)
unfolding ident_choice
rule_text_value of_ident of_type2 i (Rule.type r) =
    if identifier_eq r.name i
    then find_map (plain_choice (ident_choice of_ident of_type2)) (type_choices r.value)
    else done none
rule_text_value of_ident of_type2 i (Rule.group r) = done none

type2_text_value :
    (Identifier → Run (Option Type2)) → (Type2 → Run (Option Type2)) → Type2 → Run (Option Type2)
unfolding array_choice
type2_text_value of_ident of_type2 (Type2.text_value s) = done (some (Type2.text_value s))
type2_text_value of_ident of_type2 (Type2.utf8_byte_string b) =
    done (some (Type2.utf8_byte_string b))
type2_text_value of_ident of_type2 (typename j args) = of_ident j
type2_text_value of_ident of_type2 (Type2.array g) =
    find_map (array_choice of_type2) (group_choices g)
type2_text_value of_ident of_type2 (Type2.parenthesized_type pt) =
    find_map (plain_choice of_type2) (type_choices pt)
type2_text_value of_ident of_type2 _ = done none

unfoldable mutual
  unfolding rule_text_value type2_text_value

  pub text_value_from_ident : List Rule → ℕ → Identifier → Run (Option Type2)
  text_value_from_ident rules zero i = out_of_fuel
  text_value_from_ident rules (suc f) i =
      find_map (rule_text_value (text_value_from_ident rules f) (text_value_from_type2 rules f) i)
        rules

  pub text_value_from_type2 : List Rule → ℕ → Type2 → Run (Option Type2)
  text_value_from_type2 rules zero t = out_of_fuel
  text_value_from_type2 rules (suc f) t =
      type2_text_value (text_value_from_ident rules f) (text_value_from_type2 rules f) t

-- `match_fn`.
abbrev pub is_unwrappable : Type1 → Bool
is_unwrappable (type1 (Type2.map_type g) op) = true
is_unwrappable (type1 (Type2.array g) op) = true
is_unwrappable (type1 (Type2.tagged_data tag t) op) = true
is_unwrappable _ = false

-- The first choice that is a type name with no generic arguments.
abbrev first_typename : List Type1 → Option Identifier
first_typename [] = none
first_typename (type1 (typename j no_generic_args) op ∷ ts) = some j
first_typename (t ∷ ts) = first_typename ts

rule_unwrapped : (Identifier → Run (Option Rule)) → Identifier → Rule → Run (Option Rule)
rule_unwrapped rec i (Rule.type r) =
    if identifier_eq r.name i && not r.is_type_choice_alternate
    then if any is_unwrappable (type_choices r.value)
      then done (some (Rule.type r))
      else elim (first_typename (type_choices r.value)) [ some j ↦ rec j | none ↦ done none ]
    else done none
rule_unwrapped rec i (Rule.group r) = done none

unfoldable pub unwrap_rule_from_ident : List Rule → ℕ → Identifier → Run (Option Rule)
unfolding rule_unwrapped
unwrap_rule_from_ident rules zero i = out_of_fuel
unwrap_rule_from_ident rules (suc f) i =
    find_map (rule_unwrapped (unwrap_rule_from_ident rules f) i) rules

entry_type_choices : List Rule → (GroupChoice → Run (List Type1)) → GroupEntry → Run (List Type1)
entry_type_choices rules rec (GroupEntry.value_member_key o k t) = done (type_choices t)
entry_type_choices rules rec (GroupEntry.type_groupname o name args) =
    elim (rule_from_ident rules name) [
      | some (Rule.type r) ↦ done (type_choices r.value)
      | some (Rule.group r) ↦ rec (group_choice_new (r.entry ∷ []))
      | none ↦ done []
    ]
entry_type_choices rules rec (GroupEntry.inline_group o g) = append_each rec (group_choices g)

unfoldable pub type_choices_from_group_choice : List Rule → ℕ → GroupChoice → Run (List Type1)
unfolding entry_type_choices
type_choices_from_group_choice rules zero c = out_of_fuel
type_choices_from_group_choice rules (suc f) c =
    append_each (entry_type_choices rules (type_choices_from_group_choice rules f))
      (group_entries c)

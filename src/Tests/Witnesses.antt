-- ===== src/Tests/Witnesses.antt =====
-- The theorems on tokens, rules and the validator at concrete inputs.
use cddl.Prelude.{
  ℕ, ◌+◌, ◌<◌, true, false, not, Option, none, some, List, [], ◌∷◌, ◌++◌, map, codes, ◌≡◌, refl,
  ◌↔◌, ◌⊎◌, ◌≢◌, arith, In, length,
}
use cddl.Prelude.Int.{ℤ}
use cddl.Token.{Value, RangeValue}
use cddl.Token.Lookup.{range_value_try_from, as_value}
use cddl.Ast.Convert.{type2_from_value, type2_from_range_value}
use cddl.Ast.Convert.Values.{range_value_try_from-as_value}
use cddl.Prelude.Fuel.{done}
use cddl.Token.{Token, SocketPlug, ControlOperator}
use cddl.Token.Lookup.{lookup_ident, in_standard_prelude, lookup_control_from_str}
use cddl.Token.Lookup.Laws.{
  IsIdentOf, lookup_ident-display, in_standard_prelude-lookup_ident,
  lookup_control_from_str-display,
}
use cddl.Token.Display.{display_control_operator}
use cddl.Ast.{
  identifier_eq, display_identifier, Occur, Type1, Type2, typename, text_value, no_generic_args,
  Group, GroupChoice, GroupEntry, no_group_choices, group_choice, no_group_entries, group_entry,
  group_choices, group_entries, inline_group, Rule,
}
use cddl.Ast.Convert.{type_from_token, tag_from_token, identifier_from_str}
use cddl.Ast.Convert.Laws.{
  tag_from_token-injective, identifier_from_str-eq-lookup_ident, starts_with_dollar,
}
use cddl.Validator.Rules.{
  rule_from_ident, type_rule_from_ident, group_rule_from_ident, is_base_rule,
  type_choice_alternates_from_ident, group_choice_alternates_from_ident,
}
use cddl.Validator.Rules.Laws.{
  IsBase, IsFirst, rule_from_ident-IsFirst, Agree, rule_from_ident-Agree, is_named, count_passing,
  alternates_partition,
}
use cddl.Validator.DataTypes.{
  ident_has_type, is_uint_token, is_ident_uint_data_type, is_ident_nint_data_type,
  is_ident_integer_data_type, is_ident_numeric_data_type, is_ident_float_data_type,
}
use cddl.Validator.DataTypes.Refers.{Reaches}
use cddl.Validator.DataTypes.Search.{ident_has_type_decides}
use cddl.Validator.DataTypes.Order.{Implies, numeric_data_types_nested}
use cddl.Validator.Values.{
  text_value_from_ident, text_value_from_type2, unwrap_rule_from_ident,
  type_choices_from_group_choice,
}
use cddl.Validator.Values.TextValues.{IsTextValue, text_values-IsTextValue}
use cddl.Validator.Values.Unwrap.{IsUnwrapped, unwrap_rule_from_ident-IsUnwrapped}
use cddl.Validator.Values.TypeChoices.{Offers, type_choices_from_group_choice-Offers}
use cddl.Validator.Literals.{
  is_string_literal, is_number, string_literals_from_ident, numeric_values_from_ident,
}
use cddl.Validator.Literals.Laws.{HasLiteral, Collects, literals_from_ident-Collects}
use cddl.Validator.Counts.{
  EntryCount, entry_counts_from_group, validate_entry_count, validate_array_occurrence,
}
use cddl.Validator.Counts.Length.{
  Matches, validate_entry_count-Matches, Fits, Accepts, CountsFit, IsOutcome,
  validate_array_occurrence-Fits,
}
use cddl.Validator.Counts.Entries.{
  count_of, entry_counts_from_group-AllValues, entry_counts_from_group-inline_group,
}
use cddl.Tests.Grammar.{name, grammar, rank, grammar-IsRanked, rule_a}
use cddl.Tests.Nesting.{number, groups, nested, depth, groups-IsNested}

lookup_ident-display_example :
    (in_standard_prelude (lookup_ident (codes "$$foo")) ≡ some (codes "$$foo"))
    ⊎ IsIdentOf (codes "$$foo") (lookup_ident (codes "$$foo"))
lookup_ident-display_example = lookup_ident-display (codes "$$foo")

in_standard_prelude-lookup_ident_example :
    (in_standard_prelude Token.tstr ≡ some (codes "tstr"))
    ↔ ((lookup_ident (codes "tstr") ≡ Token.tstr) × (in_standard_prelude Token.tstr ≢ none))
in_standard_prelude-lookup_ident_example =
    in_standard_prelude-lookup_ident Token.tstr (codes "tstr")

lookup_control_from_str-display_example :
    (lookup_control_from_str (codes ".size") ≡ some ControlOperator.size)
    ↔ (codes ".size" ≡ display_control_operator ControlOperator.size)
lookup_control_from_str-display_example =
    lookup_control_from_str-display (codes ".size") ControlOperator.size

rule_from_ident-IsFirst_example :
    (rule_from_ident grammar (name "a") ≡ some (Rule.type rule_a))
    ↔ IsFirst (IsBase (name "a")) grammar (Rule.type rule_a)
rule_from_ident-IsFirst_example = rule_from_ident-IsFirst grammar (name "a") (Rule.type rule_a)

rule_from_ident-Agree_example :
    Agree
      (rule_from_ident grammar (name "b"))
      (type_rule_from_ident grammar (name "b"))
      (group_rule_from_ident grammar (name "b"))
rule_from_ident-Agree_example = rule_from_ident-Agree grammar (name "b")

alternates_partition_example :
    count_passing (is_named (name "a")) grammar
    ≡ count_passing (is_base_rule (name "a")) grammar
      + length (type_choice_alternates_from_ident grammar (name "a"))
      + length (group_choice_alternates_from_ident grammar (name "a"))
alternates_partition_example = alternates_partition grammar (name "a")

rank_a : rank (name "a") < 3
unfolding identifier_eq display_identifier
rank_a = omega arith

ident_has_type_decides_example :
    ((ident_has_type is_uint_token grammar 3 (name "a") ≡ done true)
      ↔ Reaches is_uint_token grammar (name "a"))
    × ((ident_has_type is_uint_token grammar 3 (name "a") ≡ done false)
        ↔ ¬ (Reaches is_uint_token grammar (name "a")))
ident_has_type_decides_example =
    ident_has_type_decides is_uint_token grammar rank 3 (name "a") grammar-IsRanked rank_a

numeric_data_types_nested_example :
    Implies
      (is_ident_uint_data_type grammar 3 (name "a"))
      (is_ident_integer_data_type grammar 3 (name "a"))
    × Implies
        (is_ident_nint_data_type grammar 3 (name "a"))
        (is_ident_integer_data_type grammar 3 (name "a"))
    × Implies
        (is_ident_integer_data_type grammar 3 (name "a"))
        (is_ident_numeric_data_type grammar 3 (name "a"))
    × Implies
        (is_ident_float_data_type grammar 3 (name "a"))
        (is_ident_numeric_data_type grammar 3 (name "a"))
numeric_data_types_nested_example = numeric_data_types_nested grammar 3 (name "a")

literals_from_ident-Collects_example :
    Collects
      (string_literals_from_ident grammar 3 (name "a"))
      (λ t. HasLiteral is_string_literal grammar t (name "a"))
    × Collects
        (numeric_values_from_ident grammar 3 (name "a"))
        (λ t. HasLiteral is_number grammar t (name "a"))
literals_from_ident-Collects_example =
    literals_from_ident-Collects grammar rank 3 (name "a") grammar-IsRanked rank_a

unwrap_rule_from_ident-IsUnwrapped_example :
    (found : Option Rule) × (unwrap_rule_from_ident grammar 3 (name "a") ≡ done found)
    × ((u : Rule) → found ≡ some u → IsUnwrapped grammar u)
unwrap_rule_from_ident-IsUnwrapped_example =
    unwrap_rule_from_ident-IsUnwrapped grammar rank 3 (name "a") grammar-IsRanked rank_a

type_choices_from_group_choice-Offers_example :
    (ts : List Type1) × (type_choices_from_group_choice groups 4 nested ≡ done ts)
    × ((t : Type1) → In t ts ↔ Offers groups nested t)
type_choices_from_group_choice-Offers_example =
    type_choices_from_group_choice-Offers groups depth 4 nested groups-IsNested (omega arith)

text_values-IsTextValue_example :
    ((text_value_from_ident grammar 3 (name "a") ≡ done (some (text_value (codes "x"))))
      → IsTextValue (text_value (codes "x")))
    × ((text_value_from_type2 grammar 3 (typename (name "a") no_generic_args)
          ≡ done (some (text_value (codes "x"))))
        → IsTextValue (text_value (codes "x")))
text_values-IsTextValue_example =
    text_values-IsTextValue grammar 3 (name "a") (typename (name "a") no_generic_args)
      (text_value (codes "x"))

abbrev two_counts : List EntryCount
two_counts =
    record { count = 2; entry_occurrence = none }
    ∷ record { count = 1; entry_occurrence = some Occur.zero_or_more }
    ∷ []

validate_entry_count-Matches_example :
    (validate_entry_count two_counts 5 ≡ true)
    ↔ ((ec : EntryCount) × In ec two_counts × Matches ec 5)
validate_entry_count-Matches_example = validate_entry_count-Matches two_counts 5

validate_array_occurrence-Fits_example :
    (Accepts none (validate_array_occurrence {A = ℕ} none (some two_counts) (1 ∷ 2 ∷ []))
      ↔ (Fits none 2 × CountsFit none (some two_counts) 2))
    × IsOutcome none (validate_array_occurrence {A = ℕ} none (some two_counts) (1 ∷ 2 ∷ []))
validate_array_occurrence-Fits_example =
    validate_array_occurrence-Fits none (some two_counts) (1 ∷ 2 ∷ [])

abbrev entries : List GroupEntry → GroupChoice
entries [] = no_group_entries
entries (e ∷ es) = group_entry e true (entries es)

abbrev value_group : Group
value_group = group_choice (entries (number 1 ∷ number 2 ∷ [])) no_group_choices

entry_counts_from_group-AllValues_example :
    entry_counts_from_group grammar 1 value_group
    ≡ done (map (λ c. count_of (group_entries c)) (group_choices value_group))
entry_counts_from_group-AllValues_example =
    entry_counts_from_group-AllValues grammar 0 value_group (tt, tt)

abbrev outer : Group
outer =
    group_choice (entries (number 1 ∷ []))
      (group_choice (entries (inline_group none value_group ∷ [])) no_group_choices)

entry_counts_from_group-inline_group_example :
    entry_counts_from_group grammar 2 outer
    ≡ done (
        (record { count = 2; entry_occurrence = none } ∷ [])
        ++ (record { count = 0; entry_occurrence = none }) ∷ [])
entry_counts_from_group-inline_group_example =
    entry_counts_from_group-inline_group grammar 1 outer value_group none
      (entries (number 1 ∷ []) ∷ []) (entries (inline_group none value_group ∷ []))
      (record { count = 2; entry_occurrence = none } ∷ []) (tt, tt) refl refl
      (entry_counts_from_group-AllValues grammar 0 value_group (tt, tt))

tag_from_token-injective_example : Token.tdate ≡ Token.tdate
unfolding tag_from_token
tag_from_token-injective_example =
    tag_from_token-injective Token.tdate Token.tdate
      (Type2.tagged_data (some 0) (type_from_token Token.tstr)) refl refl

identifier_from_str-eq-lookup_ident_example :
    identifier_eq
      (identifier_from_str (codes "$foo"))
      (record { ident = codes "foo"; socket = some SocketPlug.type })
    ≡ not (starts_with_dollar (codes "$foo"))
unfolding lookup_ident
identifier_from_str-eq-lookup_ident_example =
    identifier_from_str-eq-lookup_ident (codes "$foo") (codes "foo") (some SocketPlug.type) refl

range_value_try_from-as_value_example :
    (type2_from_range_value (RangeValue.uint 5) ≡ type2_from_value (Value.uint 5))
    × ((as_value (RangeValue.uint 5) ≡ some (Value.uint 5))
        ⊎ ((i : ℤ) × (Value.uint 5 ≡ Value.int i) × (as_value (RangeValue.uint 5) ≡ none)))
unfolding range_value_try_from
range_value_try_from-as_value_example =
    range_value_try_from-as_value (Value.uint 5) (RangeValue.uint 5) refl

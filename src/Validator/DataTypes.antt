-- ===== src/Validator/DataTypes.antt =====
-- src/validator/mod.rs: the `is_ident_*_data_type` family and `ident_matches_bool_value`. The source
-- writes the same body out for each; here the body is `ident_has_type`, over the test on the token that
-- `lookup_ident` gives. It calls itself along the rules, on fuel.
pub mod Refers
pub mod Search
pub mod Order
use cddl.Prelude.{ℕ, zero, suc, Bool, true, false, not, ◌&&◌, ◌||◌, List, if◌then◌else◌}
use cddl.Prelude.Fuel.{Run, done, out_of_fuel, any_run}
use cddl.Token.{Token}
use cddl.Token.Lookup.{lookup_ident}
use cddl.Ast.{
  Identifier, identifier_eq, Type1, type1, Type2, typename, type_choices, TypeRule, Rule,
}

-- The closure on the type choices: only a type name is followed, whatever operator is behind it.
abbrev pub choice_has_type : (Identifier → Run Bool) → Type1 → Run Bool
choice_has_type rec (type1 (typename j args) op) = rec j
choice_has_type rec _ = done false

-- The closure on the rules.
abbrev pub rule_has_type : (Identifier → Run Bool) → Identifier → Rule → Run Bool
rule_has_type rec i (Rule.type r) = elim (identifier_eq r.name i) [
  | true ↦ any_run (choice_has_type rec) (type_choices r.value)
  | false ↦ done false
]
rule_has_type rec i (Rule.group r) = done false

unfoldable pub ident_has_type : (Token → Bool) → List Rule → ℕ → Identifier → Run Bool
ident_has_type test rules zero i = out_of_fuel
ident_has_type test rules (suc f) i = elim (test (lookup_ident i.ident)) [
  | true ↦ done true
  | false ↦ any_run (rule_has_type (ident_has_type test rules f) i) rules
]

abbrev pub is_null_token : Token → Bool
is_null_token Token.null = true
is_null_token Token.nil = true
is_null_token _ = false

abbrev pub is_bool_token : Token → Bool
is_bool_token Token.bool = true
is_bool_token _ = false

abbrev pub is_literal_of : Bool → Token → Bool
is_literal_of b Token.true_literal = b
is_literal_of b Token.false_literal = not b
is_literal_of b _ = false

abbrev pub is_uri_token : Token → Bool
is_uri_token Token.uri = true
is_uri_token _ = false

abbrev pub is_b64url_token : Token → Bool
is_b64url_token Token.b64url = true
is_b64url_token _ = false

abbrev pub is_tdate_token : Token → Bool
is_tdate_token Token.tdate = true
is_tdate_token _ = false

abbrev pub is_time_token : Token → Bool
is_time_token Token.time = true
is_time_token _ = false

abbrev pub is_numeric_token : Token → Bool
is_numeric_token Token.uint = true
is_numeric_token Token.nint = true
is_numeric_token Token.integer = true
is_numeric_token Token.int = true
is_numeric_token Token.number = true
is_numeric_token Token.float = true
is_numeric_token Token.float16 = true
is_numeric_token Token.float32 = true
is_numeric_token Token.float64 = true
is_numeric_token Token.float16_32 = true
is_numeric_token Token.float32_64 = true
is_numeric_token Token.unsigned = true
is_numeric_token _ = false

abbrev pub is_uint_token : Token → Bool
is_uint_token Token.uint = true
is_uint_token _ = false

abbrev pub is_nint_token : Token → Bool
is_nint_token Token.nint = true
is_nint_token _ = false

abbrev pub is_integer_token : Token → Bool
is_integer_token Token.int = true
is_integer_token Token.integer = true
is_integer_token Token.nint = true
is_integer_token Token.uint = true
is_integer_token Token.number = true
is_integer_token Token.unsigned = true
is_integer_token _ = false

abbrev pub is_float_token : Token → Bool
is_float_token Token.float = true
is_float_token Token.float16 = true
is_float_token Token.float16_32 = true
is_float_token Token.float32 = true
is_float_token Token.float32_64 = true
is_float_token Token.float64 = true
is_float_token _ = false

abbrev pub is_string_token : Token → Bool
is_string_token Token.text = true
is_string_token Token.tstr = true
is_string_token _ = false

abbrev pub is_any_token : Token → Bool
is_any_token Token.any = true
is_any_token _ = false

abbrev pub is_byte_string_token : Token → Bool
is_byte_string_token Token.bstr = true
is_byte_string_token Token.bytes = true
is_byte_string_token _ = false

unfoldable pub is_ident_null_data_type : List Rule → ℕ → Identifier → Run Bool
unfolding ident_has_type
is_ident_null_data_type = ident_has_type is_null_token

unfoldable pub is_ident_bool_data_type : List Rule → ℕ → Identifier → Run Bool
unfolding ident_has_type
is_ident_bool_data_type = ident_has_type is_bool_token

unfoldable pub ident_matches_bool_value : List Rule → ℕ → Identifier → Bool → Run Bool
unfolding ident_has_type
ident_matches_bool_value rules f i b = ident_has_type (is_literal_of b) rules f i

unfoldable pub is_ident_uri_data_type : List Rule → ℕ → Identifier → Run Bool
unfolding ident_has_type
is_ident_uri_data_type = ident_has_type is_uri_token

unfoldable pub is_ident_b64url_data_type : List Rule → ℕ → Identifier → Run Bool
unfolding ident_has_type
is_ident_b64url_data_type = ident_has_type is_b64url_token

unfoldable pub is_ident_tdate_data_type : List Rule → ℕ → Identifier → Run Bool
unfolding ident_has_type
is_ident_tdate_data_type = ident_has_type is_tdate_token

unfoldable pub is_ident_time_data_type : List Rule → ℕ → Identifier → Run Bool
unfolding ident_has_type
is_ident_time_data_type = ident_has_type is_time_token

unfoldable pub is_ident_numeric_data_type : List Rule → ℕ → Identifier → Run Bool
unfolding ident_has_type
is_ident_numeric_data_type = ident_has_type is_numeric_token

unfoldable pub is_ident_uint_data_type : List Rule → ℕ → Identifier → Run Bool
unfolding ident_has_type
is_ident_uint_data_type = ident_has_type is_uint_token

unfoldable pub is_ident_nint_data_type : List Rule → ℕ → Identifier → Run Bool
unfolding ident_has_type
is_ident_nint_data_type = ident_has_type is_nint_token

unfoldable pub is_ident_integer_data_type : List Rule → ℕ → Identifier → Run Bool
unfolding ident_has_type
is_ident_integer_data_type = ident_has_type is_integer_token

unfoldable pub is_ident_float_data_type : List Rule → ℕ → Identifier → Run Bool
unfolding ident_has_type
is_ident_float_data_type = ident_has_type is_float_token

unfoldable pub is_ident_string_data_type : List Rule → ℕ → Identifier → Run Bool
unfolding ident_has_type
is_ident_string_data_type = ident_has_type is_string_token

unfoldable pub is_ident_any_type : List Rule → ℕ → Identifier → Run Bool
unfolding ident_has_type
is_ident_any_type = ident_has_type is_any_token

unfoldable pub is_ident_byte_string_data_type : List Rule → ℕ → Identifier → Run Bool
unfolding ident_has_type
is_ident_byte_string_data_type = ident_has_type is_byte_string_token

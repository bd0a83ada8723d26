-- ===== src/Validator/Literals.antt =====
-- src/validator/control.rs: the string literals and the numbers behind an identifier. The two functions
-- differ in the literals that they keep; both call themselves along the rules, on fuel.
pub mod Laws
use cddl.Prelude.{ℕ, zero, suc, Bool, true, false, List, [], ◌∷◌, if◌then◌else◌}
use cddl.Prelude.Fuel.{Run, done, out_of_fuel, append_each}
use cddl.Ast.{
  Identifier, identifier_eq, Type1, type1, Type2, typename, type_choices, TypeRule, Rule,
}

abbrev pub is_string_literal : Type2 → Bool
is_string_literal (Type2.text_value s) = true
is_string_literal (Type2.utf8_byte_string b) = true
is_string_literal (Type2.b16_byte_string b) = true
is_string_literal (Type2.b64_byte_string b) = true
is_string_literal _ = false

abbrev pub is_number : Type2 → Bool
is_number (Type2.int_value i) = true
is_number (Type2.uint_value n) = true
is_number (Type2.float_value x) = true
is_number _ = false

-- The arms on the type of a choice: type names are followed, kept literals pushed, others passed over.
abbrev choice_literals : (Type2 → Bool) → (Identifier → Run (List Type2)) → Type1 → Run (List Type2)
choice_literals keep rec (type1 (typename j args) op) = rec j
choice_literals keep rec (type1 t op) = done (if keep t then t ∷ [] else [])

abbrev rule_literals :
    (Type2 → Bool) → (Identifier → Run (List Type2)) → Identifier → Rule → Run (List Type2)
rule_literals keep rec i (Rule.type r) = elim (identifier_eq r.name i) [
  | true ↦ append_each (choice_literals keep rec) (type_choices r.value)
  | false ↦ done []
]
rule_literals keep rec i (Rule.group r) = done []

unfoldable pub literals_from_ident : (Type2 → Bool) → List Rule → ℕ → Identifier → Run (List Type2)
literals_from_ident keep rules zero i = out_of_fuel
literals_from_ident keep rules (suc f) i =
    append_each (rule_literals keep (literals_from_ident keep rules f) i) rules

unfoldable pub string_literals_from_ident : List Rule → ℕ → Identifier → Run (List Type2)
unfolding literals_from_ident
string_literals_from_ident = literals_from_ident is_string_literal

unfoldable pub numeric_values_from_ident : List Rule → ℕ → Identifier → Run (List Type2)
unfolding literals_from_ident
numeric_values_from_ident = literals_from_ident is_number

-- ===== src/Validator/Values/TextValues.antt =====
-- What `text_value_from_ident` and `text_value_from_type2` of src/validator/mod.rs find.
use cddl.Prelude.{
  ℕ, zero, suc, Option, none, some, List, [], ◌∷◌, ◌≡◌, inl, inr, Bool-cases, Option-cases,
}
use cddl.Prelude.Fuel.{Run, done, out_of_fuel, find_map}
use cddl.Ast.{
  Identifier, identifier_eq, Type1, type1, no_operator, operator, Type2, typename, type_choices,
  group_choices, GroupChoice, Rule,
}
use cddl.Validator.Values.{
  plain_choice, ident_choice, array_choice, first_of_pair, rule_text_value, type2_text_value,
  text_value_from_ident, text_value_from_type2,
}

-- A text or an unprefixed byte string.
abbrev pub IsTextValue : Type2 → Type 0
IsTextValue (Type2.text_value s) = Unit
IsTextValue (Type2.utf8_byte_string b) = Unit
IsTextValue _ = ⊥

-- Whatever is found is a text value.
abbrev Finds : Run (Option Type2) → Type 0
Finds (done (some t)) = IsTextValue t
Finds _ = Unit

Finds-or :
    (r k : Run (Option Type2))
    → Finds r
    → Finds k
    → Finds (elim r [ out_of_fuel ↦ out_of_fuel | done (some b) ↦ done (some b) | done none ↦ k ])
Finds-or out_of_fuel k h g = tt
Finds-or (done (some t)) k h g = h
Finds-or (done none) k h g = g

Finds-find_map {ℓ} :
    {A : Type ℓ} (f : A → Run (Option Type2)) (xs : List A)
    → ((x : A) → Finds (f x))
    → Finds (find_map f xs)
Finds-find_map f [] h = tt
Finds-find_map f (x ∷ xs) h = Finds-or (f x) (find_map f xs) (h x) (Finds-find_map f xs h)

Finds-plain_choice :
    (f : Type2 → Run (Option Type2))
    → ((t : Type2) → Finds (f t))
    → (c : Type1) → Finds (plain_choice f c)
Finds-plain_choice f h (type1 t no_operator) = h t
Finds-plain_choice f h (type1 t (operator op u)) = tt

module _ (of_ident : Identifier → Run (Option Type2)) (of_type2 : Type2 → Run (Option Type2))
    (ident_finds : (j : Identifier) → Finds (of_ident j))
    (type2_finds : (t : Type2) → Finds (of_type2 t)) where
  Finds-ident_choice : (t : Type2) → Finds (ident_choice of_ident of_type2 t)
  unfolding ident_choice
  Finds-ident_choice (Type2.text_value s) = tt
  Finds-ident_choice (typename j args) = ident_finds j
  Finds-ident_choice (Type2.parenthesized_type pt) =
      Finds-find_map _ (type_choices pt) (Finds-plain_choice of_type2 type2_finds)
  Finds-ident_choice _ = tt

  Finds-array_choice : (c : GroupChoice) → Finds (array_choice of_type2 c)
  unfolding array_choice
  Finds-array_choice c = elim (Option-cases (first_of_pair c)) [
    | inl e ↦ rw (e, array_choice) tt
    | inr (t, e) ↦
        rw (e, array_choice)
          (Finds-find_map _ (type_choices t) (Finds-plain_choice of_type2 type2_finds))
  ]

  Finds-type2_text_value : (t : Type2) → Finds (type2_text_value of_ident of_type2 t)
  unfolding type2_text_value
  Finds-type2_text_value (Type2.text_value s) = tt
  Finds-type2_text_value (typename j args) = ident_finds j
  Finds-type2_text_value (Type2.array g) = Finds-find_map _ (group_choices g) Finds-array_choice
  Finds-type2_text_value (Type2.parenthesized_type pt) =
      Finds-find_map _ (type_choices pt) (Finds-plain_choice of_type2 type2_finds)
  Finds-type2_text_value _ = tt

  Finds-rule_text_value :
      (i : Identifier) (r : Rule) → Finds (rule_text_value of_ident of_type2 i r)
  unfolding rule_text_value
  Finds-rule_text_value i (Rule.group r) = tt
  Finds-rule_text_value i (Rule.type r) = elim (Bool-cases (identifier_eq r.name i)) [
    | inl e ↦
        rw e (Finds-find_map _ (type_choices r.value) (Finds-plain_choice _ Finds-ident_choice))
    | inr e ↦ rw e tt
  ]

mutual
  unfolding text_value_from_ident text_value_from_type2

  Finds-text_value_from_ident :
      (rules : List Rule) (f : ℕ) (i : Identifier) → Finds (text_value_from_ident rules f i)
  Finds-text_value_from_ident rules zero i = tt
  Finds-text_value_from_ident rules (suc f) i = Finds-find_map _ rules (
      Finds-rule_text_value _ _ (Finds-text_value_from_ident rules f)
        (Finds-text_value_from_type2 rules f) i)

  Finds-text_value_from_type2 :
      (rules : List Rule) (f : ℕ) (t : Type2) → Finds (text_value_from_type2 rules f t)
  Finds-text_value_from_type2 rules zero t = tt
  Finds-text_value_from_type2 rules (suc f) t =
      Finds-type2_text_value _ _ (Finds-text_value_from_ident rules f)
        (Finds-text_value_from_type2 rules f) t

-- Whatever `text_value_from_ident` and `text_value_from_type2` return is a text value or an unprefixed
-- byte string.
pub text_values-IsTextValue :
    (rules : List Rule) (f : ℕ) (i : Identifier) (t u : Type2)
    → ((text_value_from_ident rules f i ≡ done (some u)) → IsTextValue u)
      × ((text_value_from_type2 rules f t ≡ done (some u)) → IsTextValue u)
text_values-IsTextValue rules f i t u = (
  λ e. rw e at (Finds-text_value_from_ident rules f i),
  λ e. rw e at (Finds-text_value_from_type2 rules f t),
)

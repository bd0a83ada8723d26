-- ===== src/Validator/DataTypes/Order.antt =====
-- A wider test on tokens accepts what a narrower one does, in the same fuel.
use cddl.Prelude.{ℕ, zero, suc, Bool, true, false, List, [], ◌∷◌, ◌≡◌, refl, Bool-cases, inl, inr}
use cddl.Prelude.Fuel.{Run, done, out_of_fuel, any_run}
use cddl.Token.{Token}
use cddl.Token.Lookup.{lookup_ident}
use cddl.Ast.{Identifier, identifier_eq, Type1, type1, Type2, typename, type_choices, Rule}
use cddl.Validator.DataTypes.{
  choice_has_type, rule_has_type, ident_has_type, is_uint_token, is_nint_token, is_integer_token,
  is_numeric_token, is_float_token, is_ident_uint_data_type, is_ident_nint_data_type,
  is_ident_integer_data_type, is_ident_numeric_data_type, is_ident_float_data_type,
}

-- Where the first run returns, the second does, and it returns true where the first does.
abbrev pub Implies : Run Bool → Run Bool → Type 0
Implies out_of_fuel r = Unit
Implies (done b) out_of_fuel = ⊥
Implies (done b) (done c) = b ≡ true → c ≡ true

Implies-refl : (r : Run Bool) → Implies r r
Implies-refl out_of_fuel = tt
Implies-refl (done b) = λ h. h

Implies-join :
    (p q r s : Run Bool)
    → Implies p q
    → Implies r s
    → Implies
        (elim p [ out_of_fuel ↦ out_of_fuel | done true ↦ done true | done false ↦ r ])
        (elim q [ out_of_fuel ↦ out_of_fuel | done true ↦ done true | done false ↦ s ])
Implies-join out_of_fuel q r s h k = tt
Implies-join (done b) out_of_fuel r s h k = absurd h
Implies-join (done true) (done true) r s h k = λ e. e
Implies-join (done true) (done false) r s h k = cc (h refl)
Implies-join (done false) (done true) out_of_fuel s h k = tt
Implies-join (done false) (done true) (done b) s h k = λ e. refl
Implies-join (done false) (done false) r s h k = k

any_run-Implies {ℓ} :
    {A : Type ℓ} (p q : A → Run Bool) (xs : List A)
    → ((x : A) → Implies (p x) (q x))
    → Implies (any_run p xs) (any_run q xs)
any_run-Implies p q [] h = λ e. e
any_run-Implies p q (x ∷ xs) h = Implies-join (p x) (q x) _ _ (h x) (any_run-Implies p q xs h)

Implies-true : (r : Run Bool) → Implies r (done true)
Implies-true out_of_fuel = tt
Implies-true (done b) = λ h. refl

uint_is_integer : (t : Token) → is_uint_token t ≡ true → is_integer_token t ≡ true
uint_is_integer Token.uint e = refl
uint_is_integer _ e = cc

nint_is_integer : (t : Token) → is_nint_token t ≡ true → is_integer_token t ≡ true
nint_is_integer Token.nint e = refl
nint_is_integer _ e = cc

integer_is_numeric : (t : Token) → is_integer_token t ≡ true → is_numeric_token t ≡ true
integer_is_numeric Token.int e = refl
integer_is_numeric _ e = cc

float_is_numeric : (t : Token) → is_float_token t ≡ true → is_numeric_token t ≡ true
float_is_numeric Token.float e = refl
float_is_numeric _ e = cc

module _ (narrow wide : Token → Bool) (rules : List Rule)
    (wider : (t : Token) → narrow t ≡ true → wide t ≡ true) where
  choice-Implies :
      (p q : Identifier → Run Bool) (t : Type1)
      → ((j : Identifier) → Implies (p j) (q j))
      → Implies (choice_has_type p t) (choice_has_type q t)
  choice-Implies p q (type1 (typename j args) op) h = h j
  choice-Implies p q (type1 Type2.any_type op) h = λ e. e
  choice-Implies p q (type1 _ op) h = λ e. e

  rule-Implies :
      (p q : Identifier → Run Bool) (i : Identifier) (r : Rule)
      → ((j : Identifier) → Implies (p j) (q j))
      → Implies (rule_has_type p i r) (rule_has_type q i r)
  rule-Implies p q i (Rule.group r) h = λ e. e
  rule-Implies p q i (Rule.type r) h = elim (Bool-cases (identifier_eq r.name i)) [
    | inl n ↦
        rw (n, rule_has_type)
          (any_run-Implies _ _ (type_choices r.value) (λ t. choice-Implies p q t h))
    | inr n ↦ rw (n, rule_has_type) (λ e. e)
  ]

  -- A search with a wider test returns wherever the narrower one does in the same fuel, and returns
  -- true wherever the narrower one does.
  pub ident_has_type-Implies :
      (f : ℕ) (i : Identifier)
      → Implies (ident_has_type narrow rules f i) (ident_has_type wide rules f i)
  unfolding ident_has_type
  ident_has_type-Implies zero i = tt
  ident_has_type-Implies (suc f) i =
      let rest = any_run-Implies _ _ rules (λ r.
        rule-Implies (ident_has_type narrow rules f) (ident_has_type wide rules f) i r
          (ident_has_type-Implies f)) in
      elim (Bool-cases (narrow (lookup_ident i.ident))) [
        | inl h ↦ rw (h, wider _ h, ident_has_type) (λ e. e)
        | inr h ↦ elim (Bool-cases (wide (lookup_ident i.ident))) [
          | inl k ↦ rw (h, k, ident_has_type) (Implies-true _)
          | inr k ↦ rw (h, k, ident_has_type) rest
        ]
      ]

-- The data types are nested as in the prelude of the language: where the search for `uint` or `nint`
-- returns, so does the one for integers, that for numbers where the one for integers does or the one
-- for floats does; and the wider search returns true where the narrower one does.
pub numeric_data_types_nested :
    (rules : List Rule) (f : ℕ) (i : Identifier)
    → Implies (is_ident_uint_data_type rules f i) (is_ident_integer_data_type rules f i)
      × Implies (is_ident_nint_data_type rules f i) (is_ident_integer_data_type rules f i)
      × Implies (is_ident_integer_data_type rules f i) (is_ident_numeric_data_type rules f i)
      × Implies (is_ident_float_data_type rules f i) (is_ident_numeric_data_type rules f i)
unfolding is_ident_uint_data_type is_ident_nint_data_type is_ident_integer_data_type
    is_ident_numeric_data_type is_ident_float_data_type
numeric_data_types_nested rules f i = (
  ident_has_type-Implies is_uint_token is_integer_token rules uint_is_integer f i,
  ident_has_type-Implies is_nint_token is_integer_token rules nint_is_integer f i,
  ident_has_type-Implies is_integer_token is_numeric_token rules integer_is_numeric f i,
  ident_has_type-Implies is_float_token is_numeric_token rules float_is_numeric f i,
)

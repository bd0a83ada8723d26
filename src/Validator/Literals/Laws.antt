-- ===== src/Validator/Literals/Laws.antt =====
-- The literals gathered are exactly those that the references of the grammar lead to.
use cddl.Prelude.{
  ℕ, zero, suc, ◌<◌, Bool, true, List, [], ◌∷◌, ◌≡◌, ◌≢◌, ◌↔◌, inl, inr, refl, arith, In, first,
  later, Bool-cases, if◌then◌else◌, subst, sym, ◌∙◌,
}
use cddl.Prelude.Fuel.{Run, done, out_of_fuel, append_each}
use cddl.Prelude.Fuel.Laws.{
  Run-cases, append_each-from, append_each-all, append_each-ne-out_of_fuel, not-In_nil,
  done-injective,
}
use cddl.Ast.{
  Identifier, identifier_eq, Type1, type1, Type2, typename, MaybeOperator, type_choices, TypeRule,
  Rule,
}
use cddl.Validator.DataTypes.Refers.{Refers, IsRanked}
use cddl.Validator.Literals.{
  is_string_literal, is_number, choice_literals, rule_literals, literals_from_ident,
  string_literals_from_ident, numeric_values_from_ident,
}

-- The literal is a choice of a type rule of the name, or of one that it refers to.
pub data HasLiteral (keep : Type2 → Bool) (rules : List Rule) (t : Type2)
    : Identifier → Type 0 where
  own :
      {i : Identifier} {r : TypeRule} {op : MaybeOperator}
      → In (Rule.type r) rules
      → identifier_eq r.name i ≡ true
      → In (type1 t op) (type_choices r.value)
      → keep t ≡ true
      → HasLiteral keep rules t i
  referred :
      {i j : Identifier} → Refers rules i j → HasLiteral keep rules t j → HasLiteral keep rules t i

-- A type name is no literal.
abbrev pub SkipsNames : (Type2 → Bool) → Type 0
SkipsNames keep =
    (t : Type2)
    → keep t ≡ true
    → (rec : Identifier → Run (List Type2)) (op : MaybeOperator)
    → choice_literals keep rec (type1 t op) ≡ done (t ∷ [])

is_string_literal-SkipsNames : SkipsNames is_string_literal
is_string_literal-SkipsNames (Type2.text_value s) e rec op = refl
is_string_literal-SkipsNames (Type2.utf8_byte_string s) e rec op = refl
is_string_literal-SkipsNames (Type2.b16_byte_string s) e rec op = refl
is_string_literal-SkipsNames (Type2.b64_byte_string s) e rec op = refl
is_string_literal-SkipsNames _ e rec op = cc

is_number-SkipsNames : SkipsNames is_number
is_number-SkipsNames (Type2.int_value s) e rec op = refl
is_number-SkipsNames (Type2.uint_value s) e rec op = refl
is_number-SkipsNames (Type2.float_value s) e rec op = refl
is_number-SkipsNames _ e rec op = cc

In-singleton {ℓ} : {A : Type ℓ} (x y : A) → In x (y ∷ []) → x ≡ y
In-singleton x y first = refl
In-singleton x y (later m) = absurd (not-In_nil m)

module _ (keep : Type2 → Bool) (rules : List Rule) (rec : Identifier → Run (List Type2)) where
  -- A literal that is kept.
  kept :
      (i : Identifier) (r : TypeRule) (t u : Type2) (op : MaybeOperator)
      → In (Rule.type r) rules
      → identifier_eq r.name i ≡ true
      → In (type1 u op) (type_choices r.value)
      → In t (if keep u then u ∷ [] else [])
      → HasLiteral keep rules t i
  kept i r t u op m n c w = elim (Bool-cases (keep u)) [
    | inl k ↦
        let e = In-singleton t u (rw k at w) in
        own m n (subst (λ v. In (type1 v op) (type_choices r.value)) (sym e) c) (rw e k)
    | inr k ↦ absurd (not-In_nil (rw k at w))
  ]

  choice-HasLiteral :
      ((j : Identifier) (ts : List Type2) (t : Type2)
        → rec j ≡ done ts
        → In t ts
        → HasLiteral keep rules t j)
      → (i : Identifier) (r : TypeRule) (c : Type1) (ts : List Type2) (t : Type2)
      → In (Rule.type r) rules
      → identifier_eq r.name i ≡ true
      → In c (type_choices r.value)
      → choice_literals keep rec c ≡ done ts
      → In t ts
      → HasLiteral keep rules t i
  choice-HasLiteral ih i r (type1 (typename j args) op) ts t m n c e w =
      referred (record { rule = r; args = args; op = op; listed = m; named = n; choice = c })
        (ih j ts t e w)
  choice-HasLiteral ih i r (type1 Type2.any_type op) ts t m n c e w =
      kept i r t Type2.any_type op m n c (subst (In t) (sym (done-injective e)) w)
  choice-HasLiteral ih i r (type1 u op) ts t m n c e w =
      kept i r t u op m n c (subst (In t) (sym (done-injective e)) w)

  rule-HasLiteral :
      ((j : Identifier) (ts : List Type2) (t : Type2)
        → rec j ≡ done ts
        → In t ts
        → HasLiteral keep rules t j)
      → (i : Identifier) (r : Rule) (ts : List Type2) (t : Type2) → In r rules
      → rule_literals keep rec i r ≡ done ts
      → In t ts
      → HasLiteral keep rules t i
  rule-HasLiteral ih i (Rule.group r) ts t m e w =
      absurd (not-In_nil (subst (In t) (sym (done-injective e)) w))
  rule-HasLiteral ih i (Rule.type r) ts t m e w = elim (Bool-cases (identifier_eq r.name i)) [
    | inl n ↦
        let (c, us, l, q, v) =
          append_each-from (choice_literals keep rec) (type_choices r.value) ts
            (rw (n, rule_literals) at e) w in
        choice-HasLiteral ih i r c us t m n l q v
    | inr n ↦
        absurd (not-In_nil (subst (In t) (sym (done-injective (rw (n, rule_literals) at e))) w))
  ]

  choice-returns :
      (i : Identifier) (r : TypeRule) (c : Type1)
      → In (Rule.type r) rules
      → identifier_eq r.name i ≡ true
      → In c (type_choices r.value)
      → ((j : Identifier) → Refers rules i j → rec j ≢ out_of_fuel)
      → choice_literals keep rec c ≢ out_of_fuel
  choice-returns i r (type1 (typename j args) op) m n c h =
      h j (record { rule = r; args = args; op = op; listed = m; named = n; choice = c })
  choice-returns i r (type1 Type2.any_type op) m n c h = λ e. cc
  choice-returns i r (type1 u op) m n c h = λ e. cc

  rule-returns :
      (i : Identifier) (r : Rule)
      → In r rules
      → ((j : Identifier) → Refers rules i j → rec j ≢ out_of_fuel)
      → rule_literals keep rec i r ≢ out_of_fuel
  rule-returns i (Rule.group r) m h = λ e. cc
  rule-returns i (Rule.type r) m h = elim (Bool-cases (identifier_eq r.name i)) [
    | inl n ↦
        rw (n, rule_literals)
          (append_each-ne-out_of_fuel _ (type_choices r.value)
            (λ c l. choice-returns i r c m n l h))
    | inr n ↦ rw (n, rule_literals) (λ e. cc)
  ]

  -- What a rule of the name gathers from one of its choices.
  rule-gathers :
      (i : Identifier) (r : TypeRule) (c : Type1) (ts : List Type2)
      → In (Rule.type r) rules
      → identifier_eq r.name i ≡ true
      → In c (type_choices r.value)
      → append_each (rule_literals keep rec i) rules ≡ done ts
      → (us : List Type2) × (choice_literals keep rec c ≡ done us)
        × ((t : Type2) → In t us → In t ts)
  rule-gathers i r c ts m n l e =
      let (zs, p, h) = append_each-all (rule_literals keep rec i) ts m e in
      let (us, q, k) =
        append_each-all (choice_literals keep rec) zs l (rw (n, rule_literals) at p) in
      (us, q, λ t w. h t (k t w))

literals-HasLiteral :
    (keep : Type2 → Bool) (rules : List Rule) (f : ℕ) (i : Identifier) (ts : List Type2) (t : Type2)
    → literals_from_ident keep rules f i ≡ done ts
    → In t ts
    → HasLiteral keep rules t i
unfolding literals_from_ident
literals-HasLiteral keep rules zero i ts t e m = cc
literals-HasLiteral keep rules (suc f) i ts t e m =
    let (r, us, l, q, w) = append_each-from _ rules ts e m in
    rule-HasLiteral keep rules _ (literals-HasLiteral keep rules f) i r us t l q w

HasLiteral-literals :
    (keep : Type2 → Bool) (rules : List Rule)
    → SkipsNames keep
    → (f : ℕ) (i : Identifier) (ts : List Type2) (t : Type2)
    → literals_from_ident keep rules f i ≡ done ts
    → HasLiteral keep rules t i
    → In t ts
unfolding literals_from_ident
HasLiteral-literals keep rules skips zero i ts t e w = cc
HasLiteral-literals keep rules skips (suc f) i ts t e (own {r = r} {op = op} m n l k) =
    let (us, q, h) =
      rule-gathers keep rules (literals_from_ident keep rules f) i r (type1 t op) ts m n l e in
    h t (subst (In t) (done-injective (sym (skips t k _ op) ∙ q)) first)
HasLiteral-literals keep rules skips (suc f) i ts t e (referred {j = j} ref w) =
    let (us, q, h) =
      rule-gathers keep rules (literals_from_ident keep rules f) i ref.rule
        (type1 (typename j ref.args) ref.op) ts ref.listed ref.named ref.choice e in
    h t (HasLiteral-literals keep rules skips f j us t q w)

literals-returns :
    (keep : Type2 → Bool) (rules : List Rule) (rank : Identifier → ℕ) (f : ℕ) (i : Identifier)
    → IsRanked rules rank
    → rank i < f
    → literals_from_ident keep rules f i ≢ out_of_fuel
unfolding literals_from_ident
literals-returns keep rules rank zero i d h = absurd (omega arith)
literals-returns keep rules rank (suc f) i d h = append_each-ne-out_of_fuel _ rules (λ r m.
    rule-returns keep rules _ i r m
      (λ j ref. literals-returns keep rules rank f j d (let g = d i j ref in omega arith)))

-- The run returns, and its list holds exactly the literals that satisfy the predicate.
abbrev pub Collects : Run (List Type2) → (Type2 → Type 0) → Type 0
Collects r P = (ts : List Type2) × (r ≡ done ts) × ((t : Type2) → In t ts ↔ P t)

literals-Collects :
    (keep : Type2 → Bool) (rules : List Rule) (rank : Identifier → ℕ) (f : ℕ) (i : Identifier)
    → SkipsNames keep
    → IsRanked rules rank
    → rank i < f
    → Collects (literals_from_ident keep rules f i) (λ t. HasLiteral keep rules t i)
literals-Collects keep rules rank f i skips d h =
    elim (Run-cases (literals_from_ident keep rules f i)) [
      | inl q ↦ absurd (literals-returns keep rules rank f i d h q)
      | inr (ts, q) ↦ (
        ts,
        q,
        λ t. (
          literals-HasLiteral keep rules f i ts t q,
          HasLiteral-literals keep rules skips f i ts t q,
        ),
      )
    ]

-- In a grammar whose references go down in rank, with fuel above the rank of the identifier, both
-- searches return: the one exactly the string literals, the other exactly the numbers, among the choices
-- of the type rules of the name and of those that they refer to.
pub literals_from_ident-Collects :
    (rules : List Rule) (rank : Identifier → ℕ) (f : ℕ) (i : Identifier)
    → IsRanked rules rank
    → rank i < f
    → Collects (string_literals_from_ident rules f i) (λ t. HasLiteral is_string_literal rules t i)
      × Collects (numeric_values_from_ident rules f i) (λ t. HasLiteral is_number rules t i)
unfolding string_literals_from_ident numeric_values_from_ident
literals_from_ident-Collects rules rank f i d h = (
  literals-Collects is_string_literal rules rank f i is_string_literal-SkipsNames d h,
  literals-Collects is_number rules rank f i is_number-SkipsNames d h,
)

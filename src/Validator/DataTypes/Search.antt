-- ===== src/Validator/DataTypes/Search.antt =====
-- `ident_has_type` decides reachability along the references of the grammar.
use cddl.Prelude.{
  ℕ, zero, suc, ◌<◌, Bool, true, false, List, ◌≡◌, ◌≢◌, ◌↔◌, inl, inr, refl, arith, Bool-cases, In,
}
use cddl.Prelude.Fuel.{Run, done, out_of_fuel, any_run}
use cddl.Prelude.Fuel.Laws.{Run-cases, any_run-true, any_run-false, any_run-ne-out_of_fuel}
use cddl.Token.{Token}
use cddl.Token.Lookup.{lookup_ident}
use cddl.Ast.{
  Identifier, identifier_eq, Type1, type1, Type2, typename, type_choices, TypeRule, Rule,
}
use cddl.Validator.DataTypes.{choice_has_type, rule_has_type, ident_has_type}
use cddl.Validator.DataTypes.Refers.{Refers, Reaches, here, via, IsRanked}

module _ (rules : List Rule) (rec : Identifier → Run Bool) where
  -- A choice that is found is a type name at which the call returned true.
  choice-true :
      (i : Identifier) (r : TypeRule) (t : Type1)
      → In (Rule.type r) rules
      → identifier_eq r.name i ≡ true
      → In t (type_choices r.value)
      → choice_has_type rec t ≡ done true
      → (j : Identifier) × Refers rules i j × (rec j ≡ done true)
  choice-true i r (type1 (typename j args) op) m n c e =
      (j, record { rule = r; args = args; op = op; listed = m; named = n; choice = c }, e)
  choice-true i r (type1 (Type2.any_type) op) m n c e = cc
  choice-true i r (type1 _ op) m n c e = cc

  rule-true :
      (i : Identifier) (r : Rule)
      → In r rules
      → rule_has_type rec i r ≡ done true
      → (j : Identifier) × Refers rules i j × (rec j ≡ done true)
  rule-true i (Rule.group r) m e = cc
  rule-true i (Rule.type r) m e = elim (Bool-cases (identifier_eq r.name i)) [
    | inl n ↦
        let (t, c, h) =
          any_run-true (choice_has_type rec) (type_choices r.value) (rw (n, rule_has_type) at e) in
        choice-true i r t m n c h
    | inr n ↦ cc (rw (n, rule_has_type) at e)
  ]

  -- Where the search of the rules returned false, so did the call at every reference.
  reference-false :
      (i j : Identifier)
      → Refers rules i j
      → any_run (rule_has_type rec i) rules ≡ done false
      → rec j ≡ done false
  reference-false i j ref e =
      any_run-false (choice_has_type rec) ref.choice
        (rw (ref.named, rule_has_type) at (any_run-false (rule_has_type rec i) ref.listed e))

  choice-done :
      (i : Identifier) (r : TypeRule) (t : Type1)
      → In (Rule.type r) rules
      → identifier_eq r.name i ≡ true
      → In t (type_choices r.value)
      → ((j : Identifier) → Refers rules i j → rec j ≢ out_of_fuel)
      → choice_has_type rec t ≢ out_of_fuel
  choice-done i r (type1 (typename j args) op) m n c h =
      h j (record { rule = r; args = args; op = op; listed = m; named = n; choice = c })
  choice-done i r (type1 (Type2.any_type) op) m n c h = λ e. cc
  choice-done i r (type1 _ op) m n c h = λ e. cc

  rule-done :
      (i : Identifier) (r : Rule)
      → In r rules
      → ((j : Identifier) → Refers rules i j → rec j ≢ out_of_fuel)
      → rule_has_type rec i r ≢ out_of_fuel
  rule-done i (Rule.group r) m h = λ e. cc
  rule-done i (Rule.type r) m h = elim (Bool-cases (identifier_eq r.name i)) [
    | inl n ↦
        rw (n, rule_has_type)
          (any_run-ne-out_of_fuel (choice_has_type rec) (type_choices r.value)
            (λ t c. choice-done i r t m n c h))
    | inr n ↦ rw (n, rule_has_type) (λ e. cc)
  ]

module _ (test : Token → Bool) (rules : List Rule) where
  pub ident_has_type-true :
      (f : ℕ) (i : Identifier) → ident_has_type test rules f i ≡ done true → Reaches test rules i
  unfolding ident_has_type
  ident_has_type-true zero i e = cc
  ident_has_type-true (suc f) i e = elim (Bool-cases (test (lookup_ident i.ident))) [
    | inl h ↦ here h
    | inr h ↦
        let (r, m, q) = any_run-true _ rules (rw (h, ident_has_type) at e) in
        let (j, ref, p) = rule-true rules (ident_has_type test rules f) i r m q in
        via ref (ident_has_type-true f j p)
  ]

  pub ident_has_type-false :
      (f : ℕ) (i : Identifier) → Reaches test rules i → ident_has_type test rules f i ≢ done false
  unfolding ident_has_type
  ident_has_type-false zero i w = λ e. cc
  ident_has_type-false (suc f) i (here h) = rw (h, ident_has_type) (λ e. cc)
  ident_has_type-false (suc f) i (via {j = j} ref w) =
      elim (Bool-cases (test (lookup_ident i.ident))) [
        | inl h ↦ rw (h, ident_has_type) (λ e. cc)
        | inr h ↦
            rw (h, ident_has_type)
              (λ e.
                ident_has_type-false f j w
                  (reference-false rules (ident_has_type test rules f) i j ref e))
      ]

  pub ident_has_type-ranked :
      (rank : Identifier → ℕ)
      → IsRanked rules rank
      → (f : ℕ) (i : Identifier) → rank i < f
      → ident_has_type test rules f i ≢ out_of_fuel
  unfolding ident_has_type
  ident_has_type-ranked rank d zero i h = absurd (omega arith)
  ident_has_type-ranked rank d (suc f) i h = elim (Bool-cases (test (lookup_ident i.ident))) [
    | inl q ↦ rw (q, ident_has_type) (λ e. cc)
    | inr q ↦
        rw (q, ident_has_type)
          (any_run-ne-out_of_fuel _ rules (λ r m.
            rule-done rules (ident_has_type test rules f) i r m
              (λ j ref. ident_has_type-ranked rank d f j (below j ref))))
  ]
    where
      below : (j : Identifier) → Refers rules i j → rank j < f
      below j ref = let g = d i j ref in omega arith

  -- In a grammar whose references go down in rank, with fuel above the rank of the identifier, the
  -- search returns: true exactly when a chain of references reaches a name whose token passes the test,
  -- and false exactly when none does.
  pub ident_has_type_decides :
      (rank : Identifier → ℕ) (f : ℕ) (i : Identifier)
      → IsRanked rules rank
      → rank i < f
      → ((ident_has_type test rules f i ≡ done true) ↔ Reaches test rules i)
        × ((ident_has_type test rules f i ≡ done false) ↔ ¬ (Reaches test rules i))
  ident_has_type_decides rank f i d h = elim (Run-cases (ident_has_type test rules f i)) [
    | inl q ↦ absurd (ident_has_type-ranked rank d f i h q)
    | inr (true, q) ↦ (
      (ident_has_type-true f i, λ w. q),
      (λ e. cc (q, e), λ n. absurd (n (ident_has_type-true f i q))),
    )
    | inr (false, q) ↦ (
      (ident_has_type-true f i, λ w. absurd (ident_has_type-false f i w q)),
      (λ e w. ident_has_type-false f i w e, λ n. q),
    )
  ]

  -- Where every identifier of a set refers to another of the set, and no chain of references from the
  -- set reaches a name whose token passes the test, no fuel is enough: the search does not return.
  pub ident_has_type_diverges :
      (P : Identifier → Type 0) (f : ℕ) (i : Identifier)
      → P i
      → ((j : Identifier) → P j → (k : Identifier) × Refers rules j k × P k)
      → ((j : Identifier) → P j → ¬ (Reaches test rules j))
      → ident_has_type test rules f i ≡ out_of_fuel
  unfolding ident_has_type
  ident_has_type_diverges P zero i p next never = refl
  ident_has_type_diverges P (suc f) i p next never =
      elim (Run-cases (ident_has_type test rules (suc f) i)) [
        | inl q ↦ q
        | inr (true, q) ↦ absurd (never i p (ident_has_type-true (suc f) i q))
        | inr (false, q) ↦ elim (Bool-cases (test (lookup_ident i.ident))) [
          | inl t ↦ absurd (never i p (here t))
          | inr t ↦
              let (k, ref, pk) = next i p in
              let loops = ident_has_type_diverges P f k pk next never in
              let ended =
                reference-false rules (ident_has_type test rules f) i k ref
                  (rw (t, ident_has_type) at q) in
              cc (loops, ended)
        ]
      ]

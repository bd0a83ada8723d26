-- ===== src/Validator/Values/Unwrap.antt =====
-- What `unwrap_rule_from_ident` of src/validator/mod.rs finds.
use cddl.Prelude.{
  ℕ, zero, suc, Bool, true, false, not, ◌&&◌, Option, some, List, [], ◌∷◌, ◌≡◌, ◌≢◌, inl, inr,
  arith, any, In, first, later, Bool-cases, Option-cases, subst, ◌<◌, and_left, sym,
}
use cddl.Prelude.Fuel.{Run, done, out_of_fuel}
use cddl.Prelude.Fuel.Laws.{find_map-some, Run-cases, find_map-ne-out_of_fuel}
use cddl.Ast.{
  Identifier, identifier_eq, Type1, type1, MaybeOperator, typename, MaybeGenericArgs,
  no_generic_args, type_choices, Rule, TypeRule,
}
use cddl.Validator.DataTypes.Refers.{Refers, IsRanked}
use cddl.Validator.Values.{is_unwrappable, first_typename, rule_unwrapped, unwrap_rule_from_ident}

-- A type rule of the grammar that may stand behind `~`.
pub record IsUnwrapped (rules : List Rule) (r : Rule) : Type 0 where
  pub rule : TypeRule
  pub is_type : r ≡ Rule.type rule
  pub listed : In r rules
  pub base : rule.is_type_choice_alternate ≡ false
  pub unwrappable : any is_unwrappable (type_choices rule.value) ≡ true

some-injective : {u v : Rule} → done (some u) ≡ done (some v) → v ≡ u
some-injective e = cc

is_base : (named alternate : Bool) → (named && not alternate) ≡ true → alternate ≡ false
is_base named alternate e = ground arith

IsUnwrapped-type :
    (rules : List Rule) (r : TypeRule) (u : Rule)
    → In (Rule.type r) rules
    → r.is_type_choice_alternate ≡ false
    → any is_unwrappable (type_choices r.value) ≡ true
    → u ≡ Rule.type r
    → IsUnwrapped rules u
IsUnwrapped-type rules r u m b w e = record {
  rule = r;
  is_type = e;
  listed = subst (λ x. In x rules) (sym e) m;
  base = b;
  unwrappable = w;
}

rule_unwrapped-some :
    (rules : List Rule) (rec : Identifier → Run (Option Rule))
    → ((j : Identifier) (u : Rule) → rec j ≡ done (some u) → IsUnwrapped rules u)
    → (i : Identifier) (r u : Rule) → In r rules
    → rule_unwrapped rec i r ≡ done (some u)
    → IsUnwrapped rules u
unfolding rule_unwrapped
rule_unwrapped-some rules rec ih i (Rule.group r) u m e = cc
rule_unwrapped-some rules rec ih i (Rule.type r) u m e =
    elim (Bool-cases (identifier_eq r.name i && not r.is_type_choice_alternate)) [
      | inr n ↦ cc (rw n at e)
      | inl n ↦ elim (Bool-cases (any is_unwrappable (type_choices r.value))) [
        | inl w ↦
            IsUnwrapped-type rules r u m (is_base _ _ n) w
              (some-injective (rw (n, w, rule_unwrapped) at e))
        | inr w ↦ elim (Option-cases (first_typename (type_choices r.value))) [
          | inl k ↦ cc (rw (n, w, k, rule_unwrapped) at e)
          | inr (j, k) ↦ ih j u (rw (n, w, k, rule_unwrapped) at e)
        ]
      ]
    ]

unwrap-some :
    (rules : List Rule) (f : ℕ) (i : Identifier) (u : Rule)
    → unwrap_rule_from_ident rules f i ≡ done (some u)
    → IsUnwrapped rules u
unfolding unwrap_rule_from_ident
unwrap-some rules zero i u e = cc
unwrap-some rules (suc f) i u e =
    let (r, m, h) = find_map-some _ rules e in
    rule_unwrapped-some rules _ (unwrap-some rules f) i r u m h

first_typename-In :
    (ts : List Type1) (j : Identifier)
    → first_typename ts ≡ some j
    → (args : MaybeGenericArgs) × (op : MaybeOperator) × In (type1 (typename j args) op) ts
first_typename-In [] j e = cc
first_typename-In (type1 (typename k no_generic_args) op ∷ ts) j e =
    let named = λ (x : Identifier). type1 (typename x no_generic_args) op in
    (no_generic_args, op, subst (λ x. In (named x) (named k ∷ ts)) {x = k} {y = j} (cc) first)
first_typename-In (t ∷ ts) j e = let (args, op, m) = first_typename-In ts j e in (args, op, later m)

rule_unwrapped-returns :
    (rules : List Rule) (rec : Identifier → Run (Option Rule)) (i : Identifier) (r : Rule)
    → ((j : Identifier) → Refers rules i j → rec j ≢ out_of_fuel)
    → In r rules
    → rule_unwrapped rec i r ≢ out_of_fuel
unfolding rule_unwrapped
rule_unwrapped-returns rules rec i (Rule.group r) h m = λ e. cc
rule_unwrapped-returns rules rec i (Rule.type r) h m =
    elim (Bool-cases (identifier_eq r.name i && not r.is_type_choice_alternate)) [
      | inr n ↦ rw (n, rule_unwrapped) (λ e. cc)
      | inl n ↦ elim (Bool-cases (any is_unwrappable (type_choices r.value))) [
        | inl w ↦ rw (n, w, rule_unwrapped) (λ e. cc)
        | inr w ↦ elim (Option-cases (first_typename (type_choices r.value))) [
          | inl k ↦ rw (n, w, k, rule_unwrapped) (λ e. cc)
          | inr (j, k) ↦
              let (args, op, l) = first_typename-In (type_choices r.value) j k in
              rw (n, w, k, rule_unwrapped)
                (h j (record {
                  rule = r;
                  args = args;
                  op = op;
                  listed = m;
                  named = and_left _ _ n;
                  choice = l;
                }))
        ]
      ]
    ]

unwrap-returns :
    (rules : List Rule) (rank : Identifier → ℕ) (f : ℕ) (i : Identifier)
    → IsRanked rules rank
    → rank i < f
    → unwrap_rule_from_ident rules f i ≢ out_of_fuel
unfolding unwrap_rule_from_ident
unwrap-returns rules rank zero i d h = absurd (omega arith)
unwrap-returns rules rank (suc f) i d h = find_map-ne-out_of_fuel _ rules (λ r m.
    rule_unwrapped-returns rules _ i r
      (λ j ref. unwrap-returns rules rank f j d (let g = d i j ref in omega arith)) m)

-- In a grammar whose references go down in rank, with fuel above the rank of the identifier,
-- `unwrap_rule_from_ident` returns, and what it finds, if anything, is a type rule of the grammar that is
-- no choice alternate and has a map, an array or tagged data among its choices.
pub unwrap_rule_from_ident-IsUnwrapped :
    (rules : List Rule) (rank : Identifier → ℕ) (f : ℕ) (i : Identifier)
    → IsRanked rules rank
    → rank i < f
    → (found : Option Rule) × (unwrap_rule_from_ident rules f i ≡ done found)
      × ((u : Rule) → found ≡ some u → IsUnwrapped rules u)
unwrap_rule_from_ident-IsUnwrapped rules rank f i d h =
    elim (Run-cases (unwrap_rule_from_ident rules f i)) [
      | inl q ↦ absurd (unwrap-returns rules rank f i d h q)
      | inr (found, q) ↦ (found, q, λ u e. unwrap-some rules f i u (cc (q, e)))
    ]

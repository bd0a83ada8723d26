-- ===== src/Tests/Grammar.antt =====
-- A small grammar, whose references go down in rank:  a = b / "x"   b = uint / 7
use cddl.Prelude.{
  ℕ, ◌<◌, true, false, none, List, [], ◌∷◌, String, codes, ◌≡◌, refl, sym, arith, if◌then◌else◌, In,
  ◌≢◌, first, later, ◌⊎◌, inl, inr, subst,
}
use cddl.Ast.{
  Identifier, identifier_eq, Type1, type1, MaybeOperator, no_operator, Type2, typename, text_value,
  uint_value, MaybeGenericArgs, no_generic_args, TypeExpr, no_type_choices, type_choice,
  type_choices, TypeRule, Rule, display_identifier,
}
use cddl.Validator.DataTypes.Refers.{IsRanked}

abbrev pub name : String → Identifier
name s = record { ident = codes s; socket = none }

abbrev pub plain : Type2 → Type1
plain t = type1 t no_operator

abbrev pub refer : String → Type1
refer s = plain (typename (name s) no_generic_args)

abbrev pub type_rule : String → TypeExpr → TypeRule
type_rule s t = record {
  name = name s;
  generic_params = none;
  is_type_choice_alternate = false;
  value = t;
}

abbrev pub rule_a : TypeRule
rule_a =
    type_rule "a"
      (type_choice (refer "b") (type_choice (plain (text_value (codes "x"))) no_type_choices))

abbrev pub rule_b : TypeRule
rule_b =
    type_rule "b" (type_choice (refer "uint") (type_choice (plain (uint_value 7)) no_type_choices))

abbrev pub grammar : List Rule
grammar = Rule.type rule_a ∷ Rule.type rule_b ∷ []

abbrev pub rank : Identifier → ℕ
rank i = if identifier_eq (name "a") i then 2 else if identifier_eq (name "b") i then 1 else 0

In-cases : {A : Type 0} {x y : A} {xs : List A} → In x (y ∷ xs) → (x ≡ y) ⊎ In x xs
In-cases first = inl refl
In-cases (later m) = inr m

In-nothing : {A : Type 0} {x : A} → In x [] → ⊥
In-nothing m = elim m [ ]

pub In-one : {A : Type 0} {x y : A} → In x (y ∷ []) → x ≡ y
In-one m = elim (In-cases m) [ inl e ↦ e | inr n ↦ absurd (In-nothing n) ]

In-two : {A : Type 0} {x y z : A} → In x (y ∷ z ∷ []) → (x ≡ y) ⊎ (x ≡ z)
In-two m = elim (In-cases m) [
  | inl e ↦ inl e
  | inr n ↦ elim (In-cases n) [ inl e ↦ inr e | inr k ↦ absurd (In-nothing k) ]
]

-- The one name among two choices, of which the second is a literal.
In-choices :
    (j : Identifier) (args : MaybeGenericArgs) (op : MaybeOperator) (s : String) (t : Type2)
    → (typename j args ≢ t)
    → In (type1 (typename j args) op) (refer s ∷ plain t ∷ [])
    → j ≡ name s
In-choices j args op s t ne m = elim (In-two m) [ inl e ↦ cc | inr e ↦ absurd (ne (cc)) ]

rank_b : rank (name "b") ≡ 1
unfolding identifier_eq display_identifier
rank_b = refl

rank_uint : rank (name "uint") ≡ 0
unfolding identifier_eq display_identifier
rank_uint = refl

b_below : (i : Identifier) → identifier_eq (name "a") i ≡ true → rank (name "b") < rank i
b_below i h = rw h (omega (arith, rank_b))

uint_below : (i : Identifier) → identifier_eq (name "b") i ≡ true → rank (name "uint") < rank i
uint_below i h = subst (λ n. n < rank i) (sym rank_uint) (rw h (ground arith))

below :
    (i j : Identifier) (r : TypeRule) (args : MaybeGenericArgs) (op : MaybeOperator)
    → (Rule.type r ≡ Rule.type rule_a) ⊎ (Rule.type r ≡ Rule.type rule_b)
    → identifier_eq r.name i ≡ true
    → In (type1 (typename j args) op) (type_choices r.value)
    → rank j < rank i
below i j r args op (inl e) h m =
    subst (λ k. rank k < rank i)
      (sym (
        In-choices j args op "b" _ (cc) (
          subst (λ q. In (type1 (typename j args) op) (type_choices (q.value))) {x = r} {y = rule_a}
            (cc) m)))
      (b_below i (subst (λ q. identifier_eq (q.name) i ≡ true) {x = r} {y = rule_a} (cc) h))
below i j r args op (inr e) h m =
    subst (λ k. rank k < rank i)
      (sym (
        In-choices j args op "uint" _ (cc) (
          subst (λ q. In (type1 (typename j args) op) (type_choices (q.value))) {x = r} {y = rule_b}
            (cc) m)))
      (uint_below i (subst (λ q. identifier_eq (q.name) i ≡ true) {x = r} {y = rule_b} (cc) h))

pub grammar-IsRanked : IsRanked grammar rank
grammar-IsRanked i j r = below i j r.rule r.args r.op (In-two r.listed) r.named r.choice

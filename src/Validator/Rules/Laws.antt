-- ===== src/Validator/Rules/Laws.antt =====
-- The rule look-ups of src/validator/mod.rs: which rule is found, how the look-ups agree, and that
-- between them they find every rule of a name.
use cddl.Prelude.{
  ℕ, ◌+◌, Bool, true, not, ◌&&◌, Option, none, some, List, [], ◌∷◌, ◌++◌, ◌≡◌, ◌↔◌, refl, arith, ap,
  find, length, if◌then◌else◌, Bool-cases, inl, inr, In, first, later, false,
}
use cddl.Ast.{Identifier, identifier_eq, TypeRule, GroupRule, Rule}
use cddl.Validator.Rules.{
  is_base_rule, rule_from_ident, group_rule_from_ident, type_rule_from_ident,
  type_choice_alternates_from_ident, group_choice_alternates_from_ident,
}

-- A rule of the name that is not a choice alternate of its kind.
abbrev pub IsBase : Identifier → Rule → Type 0
IsBase i (Rule.type r) = (identifier_eq r.name i ≡ true) × (r.is_type_choice_alternate ≡ false)
IsBase i (Rule.group r) = (identifier_eq r.name i ≡ true) × (r.is_group_choice_alternate ≡ false)

is_base_rule-IsBase : (i : Identifier) (r : Rule) → (is_base_rule i r ≡ true) ↔ IsBase i r
unfolding is_base_rule
is_base_rule-IsBase i (Rule.type r) = ground arith
is_base_rule-IsBase i (Rule.group r) = ground arith

-- `x` is the first element of `xs` with the property `P`.
pub record IsFirst {ℓ κ} {A : Type ℓ} (P : A → Type κ) (xs : List A) (x : A) : Type (ℓ ⊔ κ) where
  pub before : List A
  pub after : List A
  pub splits : xs ≡ before ++ x ∷ after
  pub passes : P x
  pub none_before : (y : A) → In y before → ¬ P y

module _ {ℓ κ} {A : Type ℓ} (p : A → Bool) (P : A → Type κ)
    (iff : (x : A) → (p x ≡ true) ↔ P x) where
  -- A further element in front that is not the one looked for.
  none_later :
      (y : A) (ys : List A)
      → p y ≡ false
      → ((z : A) → In z ys → ¬ P z)
      → (z : A) → In z (y ∷ ys)
      → ¬ P z
  none_later y ys h n _ first q = cc (h, (iff y).1 q)
  none_later y ys h n z (later m) q = n z m q

  find-IsFirst : (xs : List A) (x : A) → find p xs ≡ some x → IsFirst P xs x
  find-IsFirst [] x e = cc
  find-IsFirst (y ∷ ys) x e = elim (Bool-cases (p y)) [
    | inl h ↦ record {
      before = [];
      after = ys;
      splits = ground arith;
      passes = (iff x).0 (ground arith);
      none_before = λ z m q. elim m [ ];
    }
    | inr h ↦
        let f = find-IsFirst ys x (rw h at e) in
        record {
          before = y ∷ f.before;
          after = f.after;
          splits = ap (◌∷◌ y) f.splits;
          passes = f.passes;
          none_before = none_later y f.before h f.none_before;
        }
  ]

  IsFirst-find :
      (before after : List A) (x : A)
      → P x
      → ((y : A) → In y before → ¬ P y)
      → find p (before ++ x ∷ after) ≡ some x
  IsFirst-find [] after x h n = rw ((iff x).1 h) refl
  IsFirst-find (y ∷ ys) after x h n = elim (Bool-cases (p y)) [
    | inl e ↦ absurd (n y first ((iff y).0 e))
    | inr e ↦ rw e (IsFirst-find ys after x h (λ z m. n z (later m)))
  ]

-- `rule_from_ident` returns the first rule that has the name and is not a choice alternate of its kind.
pub rule_from_ident-IsFirst :
    (rules : List Rule) (i : Identifier) (r : Rule)
    → (rule_from_ident rules i ≡ some r) ↔ IsFirst (IsBase i) rules r
unfolding rule_from_ident
rule_from_ident-IsFirst rules i r = (
  find-IsFirst (is_base_rule i) (IsBase i) (is_base_rule-IsBase i) rules r,
  λ f. rw f.splits (
      IsFirst-find (is_base_rule i) (IsBase i) (is_base_rule-IsBase i) f.before f.after r f.passes
        f.none_before),
)

-- What the typed look-ups return, given what `rule_from_ident` does.
abbrev pub Agree : Option Rule → Option TypeRule → Option GroupRule → Type 0
Agree none t g = (t ≡ none) × (g ≡ none)
Agree (some (Rule.type r)) t g = t ≡ some r
Agree (some (Rule.group r)) t g = g ≡ some r

-- `type_rule_from_ident` and `group_rule_from_ident` find the rule that `rule_from_ident` finds, each
-- for its own kind, and both find nothing when it finds nothing.
pub rule_from_ident-Agree :
    (rules : List Rule) (i : Identifier)
    → Agree (rule_from_ident rules i) (type_rule_from_ident rules i) (group_rule_from_ident rules i)
unfolding rule_from_ident type_rule_from_ident group_rule_from_ident
rule_from_ident-Agree [] i = (refl, refl)
rule_from_ident-Agree (Rule.type r ∷ rules) i =
    elim (Bool-cases (identifier_eq r.name i && not r.is_type_choice_alternate)) [
      | inl h ↦ rw h refl
      | inr h ↦ rw h (rule_from_ident-Agree rules i)
    ]
rule_from_ident-Agree (Rule.group r ∷ rules) i =
    elim (Bool-cases (identifier_eq r.name i && not r.is_group_choice_alternate)) [
      | inl h ↦ rw h refl
      | inr h ↦ rw h (rule_from_ident-Agree rules i)
    ]

abbrev pub is_named : Identifier → Rule → Bool
is_named i (Rule.type r) = identifier_eq r.name i
is_named i (Rule.group r) = identifier_eq r.name i

abbrev pub count_passing {ℓ} : {A : Type ℓ} → (A → Bool) → List A → ℕ
count_passing p [] = 0
count_passing p (x ∷ xs) = (if p x then 1 else 0) + count_passing p xs

-- Every rule of a name is a base rule, a type choice alternate or a group choice alternate, and just
-- one of these: the numbers found add up to the number of rules of the name.
pub alternates_partition :
    (rules : List Rule) (i : Identifier)
    → count_passing (is_named i) rules
      ≡ count_passing (is_base_rule i) rules
        + length (type_choice_alternates_from_ident rules i)
        + length (group_choice_alternates_from_ident rules i)
unfolding is_base_rule type_choice_alternates_from_ident group_choice_alternates_from_ident
alternates_partition [] i = omega arith
alternates_partition (Rule.type r ∷ rules) i = ground (arith, alternates_partition rules i)
alternates_partition (Rule.group r ∷ rules) i = ground (arith, alternates_partition rules i)

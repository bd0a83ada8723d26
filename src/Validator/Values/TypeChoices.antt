-- ===== src/Validator/Values/TypeChoices.antt =====
-- What `type_choices_from_group_choice` of src/validator/mod.rs gathers.
use cddl.Prelude.{
  ℕ, zero, suc, Option, some, List, [], ◌∷◌, ◌≡◌, ◌≢◌, ◌↔◌, inl, inr, arith, In, Option-cases,
  subst, ◌<◌, sym,
}
use cddl.Prelude.Fuel.{Run, done, out_of_fuel}
use cddl.Prelude.Fuel.Laws.{
  append_each-from, append_each-all, not-In_nil, done-injective, Run-cases,
  append_each-ne-out_of_fuel,
}
use cddl.Ast.{
  Identifier, Type1, MaybeGenericArgs, MaybeMemberKey, TypeExpr, type_choices, Group, group_choices,
  GroupChoice, group_entries, GroupEntry, Rule, TypeRule, GroupRule, Occur,
}
use cddl.Ast.Convert.{group_choice_new}
use cddl.Validator.Rules.{rule_from_ident}
use cddl.Validator.Values.{entry_type_choices, type_choices_from_group_choice}

-- The choice is offered by an entry of the group choice: by a value, by the named type rule, by the
-- entry of the named group rule, or by a choice of an inline group.
pub data Offers (rules : List Rule) : GroupChoice → Type1 → Type 0 where
  by_value :
      {c : GroupChoice} {t : Type1} {o : Option Occur} {k : MaybeMemberKey} {v : TypeExpr}
      → In (GroupEntry.value_member_key o k v) (group_entries c)
      → In t (type_choices v)
      → Offers rules c t
  by_type_rule :
      {c : GroupChoice} {t : Type1} {o : Option Occur} {name : Identifier} {args : MaybeGenericArgs}
      {r : TypeRule}
      → In (GroupEntry.type_groupname o name args) (group_entries c)
      → rule_from_ident rules name ≡ some (Rule.type r)
      → In t (type_choices r.value)
      → Offers rules c t
  by_group_rule :
      {c : GroupChoice} {t : Type1} {o : Option Occur} {name : Identifier} {args : MaybeGenericArgs}
      {r : GroupRule}
      → In (GroupEntry.type_groupname o name args) (group_entries c)
      → rule_from_ident rules name ≡ some (Rule.group r)
      → Offers rules (group_choice_new (r.entry ∷ [])) t
      → Offers rules c t
  by_inline_group :
      {c d : GroupChoice} {t : Type1} {o : Option Occur} {g : Group}
      → In (GroupEntry.inline_group o g) (group_entries c)
      → In d (group_choices g)
      → Offers rules d t
      → Offers rules c t

module _ (rules : List Rule) (rec : GroupChoice → Run (List Type1)) where
  entry-Offers :
      ((d : GroupChoice) (us : List Type1) (t : Type1)
        → rec d ≡ done us
        → In t us
        → Offers rules d t)
      → (c : GroupChoice) (e : GroupEntry) (zs : List Type1) (t : Type1) → In e (group_entries c)
      → entry_type_choices rules rec e ≡ done zs
      → In t zs
      → Offers rules c t
  unfolding entry_type_choices
  entry-Offers ih c (GroupEntry.value_member_key o k v) zs t m e n =
      by_value m (subst (In t) (sym (done-injective e)) n)
  entry-Offers ih c (GroupEntry.inline_group o g) zs t m e n =
      let (d, us, l, q, w) = append_each-from rec (group_choices g) zs e n in
      by_inline_group m l (ih d us t q w)
  entry-Offers ih c (GroupEntry.type_groupname o name args) zs t m e n =
      elim (Option-cases (rule_from_ident rules name)) [
        | inl q ↦
            absurd
              (not-In_nil (subst (In t) (sym (done-injective (rw (q, entry_type_choices) at e))) n))
        | inr (Rule.type r, q) ↦
            by_type_rule m q
              (subst (In t) (sym (done-injective (rw (q, entry_type_choices) at e))) n)
        | inr (Rule.group r, q) ↦ by_group_rule m q (ih _ zs t (rw (q, entry_type_choices) at e) n)
      ]

type_choices-Offers :
    (rules : List Rule) (f : ℕ) (c : GroupChoice) (ts : List Type1) (t : Type1)
    → type_choices_from_group_choice rules f c ≡ done ts
    → In t ts
    → Offers rules c t
unfolding type_choices_from_group_choice
type_choices-Offers rules zero c ts t e m = cc
type_choices-Offers rules (suc f) c ts t e m =
    let (g, zs, l, q, n) = append_each-from _ (group_entries c) ts e m in
    entry-Offers rules _ (type_choices-Offers rules f) c g zs t l q n

Offers-type_choices :
    (rules : List Rule) (f : ℕ) (c : GroupChoice) (ts : List Type1) (t : Type1)
    → type_choices_from_group_choice rules f c ≡ done ts
    → Offers rules c t
    → In t ts
unfolding type_choices_from_group_choice
Offers-type_choices rules zero c ts t e w = cc
Offers-type_choices rules (suc f) c ts t e (by_value m n) =
    let (zs, p, h) = append_each-all _ ts m e in h t (subst (In t) (done-injective p) n)
Offers-type_choices rules (suc f) c ts t e (by_type_rule m q n) =
    let (zs, p, h) = append_each-all _ ts m e in
    h t (subst (In t) (done-injective (rw (q, entry_type_choices) at p)) n)
Offers-type_choices rules (suc f) c ts t e (by_group_rule m q w) =
    let (zs, p, h) = append_each-all _ ts m e in
    h t (Offers-type_choices rules f _ zs t (rw (q, entry_type_choices) at p) w)
Offers-type_choices rules (suc f) c ts t e (by_inline_group {d = d} m l w) =
    let (zs, p, h) = append_each-all _ ts m e in
    let (us, q, k) = append_each-all _ zs l p in h t (k t (Offers-type_choices rules f d us t q w))

-- The nesting of groups, inline or by name, goes down in rank.
pub record IsNested (rules : List Rule) (rank : GroupChoice → ℕ) : Type 0 where
  pub inline_below :
      (c d : GroupChoice) (o : Option Occur) (g : Group)
      → In (GroupEntry.inline_group o g) (group_entries c)
      → In d (group_choices g)
      → rank d < rank c
  pub named_below :
      (c : GroupChoice) (o : Option Occur) (name : Identifier) (args : MaybeGenericArgs)
      (r : GroupRule)
      → In (GroupEntry.type_groupname o name args) (group_entries c)
      → rule_from_ident rules name ≡ some (Rule.group r)
      → rank (group_choice_new (r.entry ∷ [])) < rank c

entry-returns :
    (rules : List Rule) (rank : GroupChoice → ℕ) (rec : GroupChoice → Run (List Type1))
    → IsNested rules rank
    → (c : GroupChoice) (e : GroupEntry)
    → ((d : GroupChoice) → rank d < rank c → rec d ≢ out_of_fuel)
    → In e (group_entries c)
    → entry_type_choices rules rec e ≢ out_of_fuel
unfolding entry_type_choices
entry-returns rules rank rec n c (GroupEntry.value_member_key o k v) h m = λ e. cc
entry-returns rules rank rec n c (GroupEntry.inline_group o g) h m =
    append_each-ne-out_of_fuel rec (group_choices g) (λ d l. h d (n.inline_below c d o g m l))
entry-returns rules rank rec n c (GroupEntry.type_groupname o name args) h m =
    elim (Option-cases (rule_from_ident rules name)) [
      | inl q ↦ rw (q, entry_type_choices) (λ e. cc)
      | inr (Rule.type r, q) ↦ rw (q, entry_type_choices) (λ e. cc)
      | inr (Rule.group r, q) ↦ rw (q, entry_type_choices) (h _ (n.named_below c o name args r m q))
    ]

type_choices-returns :
    (rules : List Rule) (rank : GroupChoice → ℕ) (f : ℕ) (c : GroupChoice)
    → IsNested rules rank
    → rank c < f
    → type_choices_from_group_choice rules f c ≢ out_of_fuel
unfolding type_choices_from_group_choice
type_choices-returns rules rank zero c n h = absurd (omega arith)
type_choices-returns rules rank (suc f) c n h =
    append_each-ne-out_of_fuel _ (group_entries c) (λ e m.
      entry-returns rules rank _ n c e (λ d l. type_choices-returns rules rank f d n (omega arith))
        m)

-- In a grammar whose groups nest downwards in rank, with fuel above the rank of the group choice,
-- `type_choices_from_group_choice` returns, and what it returns is exactly the type choices that the
-- entries of the group choice offer.
pub type_choices_from_group_choice-Offers :
    (rules : List Rule) (rank : GroupChoice → ℕ) (f : ℕ) (c : GroupChoice)
    → IsNested rules rank
    → rank c < f
    → (ts : List Type1) × (type_choices_from_group_choice rules f c ≡ done ts)
      × ((t : Type1) → In t ts ↔ Offers rules c t)
type_choices_from_group_choice-Offers rules rank f c n h =
    elim (Run-cases (type_choices_from_group_choice rules f c)) [
      | inl q ↦ absurd (type_choices-returns rules rank f c n h q)
      | inr (ts, q) ↦
          (ts, q, λ t. (type_choices-Offers rules f c ts t q, Offers-type_choices rules f c ts t q))
    ]

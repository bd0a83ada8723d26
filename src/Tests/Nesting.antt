-- ===== src/Tests/Nesting.antt =====
-- A group rule  g = (5)  and the group choice  (g, (7 // g)), whose nesting goes down in depth.
use cddl.Prelude.{
  ℕ, suc, ◌+◌, ◌≤◌, ◌<◌, true, false, none, some, List, [], ◌∷◌, ◌≡◌, sym, subst, arith, In, first,
  later, Bool-cases, inl, inr,
}
use cddl.Ast.{
  Identifier, no_member_key, uint_value, no_generic_args, no_type_choices, type_choice, Group,
  GroupChoice, GroupEntry, no_group_choices, group_choice, no_group_entries, group_entry,
  value_member_key, type_groupname, inline_group, group_choices, group_entries, GroupRule, Rule,
}
use cddl.Ast.Convert.{group_choice_new}
use cddl.Validator.Rules.{rule_from_ident, is_base_rule}
use cddl.Validator.Values.TypeChoices.{IsNested}
use cddl.Tests.Grammar.{name, plain}

abbrev mutual
  pub depth : GroupChoice → ℕ
  depth no_group_entries = 0
  depth (group_entry e comma c) = entry_depth e + depth c

  pub entry_depth : GroupEntry → ℕ
  entry_depth (value_member_key o k t) = 0
  entry_depth (type_groupname o i args) = 1
  entry_depth (inline_group o g) = suc (group_depth g)

  pub group_depth : Group → ℕ
  group_depth no_group_choices = 0
  group_depth (group_choice c g) = depth c + group_depth g

abbrev pub number : ℕ → GroupEntry
number n = value_member_key none no_member_key (type_choice (plain (uint_value n)) no_type_choices)

abbrev pub rule_g : GroupRule
rule_g = record {
  name = name "g";
  generic_params = none;
  is_group_choice_alternate = false;
  entry = number 5;
}

abbrev pub groups : List Rule
groups = Rule.group rule_g ∷ []

abbrev refer_g : GroupEntry
refer_g = type_groupname none (name "g") no_generic_args

abbrev pub nested : GroupChoice
nested = group_entry refer_g true (
    group_entry
      (inline_group none (
        group_choice (group_entry (number 7) false no_group_entries)
          (group_choice (group_entry refer_g false no_group_entries) no_group_choices)))
      false no_group_entries)

entry-below : (e : GroupEntry) (c : GroupChoice) → In e (group_entries c) → entry_depth e ≤ depth c
entry-below e no_group_entries m = elim m [ ]
entry-below e (group_entry e' comma c) first = omega arith
entry-below e (group_entry e' comma c) (later m) = omega (arith, entry-below e c m)

choice-below : (d : GroupChoice) (g : Group) → In d (group_choices g) → depth d ≤ group_depth g
choice-below d no_group_choices m = elim m [ ]
choice-below d (group_choice c g) first = omega arith
choice-below d (group_choice c g) (later m) = omega (arith, choice-below d g m)

found :
    (i : Identifier) (r : GroupRule) → rule_from_ident groups i ≡ some (Rule.group r) → r ≡ rule_g
unfolding rule_from_ident
found i r h = elim (Bool-cases (is_base_rule i (Rule.group rule_g))) [
  | inl e ↦ cc (rw e at h)
  | inr e ↦ cc (rw e at h)
]

pub groups-IsNested : IsNested groups depth
unfolding group_choice_new
groups-IsNested = record {
  inline_below =
      λ c d o g m n. omega (arith, entry-below (inline_group o g) c m, choice-below d g n);
  named_below = λ c o i args r m h.
      subst (λ q. depth (group_choice_new (q.entry ∷ [])) < depth c) (sym (found i r h))
        (entry-below (type_groupname o i args) c m);
}

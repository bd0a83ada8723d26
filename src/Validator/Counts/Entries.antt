-- ===== src/Validator/Counts/Entries.antt =====
-- What `entry_counts_from_group` counts.
use cddl.Prelude.{
  ℕ, suc, ◌+◌, ◌≤◌, Option, none, some, List, [], ◌∷◌, ◌++◌, ◌≡◌, refl, arith, map, length,
  append_assoc, append-nil, ap, ◌∙◌,
}
use cddl.Prelude.Fuel.{Run, done}
use cddl.Ast.{Occur, Group, GroupChoice, GroupEntry, group_choices, group_entries, Rule}
use cddl.Validator.Counts.{EntryCount, Tally, tally_entries, tally_choices, entry_counts_from_group}

-- Entries that are all values with an optional member key.
abbrev pub AreValues : List GroupEntry → Type 0
AreValues [] = Unit
AreValues (GroupEntry.value_member_key o k v ∷ es) = AreValues es
AreValues (e ∷ es) = ⊥

abbrev pub AllValues : List GroupChoice → Type 0
AllValues [] = Unit
AllValues (c ∷ cs) = AreValues (group_entries c) × AllValues cs

-- The occurrence indicator of the second entry.
abbrev pub occurrence_of : GroupEntry → Option Occur
occurrence_of (GroupEntry.value_member_key o k v) = o
occurrence_of (GroupEntry.type_groupname o name args) = o
occurrence_of (GroupEntry.inline_group o g) = o

abbrev pub second_occurrence : List GroupEntry → Option Occur
second_occurrence (d ∷ e ∷ es) = occurrence_of e
second_occurrence _ = none

abbrev pub count_of : List GroupEntry → EntryCount
count_of es = record { count = length es; entry_occurrence = second_occurrence es }

module _ (rec : Group → Run (List EntryCount)) (rules : List Rule) where
  -- From the third entry on only the count changes.
  tally_entries-rest :
      (es : List GroupEntry) (idx : ℕ) (t : Tally)
      → 2 ≤ idx
      → AreValues es
      → tally_entries rec rules idx es t ≡ done (record t { count = t.count + length es })
  unfolding tally_entries
  tally_entries-rest [] idx t h v = ground arith
  tally_entries-rest (GroupEntry.value_member_key none k x ∷ es) idx t h v =
      ground
        (arith, tally_entries-rest es (idx + 1) (record t { count = t.count + 1 }) (omega arith) v)
  tally_entries-rest (GroupEntry.value_member_key (some o) k x ∷ es) idx t h v =
      ground
        (arith, tally_entries-rest es (idx + 1) (record t { count = t.count + 1 }) (omega arith) v)
  tally_entries-rest (GroupEntry.type_groupname o name args ∷ es) idx t h v = absurd v
  tally_entries-rest (GroupEntry.inline_group o g ∷ es) idx t h v = absurd v

  tally_entries-AreValues :
      (es : List GroupEntry) (ecs : List EntryCount)
      → AreValues es
      → tally_entries rec rules 0 es
          (record { entry_counts = ecs; count = 0; entry_occurrence = none })
        ≡ done (record {
          entry_counts = ecs;
          count = length es;
          entry_occurrence = second_occurrence es;
        })
  unfolding tally_entries
  tally_entries-AreValues [] ecs v = refl
  tally_entries-AreValues (GroupEntry.value_member_key none k x ∷ []) ecs v = refl
  tally_entries-AreValues (GroupEntry.value_member_key (some o) k x ∷ []) ecs v = refl
  tally_entries-AreValues
        (GroupEntry.value_member_key o k x ∷ GroupEntry.value_member_key p l y ∷ es) ecs v =
      ground (
        arith,
        tally_entries-rest es 2 (record { entry_counts = ecs; count = 2; entry_occurrence = p })
            (omega arith) v,
      )
  tally_entries-AreValues (GroupEntry.value_member_key o k x ∷ GroupEntry.type_groupname p n a ∷ es)
        ecs v =
      absurd v
  tally_entries-AreValues (GroupEntry.value_member_key o k x ∷ GroupEntry.inline_group p g ∷ es) ecs
        v =
      absurd v
  tally_entries-AreValues (GroupEntry.type_groupname o name args ∷ es) ecs v = absurd v
  tally_entries-AreValues (GroupEntry.inline_group o g ∷ es) ecs v = absurd v

  tally_choices-AreValues :
      (cs : List GroupChoice) (ecs : List EntryCount)
      → AllValues cs
      → tally_choices rec rules cs ecs ≡ done (ecs ++ map (λ c. count_of (group_entries c)) cs)
  unfolding tally_choices
  tally_choices-AreValues [] ecs v = rw append-nil
  tally_choices-AreValues (c ∷ cs) ecs (v, vs) =
      rw (tally_entries-AreValues (group_entries c) ecs v) (
        tally_choices-AreValues cs _ vs
        ∙ ap done (append_assoc ecs (count_of (group_entries c) ∷ []) _))

  tally_entries-inline_group :
      (o : Option Occur) (h : Group) (ecs ecs' : List EntryCount)
      → rec h ≡ done ecs'
      → tally_entries rec rules 0
          (GroupEntry.inline_group o h ∷ [])
          (record { entry_counts = ecs; count = 0; entry_occurrence = none })
        ≡ done (record { entry_counts = ecs'; count = 0; entry_occurrence = none })
  unfolding tally_entries
  tally_entries-inline_group none h ecs ecs' r = rw (r, tally_entries)
  tally_entries-inline_group (some o) h ecs ecs' r = rw (r, tally_entries)

  -- The choice that holds just an inline group replaces the counts before it.
  tally_choices-inline_group :
      (cs : List GroupChoice) (c : GroupChoice) (o : Option Occur) (h : Group)
      (ecs ecs' : List EntryCount)
      → AllValues cs
      → group_entries c ≡ GroupEntry.inline_group o h ∷ []
      → rec h ≡ done ecs'
      → tally_choices rec rules (cs ++ c ∷ []) ecs
        ≡ done (ecs' ++ (record { count = 0; entry_occurrence = none }) ∷ [])
  unfolding tally_choices
  tally_choices-inline_group [] c o h ecs ecs' v e r =
      rw (e, tally_entries-inline_group o h ecs ecs' r)
  tally_choices-inline_group (d ∷ cs) c o h ecs ecs' (v, vs) e r =
      rw (tally_entries-AreValues (group_entries d) ecs v)
        (tally_choices-inline_group cs c o h _ ecs' vs e r)

-- A group whose entries are all values has one entry count for each choice: the number of its entries,
-- with the occurrence indicator of the second one.
pub entry_counts_from_group-AllValues :
    (rules : List Rule) (f : ℕ) (g : Group)
    → AllValues (group_choices g)
    → entry_counts_from_group rules (suc f) g
      ≡ done (map (λ c. count_of (group_entries c)) (group_choices g))
unfolding entry_counts_from_group
entry_counts_from_group-AllValues rules f g v =
    tally_choices-AreValues (entry_counts_from_group rules f) rules (group_choices g) [] v

-- Where the last choice of a group is a single inline group whose counts are returned, and the choices
-- before it are all values, the counts of those choices are lost: the result is the counts of the inline
-- group and then a count of 0.
pub entry_counts_from_group-inline_group :
    (rules : List Rule) (f : ℕ) (g h : Group) (o : Option Occur) (cs : List GroupChoice)
    (c : GroupChoice) (ecs : List EntryCount)
    → AllValues cs
    → group_choices g ≡ cs ++ c ∷ []
    → group_entries c ≡ GroupEntry.inline_group o h ∷ []
    → entry_counts_from_group rules f h ≡ done ecs
    → entry_counts_from_group rules (suc f) g
      ≡ done (ecs ++ (record { count = 0; entry_occurrence = none }) ∷ [])
unfolding entry_counts_from_group
entry_counts_from_group-inline_group rules f g h o cs c ecs v split e r =
    rw split
      (tally_choices-inline_group (entry_counts_from_group rules f) rules cs c o h [] ecs v e r)

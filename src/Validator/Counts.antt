-- ===== src/Validator/Counts.antt =====
-- src/validator/mod.rs: the numbers of entries of a group, and the check of an array's length against
-- an occurrence indicator. Counts are `u64`s that stay far below the bound, so plain numbers.
pub mod Length
pub mod Entries
use cddl.Prelude.{
  ℕ, zero, suc, ◌+◌, Bool, true, false, not, ◌&&◌, ◌||◌, Option, none, some, List, [], ◌∷◌, ◌++◌,
  map, Text, codes, leb, ltb, ◌==◌, if◌then◌else◌, length, is_empty, any, head?,
}
use cddl.Prelude.Decimal.{show_ℕ}
use cddl.Prelude.Fuel.{Run, done, out_of_fuel, ◌>>=◌, append_each}
use cddl.Ast.{
  Identifier, Occur, Group, GroupChoice, GroupEntry, group_choices, group_entries, Rule, GroupRule,
}
use cddl.Ast.Convert.{group_from_group_entry}
use cddl.Ast.Display.{display_occur}
use cddl.Validator.Rules.{group_rule_from_ident, group_choice_alternates_from_ident}

pub record EntryCount : Type 0 where
  pub count : ℕ
  pub entry_occurrence : Option Occur

-- The state of the loop over the entries of a choice.
pub record Tally : Type 0 where
  pub entry_counts : List EntryCount
  pub count : ℕ
  pub entry_occurrence : Option Occur

-- `if idx == 1 { if let Some(occur) = occur { entry_occurrence = … } }`
abbrev note_occurrence : ℕ → Option Occur → Option Occur → Option Occur
note_occurrence idx none seen = seen
note_occurrence idx (some o) seen = if idx == 1 then some o else seen

abbrev first_count : List EntryCount → ℕ
first_count [] = 0
first_count (ec ∷ ecs) = ec.count

-- What a named group adds to the tally, given its entry.
named_group : (Group → Run (List EntryCount)) → GroupEntry → Tally → Run Tally
named_group rec (GroupEntry.inline_group o g) t =
    if length (group_choices g) == 1
    then rec g >>= (λ ecs. done (record t { count = t.count + first_count ecs }))
    else rec g >>= (λ ecs. done (record t { entry_counts = t.entry_counts ++ ecs }))
named_group rec e t =
    rec (group_from_group_entry e)
    >>= (λ ecs. done (record t { entry_counts = t.entry_counts ++ ecs }))

-- What a name with no group rule adds: one entry, or those of its alternates.
alternates : (Group → Run (List EntryCount)) → List GroupEntry → Tally → Run Tally
alternates rec [] t = done (record t { count = t.count + 1 })
alternates rec (e ∷ es) t =
    append_each (λ a. rec (group_from_group_entry a)) (e ∷ es)
    >>= (λ ecs. done (record t { entry_counts = t.entry_counts ++ ecs }))

-- The body of the loop over the entries, the entry's index given.
tally_entry : (Group → Run (List EntryCount)) → List Rule → ℕ → GroupEntry → Tally → Run Tally
unfolding named_group alternates
tally_entry rec rules idx (GroupEntry.value_member_key o k v) t =
    done (record t {
      count = t.count + 1;
      entry_occurrence = note_occurrence idx o t.entry_occurrence;
    })
tally_entry rec rules idx (GroupEntry.inline_group o g) t = rec g >>= (λ ecs.
    done (record t {
      entry_counts = ecs;
      entry_occurrence = note_occurrence idx o t.entry_occurrence;
    }))
tally_entry rec rules idx (GroupEntry.type_groupname o name args) t =
    let noted = record t { entry_occurrence = note_occurrence idx o t.entry_occurrence } in
    elim (group_rule_from_ident rules name) [
      | some gr ↦ named_group rec gr.entry noted
      | none ↦ alternates rec (group_choice_alternates_from_ident rules name) noted
    ]

tally_entries :
    (Group → Run (List EntryCount)) → List Rule → ℕ → List GroupEntry → Tally → Run Tally
unfolding tally_entry
tally_entries rec rules idx [] t = done t
tally_entries rec rules idx (e ∷ es) t =
    tally_entry rec rules idx e t >>= (λ t'. tally_entries rec rules (idx + 1) es t')

-- The loop over the choices, with the counts so far.
tally_choices :
    (Group → Run (List EntryCount))
    → List Rule
    → List GroupChoice
    → List EntryCount
    → Run (List EntryCount)
unfolding tally_entries
tally_choices rec rules [] ecs = done ecs
tally_choices rec rules (c ∷ cs) ecs =
    tally_entries rec rules 0 (group_entries c)
      (record { entry_counts = ecs; count = 0; entry_occurrence = none })
    >>= (λ t. tally_choices rec rules cs (
        t.entry_counts ++ (record { count = t.count; entry_occurrence = t.entry_occurrence }) ∷ []))

unfoldable pub entry_counts_from_group : List Rule → ℕ → Group → Run (List EntryCount)
unfolding tally_choices
entry_counts_from_group rules zero g = out_of_fuel
entry_counts_from_group rules (suc f) g =
    tally_choices (entry_counts_from_group rules f) rules (group_choices g) []

unfoldable pub occurrence_allows : Option Occur → ℕ → Bool
occurrence_allows (some Occur.zero_or_more) n = true
occurrence_allows (some Occur.optional) n = true
occurrence_allows (some Occur.one_or_more) n = ltb 0 n
occurrence_allows (some (Occur.exact (some l) (some u))) n = leb l n && leb n u
occurrence_allows (some (Occur.exact (some l) none)) n = leb l n
occurrence_allows (some (Occur.exact none (some u))) n = leb n u
occurrence_allows (some (Occur.exact none none)) n = false
occurrence_allows none n = false

unfoldable pub validate_entry_count : List EntryCount → ℕ → Bool
unfolding occurrence_allows
validate_entry_count ecs n =
    any (λ ec. n == ec.count || occurrence_allows ec.entry_occurrence n) ecs

pub data LengthCheck : Type 0 where
  ok : Bool → Bool → LengthCheck
  err : List Text → LengthCheck

-- The `match` on the occurrence: `iter_items`, and the errors.
abbrev exact_errors : Option ℕ → Option ℕ → ℕ → List Text
exact_errors (some l) (some u) n =
    (if l == u && not (n == l)
      then (codes "array must have exactly " ++ (show_ℕ l ++ codes " items")) ∷ []
      else [])
    ++ (if ltb n l || ltb u n
        then (codes "array must have between "
            ++ (show_ℕ l ++ (codes " and " ++ (show_ℕ u ++ codes " items"))))
          ∷ []
        else [])
exact_errors (some l) none n =
    if ltb n l then (codes "array must have at least " ++ (show_ℕ l ++ codes " items")) ∷ [] else []
exact_errors none (some u) n =
    if ltb u n
    then (codes "array must have not more than " ++ (show_ℕ u ++ codes " items")) ∷ []
    else []
exact_errors none none n = []

abbrev check_occurrence : Option Occur → ℕ → Bool × List Text
check_occurrence (some Occur.zero_or_more) n = (true, [])
check_occurrence (some Occur.one_or_more) n =
    if n == 0 then (false, codes "array must have at least one item" ∷ []) else (true, [])
check_occurrence (some (Occur.exact l u)) n = (true, exact_errors l u n)
check_occurrence (some Occur.optional) n =
    (false, if ltb 1 n then codes "array must have 0 or 1 items" ∷ [] else [])
check_occurrence none n =
    (false, if n == 0 then codes "array must have exactly one item" ∷ [] else [])

abbrev entry_count_error : ℕ → EntryCount → Text
entry_count_error n ec = elim ec.entry_occurrence [
  | some o ↦ codes "expected array with length per occurrence " ++ display_occur o
  | none ↦ codes "expected array with length " ++ (show_ℕ ec.count ++ (codes ", got " ++ show_ℕ n))
]

abbrev entry_count_errors : Option (List EntryCount) → ℕ → List Text
entry_count_errors none n = []
entry_count_errors (some ecs) n =
    if validate_entry_count ecs n then [] else map (entry_count_error n) ecs

abbrev is_optional : Option Occur → Bool
is_optional (some Occur.optional) = true
is_optional _ = false

abbrev length_check : Bool → Bool → List Text → LengthCheck
length_check iter_items allow_empty_array [] = ok iter_items allow_empty_array
length_check iter_items allow_empty_array (e ∷ es) = err (e ∷ es)

unfoldable pub validate_array_occurrence {ℓ} :
    {A : Type ℓ} → Option Occur → Option (List EntryCount) → List A → LengthCheck
validate_array_occurrence occurrence entry_counts values =
    let n = length values in
    let (iter_items, errors) = check_occurrence occurrence n in
    let allow_empty_array = is_optional occurrence in
    length_check iter_items allow_empty_array (
      errors
      ++ (if not iter_items && not allow_empty_array
          then entry_count_errors entry_counts n
          else []))

-- ===== src/Validator/Counts/Length.antt =====
-- What the length checks of src/validator/mod.rs accept.
use cddl.Prelude.{
  ℕ, ◌≤◌, ◌<◌, Bool, true, false, not, ◌&&◌, ◌||◌, Option, none, some, List, Text, [], ◌∷◌, ◌++◌,
  ◌≡◌, ◌↔◌, ◌⊎◌, inl, inr, refl, arith, ◌==◌, if◌then◌else◌, length, any, In, first, later,
  Bool-cases, eq_of_test,
}
use cddl.Ast.{Occur}
use cddl.Validator.Counts.{
  EntryCount, occurrence_allows, validate_entry_count, LengthCheck, ok, err, check_occurrence,
  entry_count_errors, is_optional, length_check, validate_array_occurrence,
}

-- The lengths that an occurrence indicator behind the first entry admits.
abbrev pub Admits : Option Occur → ℕ → Type 0
Admits (some Occur.zero_or_more) n = Unit
Admits (some Occur.optional) n = Unit
Admits (some Occur.one_or_more) n = 0 < n
Admits (some (Occur.exact (some l) (some u))) n = (l ≤ n) × (n ≤ u)
Admits (some (Occur.exact (some l) none)) n = l ≤ n
Admits (some (Occur.exact none (some u))) n = n ≤ u
Admits (some (Occur.exact none none)) n = ⊥
Admits none n = ⊥

occurrence_allows-Admits : (o : Option Occur) (n : ℕ) → (occurrence_allows o n ≡ true) ↔ Admits o n
unfolding occurrence_allows
occurrence_allows-Admits (some Occur.zero_or_more) n = (λ e. tt, λ h. refl)
occurrence_allows-Admits (some Occur.optional) n = (λ e. tt, λ h. refl)
occurrence_allows-Admits (some Occur.one_or_more) n = ground arith
occurrence_allows-Admits (some (Occur.exact (some l) (some u))) n = ground arith
occurrence_allows-Admits (some (Occur.exact (some l) none)) n = ground arith
occurrence_allows-Admits (some (Occur.exact none (some u))) n = ground arith
occurrence_allows-Admits (some (Occur.exact none none)) n = (λ e. cc, absurd)
occurrence_allows-Admits none n = (λ e. cc, absurd)

-- The number of entries is that of the count, or admitted by its occurrence indicator.
abbrev pub Matches : EntryCount → ℕ → Type 0
Matches ec n = (n ≡ ec.count) ⊎ Admits ec.entry_occurrence n

count-Matches :
    (ec : EntryCount) (n : ℕ)
    → ((n == ec.count || occurrence_allows ec.entry_occurrence n) ≡ true) ↔ Matches ec n
count-Matches ec n =
    let (sound, complete) = occurrence_allows-Admits ec.entry_occurrence n in
    (
      λ e. elim (Bool-cases (n == ec.count)) [
        | inl q ↦ inl (eq_of_test n ec.count q)
        | inr q ↦ inr (sound (rw q at e))
      ],
      λ m. elim m [ inl q ↦ ground arith | inr h ↦ ground (arith, complete h) ],
    )

module _ {ℓ κ} {A : Type ℓ} (p : A → Bool) (P : A → Type κ)
    (iff : (x : A) → (p x ≡ true) ↔ P x) where
  any-In : (xs : List A) → any p xs ≡ true → (x : A) × In x xs × P x
  any-In [] e = cc
  any-In (x ∷ xs) e = elim (Bool-cases (p x)) [
    | inl h ↦ (x, first, (iff x).0 h)
    | inr h ↦ let (y, m, q) = any-In xs (rw h at e) in (y, later m, q)
  ]

  In-any : {x : A} {xs : List A} → In x xs → P x → any p xs ≡ true
  In-any {x} first q = rw ((iff x).1 q)
  In-any (later {y} m) q = ground (arith, In-any m q)

-- An array length passes the check of entry counts exactly when it matches one of them.
pub validate_entry_count-Matches :
    (ecs : List EntryCount) (n : ℕ)
    → (validate_entry_count ecs n ≡ true) ↔ ((ec : EntryCount) × In ec ecs × Matches ec n)
unfolding validate_entry_count
validate_entry_count-Matches ecs n = (
  any-In _ (λ ec. Matches ec n) (λ ec. count-Matches ec n) ecs,
  λ (ec, m, h). In-any _ (λ ec. Matches ec n) (λ ec. count-Matches ec n) m h,
)

-- The array lengths that an occurrence indicator in front of the entry allows.
abbrev pub Fits : Option Occur → ℕ → Type 0
Fits none n = 0 < n
Fits (some Occur.zero_or_more) n = Unit
Fits (some Occur.one_or_more) n = 0 < n
Fits (some Occur.optional) n = n ≤ 1
Fits (some (Occur.exact (some l) (some u))) n = (l ≤ n) × (n ≤ u)
Fits (some (Occur.exact (some l) none)) n = l ≤ n
Fits (some (Occur.exact none (some u))) n = n ≤ u
Fits (some (Occur.exact none none)) n = Unit

-- Whether the elements are validated as many items of one type.
abbrev pub is_repeated : Option Occur → Bool
is_repeated none = false
is_repeated (some Occur.optional) = false
is_repeated _ = true

-- Whether the indicator is `?`.
abbrev pub is_question_mark : Option Occur → Bool
is_question_mark none = false
is_question_mark (some Occur.optional) = true
is_question_mark (some Occur.zero_or_more) = false
is_question_mark (some Occur.one_or_more) = false
is_question_mark (some (Occur.exact l u)) = false

-- The entry counts matter only without an indicator, and an empty list of them is no constraint.
abbrev pub CountsFit : Option Occur → Option (List EntryCount) → ℕ → Type 0
CountsFit none (some (ec ∷ ecs)) n = validate_entry_count (ec ∷ ecs) n ≡ true
CountsFit o ecs n = Unit

-- The outcome that is expected, given whether the length is acceptable.
abbrev pub Accepts : Option Occur → LengthCheck → Type 0
Accepts o c = c ≡ ok (is_repeated o) (is_question_mark o)

-- The check on the length alone.
abbrev check_length : Option Occur → Option (List EntryCount) → ℕ → LengthCheck
check_length o ecs n =
    let (iter_items, errors) = check_occurrence o n in
    length_check iter_items (is_optional o)
      (errors ++ (if not iter_items && not (is_optional o) then entry_count_errors ecs n else []))

check_length-Fits :
    (o : Option Occur) (ecs : Option (List EntryCount)) (n : ℕ)
    → Accepts o (check_length o ecs n) ↔ (Fits o n × CountsFit o ecs n)
check_length-Fits none none n = ground arith
check_length-Fits none (some []) n = ground arith
check_length-Fits none (some (ec ∷ ecs)) n = ground arith
check_length-Fits (some Occur.zero_or_more) ecs n = ground arith
check_length-Fits (some Occur.optional) ecs n = ground arith
check_length-Fits (some Occur.one_or_more) ecs n = ground arith
check_length-Fits (some (Occur.exact (some l) (some u))) ecs n = ground arith
check_length-Fits (some (Occur.exact (some l) none)) ecs n = ground arith
check_length-Fits (some (Occur.exact none (some u))) ecs n = ground arith
check_length-Fits (some (Occur.exact none none)) ecs n = ground arith

-- A success carries the flags of the occurrence indicator, and a failure at least one message.
abbrev pub IsOutcome : Option Occur → LengthCheck → Type 0
IsOutcome o (ok iter_items allow_empty_array) =
    (iter_items ≡ is_repeated o) × (allow_empty_array ≡ is_question_mark o)
IsOutcome o (err []) = ⊥
IsOutcome o (err (e ∷ es)) = Unit

length_check-IsOutcome :
    (o : Option Occur) (iter_items allow_empty_array : Bool) (es : List Text)
    → iter_items ≡ is_repeated o
    → allow_empty_array ≡ is_question_mark o
    → IsOutcome o (length_check iter_items allow_empty_array es)
length_check-IsOutcome o iter_items allow_empty_array [] h k = (h, k)
length_check-IsOutcome o iter_items allow_empty_array (e ∷ es) h k = tt

check_length-IsOutcome :
    (o : Option Occur) (ecs : Option (List EntryCount)) (n : ℕ) → IsOutcome o (check_length o ecs n)
check_length-IsOutcome none ecs n = length_check-IsOutcome none false false _ refl refl
check_length-IsOutcome (some Occur.one_or_more) ecs n = elim (Bool-cases (n == 0)) [
  | inl h ↦ rw h tt
  | inr h ↦ rw h (refl, refl)
]
check_length-IsOutcome (some Occur.optional) ecs n =
    length_check-IsOutcome (some Occur.optional) false true _ refl refl
check_length-IsOutcome (some Occur.zero_or_more) ecs n = (refl, refl)
check_length-IsOutcome (some (Occur.exact l u)) ecs n =
    length_check-IsOutcome (some (Occur.exact l u)) true false _ refl refl

-- The check of an array's length succeeds exactly when the length fits the occurrence indicator and,
-- where there is no indicator, also the entry counts. A success carries two flags: the first is set for
-- every indicator but `?`, the second for `?` alone. A failure carries at least one message.
pub validate_array_occurrence-Fits {ℓ} :
    {A : Type ℓ} (o : Option Occur) (ecs : Option (List EntryCount)) (xs : List A)
    → (Accepts o (validate_array_occurrence o ecs xs)
        ↔ (Fits o (length xs) × CountsFit o ecs (length xs)))
      × IsOutcome o (validate_array_occurrence o ecs xs)
unfolding validate_array_occurrence
validate_array_occurrence-Fits o ecs xs =
    (check_length-Fits o ecs (length xs), check_length-IsOutcome o ecs (length xs))

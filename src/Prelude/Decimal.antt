-- ===== src/Prelude/Decimal.antt =====
-- Decimal notation: `{}` of an integer, and `str::parse` into `usize` and `isize` on a 64-bit target.
use cddl.Prelude.{
  ℕ, zero, suc, ◌+◌, ◌-◌, ◌*◌, ◌/◌, ◌%◌, ◌^◌, ◌<◌, ◌≡◌, refl, ap, ◌∙◌, Bool, true, false, [], ◌∷◌,
  Option, none, some, Text, arith, ltb, leb, within, ◌==◌, if◌then◌else◌, Bool-cases, inl, inr,
  is_empty, all,
}
use cddl.Prelude.Int.{ℤ, pos, negsuc, sub_ℕ}

abbrev pub usize_mod : ℕ
usize_mod = 2 ^ 64

abbrev pub is_digit : ℕ → Bool
is_digit c = within b'0' b'9' c

-- The digits of `n` in front of `acc`; the fuel bounds their number.
digits_onto : ℕ → ℕ → Text → Text
digits_onto zero n acc = acc
digits_onto (suc f) n acc =
    let rest = digits_onto f (n / 10) ((b'0' + n % 10) ∷ acc) in
    if ltb n 10 then (b'0' + n) ∷ acc else rest

unfoldable pub show_ℕ : ℕ → Text
unfolding digits_onto
show_ℕ n = digits_onto (suc n) n []

unfoldable pub show_ℤ : ℤ → Text
unfolding show_ℕ
show_ℤ (pos n) = show_ℕ n
show_ℤ (negsuc n) = b'-' ∷ show_ℕ (suc n)

-- The number that a run of digits denotes, behind the number read so far.
abbrev pub value_onto : ℕ → Text → ℕ
value_onto n [] = n
value_onto n (d ∷ ds) = value_onto (n * 10 + (d - b'0')) ds

-- Digits only, and at least one: their value.
abbrev pub digits_value : Text → Option ℕ
digits_value s = if is_empty s then none else if all is_digit s then some (value_onto 0 s) else none

abbrev pub strip_plus : Text → Text
strip_plus [] = []
strip_plus (c ∷ s) = if c == b'+' then s else c ∷ s

-- `none` is a `ParseIntError`.
unfoldable pub parse_usize : Text → Option ℕ
parse_usize s = elim (digits_value (strip_plus s)) [
  | none ↦ none
  | some n ↦ if ltb n usize_mod then some n else none
]

unfoldable pub parse_isize : Text → Option ℤ
parse_isize [] = none
parse_isize (c ∷ s) =
    if c == b'-'
    then elim (digits_value s) [
      | none ↦ none
      | some n ↦ if leb n (2 ^ 63) then some (sub_ℕ 0 n) else none
    ]
    else elim (digits_value (strip_plus (c ∷ s))) [
      | none ↦ none
      | some n ↦ if ltb n (2 ^ 63) then some (pos n) else none
    ]

-- The value after one more digit.
value_onto_step : (m n : ℕ) (acc : Text) → m ≡ n → value_onto m acc ≡ value_onto n acc
value_onto_step m n acc e = ap (λ k. value_onto k acc) e

value_onto-digits_onto :
    (f n : ℕ) (acc : Text) → n < f → value_onto 0 (digits_onto f n acc) ≡ value_onto n acc
unfolding digits_onto
value_onto-digits_onto zero n acc h = absurd (omega arith)
value_onto-digits_onto (suc f) n acc h = elim (Bool-cases (ltb n 10)) [
  | inl small ↦ rw small (value_onto_step (0 * 10 + (b'0' + n - b'0')) n acc (omega arith))
  | inr big ↦ rw big (
      value_onto-digits_onto f (n / 10) _ (ground arith)
      ∙ value_onto_step (n / 10 * 10 + (b'0' + n % 10 - b'0')) n acc (omega arith))
]

digits_onto-digits :
    (f n : ℕ) (acc : Text)
    → n < f
    → all is_digit acc ≡ true
    → all is_digit (digits_onto f n acc) ≡ true
unfolding digits_onto
digits_onto-digits zero n acc h d = d
digits_onto-digits (suc f) n acc h d = elim (Bool-cases (ltb n 10)) [
  | inl small ↦ rw small (ground arith)
  | inr big ↦ rw big (digits_onto-digits f (n / 10) _ (ground arith) (ground arith))
]

digits_onto-ne-nil : (f n : ℕ) (c : ℕ) (acc : Text) → is_empty (digits_onto f n (c ∷ acc)) ≡ false
unfolding digits_onto
digits_onto-ne-nil zero n c acc = refl
digits_onto-ne-nil (suc f) n c acc =
    ground (arith, digits_onto-ne-nil f (n / 10) (b'0' + n % 10) (c ∷ acc))

show_ℕ-ne-nil : (n : ℕ) → is_empty (show_ℕ n) ≡ false
unfolding show_ℕ
show_ℕ-ne-nil n = ground (arith, digits_onto-ne-nil n (n / 10) (b'0' + n % 10) [])

show_ℕ-digits : (n : ℕ) → all is_digit (show_ℕ n) ≡ true
unfolding show_ℕ
show_ℕ-digits n = digits_onto-digits (suc n) n [] (omega arith) refl

value_onto-show_ℕ : (n : ℕ) → value_onto 0 (show_ℕ n) ≡ n
unfolding show_ℕ
value_onto-show_ℕ n = value_onto-digits_onto (suc n) n [] (omega arith)

-- Printing and reading back.
pub digits_value-show_ℕ : (n : ℕ) → digits_value (show_ℕ n) ≡ some n
digits_value-show_ℕ n = rw (show_ℕ-ne-nil n, show_ℕ-digits n) (ap some (value_onto-show_ℕ n))

parse_usize-digits :
    (s : Text) (n : ℕ)
    → n < usize_mod
    → all is_digit s ≡ true
    → digits_value s ≡ some n
    → parse_usize s ≡ some n
unfolding parse_usize
parse_usize-digits [] n h d e = cc
parse_usize-digits (c ∷ s) n h d e = ground arith

pub parse_usize-show_ℕ : (n : ℕ) → n < usize_mod → parse_usize (show_ℕ n) ≡ some n
parse_usize-show_ℕ n h = parse_usize-digits (show_ℕ n) n h (show_ℕ-digits n) (digits_value-show_ℕ n)

-- The first digit of a number is neither sign.
parse_isize-digits :
    (s : Text) (n : ℕ)
    → n < 2 ^ 63
    → all is_digit s ≡ true
    → digits_value s ≡ some n
    → parse_isize s ≡ some (pos n)
unfolding parse_isize
parse_isize-digits [] n h d e = cc
parse_isize-digits (c ∷ s) n h d e = ground arith

pub parse_isize-pos : (n : ℕ) → n < 2 ^ 63 → parse_isize (show_ℕ n) ≡ some (pos n)
parse_isize-pos n h = parse_isize-digits (show_ℕ n) n h (show_ℕ-digits n) (digits_value-show_ℕ n)

pub parse_isize-negsuc : (n : ℕ) → n < 2 ^ 63 → parse_isize (show_ℤ (negsuc n)) ≡ some (negsuc n)
unfolding parse_isize show_ℤ
parse_isize-negsuc n h = rw (digits_value-show_ℕ (suc n)) (ground arith)

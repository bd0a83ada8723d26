-- ===== src/Validator/Control/Dedent/Lines.antt =====
-- src/validator/control.rs: `dedent_str` line by line.
use cddl.Prelude.{
  ℕ, Bool, true, false, not, List, [], ◌∷◌, ◌++◌, map, Text, ◌≡◌, refl, ◌∙◌, ap, ◌==◌, all,
  Bool-cases, and_right, inl, inr,
}
use cddl.Validator.Control.{Codecs}
use cddl.Validator.Control.Dedent.{trim_start, split_lines, join_lines, onto_first, dedent_str}

abbrev one_line : Text → Bool
one_line = all (λ c. not (c == b'\n'))

abbrev AreLines : List Text → Type 0
AreLines [] = Unit
AreLines (l ∷ ls) = (one_line l ≡ true) × AreLines ls

abbrev NonEmpty : List Text → Type 0
NonEmpty ls = (l : Text) × (rest : List Text) × (ls ≡ l ∷ rest)

split_lines-NonEmpty : (s : Text) → NonEmpty (split_lines s)
split_lines-NonEmpty [] = ([], [], refl)
split_lines-NonEmpty (c ∷ s) = elim (Bool-cases (c == b'\n')) [
  | inl e ↦ rw e ([], split_lines s, refl)
  | inr e ↦ rw e (onto (split_lines s))
]
  where
    onto : (ls : List Text) → NonEmpty (onto_first c ls)
    onto [] = (c ∷ [], [], refl)
    onto (l ∷ ls) = (c ∷ l, ls, refl)

split_lines-AreLines : (s : Text) → AreLines (split_lines s)
split_lines-AreLines [] = (refl, tt)
split_lines-AreLines (c ∷ s) = elim (Bool-cases (c == b'\n')) [
  | inl e ↦ rw e (refl, split_lines-AreLines s)
  | inr e ↦ rw e (onto e (split_lines s) (split_lines-AreLines s))
]
  where
    onto : (c == b'\n') ≡ false → (ls : List Text) → AreLines ls → AreLines (onto_first c ls)
    onto e [] h = (rw e refl, tt)
    onto e (l ∷ ls) h = (rw e h.0, h.1)

-- Splitting behind a line.
split_lines-line :
    (l t : Text) → one_line l ≡ true → split_lines (l ++ b'\n' ∷ t) ≡ l ∷ split_lines t
split_lines-line [] t h = refl
split_lines-line (c ∷ l) t h = elim (Bool-cases (c == b'\n')) [
  | inl e ↦ absurd (cc (rw e at h))
  | inr e ↦
      rw e (ap (onto_first c) (split_lines-line l t (and_right (not (c == b'\n')) (one_line l) h)))
]

split_lines-last : (l : Text) → one_line l ≡ true → split_lines l ≡ l ∷ []
split_lines-last [] h = refl
split_lines-last (c ∷ l) h = elim (Bool-cases (c == b'\n')) [
  | inl e ↦ absurd (cc (rw e at h))
  | inr e ↦
      rw e (ap (onto_first c) (split_lines-last l (and_right (not (c == b'\n')) (one_line l) h)))
]

split_lines-join_lines :
    (l : Text) (ls : List Text) → AreLines (l ∷ ls) → split_lines (join_lines (l ∷ ls)) ≡ l ∷ ls
split_lines-join_lines l [] h = split_lines-last l h.0
split_lines-join_lines l (m ∷ ls) h =
    split_lines-line l (join_lines (m ∷ ls)) h.0 ∙ ap (λ k. l ∷ k) (split_lines-join_lines m ls h.1)

module _ (p : ℕ → Bool) where
  trim_start-one_line : (l : Text) → one_line l ≡ true → one_line (trim_start p l) ≡ true
  trim_start-one_line [] h = refl
  trim_start-one_line (c ∷ l) h = elim (Bool-cases (p c)) [
    | inl e ↦ rw e (trim_start-one_line l (and_right (not (c == b'\n')) (one_line l) h))
    | inr e ↦ rw e h
  ]

  map-AreLines : (ls : List Text) → AreLines ls → AreLines (map (trim_start p) ls)
  map-AreLines [] h = tt
  map-AreLines (l ∷ ls) h = (trim_start-one_line l h.0, map-AreLines ls h.1)

  trimmed :
      (ls : List Text)
      → NonEmpty ls
      → AreLines ls
      → split_lines (join_lines (map (trim_start p) ls)) ≡ map (trim_start p) ls
  trimmed [] (l, rest, e) h = absurd (cc)
  trimmed (l ∷ ls) n h =
      split_lines-join_lines (trim_start p l) (map (trim_start p) ls) (map-AreLines (l ∷ ls) h)

  trim_start_twice : (l : Text) → trim_start p (trim_start p l) ≡ trim_start p l
  trim_start_twice [] = refl
  trim_start_twice (c ∷ l) = elim (Bool-cases (p c)) [
    | inl e ↦ rw e (trim_start_twice l)
    | inr e ↦ rw e (rw e refl)
  ]

  map-trim_start_twice :
      (ls : List Text) → map (trim_start p) (map (trim_start p) ls) ≡ map (trim_start p) ls
  map-trim_start_twice [] = refl
  map-trim_start_twice (l ∷ ls) = ap2 (trim_start_twice l) (map-trim_start_twice ls)
    where
      ap2 : {a b : Text} {k m : List Text} → a ≡ b → k ≡ m → (a ∷ k) ≡ (b ∷ m)
      ap2 e f = cc

-- The lines of a dedented text are the lines of the text, each without its leading whitespace; and a
-- dedented text is left alone when it is dedented again.
pub split_lines-dedent_str :
    (x : Codecs) (s : Text)
    → (split_lines (dedent_str x s) ≡ map (trim_start x.is_whitespace) (split_lines s))
      × (dedent_str x (dedent_str x s) ≡ dedent_str x s)
unfolding dedent_str
split_lines-dedent_str x s = (
  lines,
  ap (λ ls. join_lines (map (trim_start x.is_whitespace) ls)) lines
      ∙ ap join_lines (map-trim_start_twice x.is_whitespace (split_lines s)),
)
  where
    lines :
        split_lines (join_lines (map (trim_start x.is_whitespace) (split_lines s)))
        ≡ map (trim_start x.is_whitespace) (split_lines s)
    lines =
        trimmed x.is_whitespace (split_lines s) (split_lines-NonEmpty s) (split_lines-AreLines s)

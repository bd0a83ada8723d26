-- ===== src/Lexer/Strings/Quoted.antt =====
-- src/lexer.rs: `read_text_value` on a text behind its opening quote.
use cddl.Prelude.{
  ℕ, zero, suc, ◌+◌, ◌-◌, ◌<◌, ◌≤◌, true, false, none, some, List, [], ◌∷◌, ◌++◌, ◌≡◌, refl, sym,
  ◌∙◌, ap, arith, ◌==◌, leb, length, Text, head?, all, and_left, and_right, subst,
}
use cddl.Lexer.Chars.{
  slice, drop_bytes, take_bytes, cons_text, byte_len, utf8_len, char_indices, is_schar,
}
use cddl.Lexer.State.{
  Externals, Lexer, Step, ok, err, panic, out_of_fuel, get_slice, pass_char, read_char, fail, lexer,
  unable_to_advance_token, ◌>>=◌,
}
use cddl.Lexer.Strings.{text_value_loop, read_text_value}

utf8_len-positive : (c : ℕ) → 0 < utf8_len c
utf8_len-positive c = ground arith

sum_nonzero : (a b : ℕ) → 0 < a → (a + b == 0) ≡ false
sum_nonzero a b h = ground arith

leb-sum : (a b : ℕ) → leb a (a + b) ≡ true
leb-sum a b = ground arith

-- The bytes of a text in front of another.
take_bytes-append : (u v : Text) → take_bytes (u ++ v) (byte_len u) ≡ some u
take_bytes-append [] [] = refl
take_bytes-append [] (c ∷ v) = refl
take_bytes-append (c ∷ u) v =
    rw
      (
        sum_nonzero (utf8_len c) (byte_len u) (utf8_len-positive c),
        leb-sum (utf8_len c) (byte_len u),
        difference,
      )
      (ap (cons_text c) (take_bytes-append u v))
  where
    difference : utf8_len c + byte_len u - utf8_len c ≡ byte_len u
    difference = omega arith

drop_bytes-zero : (v : Text) → drop_bytes v 0 ≡ some v
drop_bytes-zero [] = refl
drop_bytes-zero (c ∷ v) = refl

module _ (x : Externals) where
  open x use {MultiPeek, multipeek_next}

  -- The state behind the first character.
  abbrev after : Lexer MultiPeek → ℕ → ℕ → List (ℕ × ℕ) → Lexer MultiPeek
  after s i c rest = record s {
    input = rest;
    multipeek = multipeek_next s.multipeek;
    position = pass_char s.position i c;
  }

  -- A read where a character is left.
  read_char-cons :
      (s : Lexer MultiPeek) (i c : ℕ) (rest : List (ℕ × ℕ))
      → s.input ≡ (i, c) ∷ rest
      → read_char x s ≡ ok (i, c) (after s i c rest)
  unfolding read_char
  read_char-cons s i c rest e =
      ap
        (λ cs. elim cs as (λ v. Step MultiPeek (ℕ × ℕ)) [
          | [] ↦
              fail (lexer unable_to_advance_token)
                (record s { multipeek = multipeek_next s.multipeek })
          | (j, d) ∷ ds ↦ ok (j, d) (after s j d ds)
        ])
        e

  read-then :
      {B : Type 0} (g : ℕ × ℕ → Lexer MultiPeek → Step MultiPeek B) (s : Lexer MultiPeek) (i c : ℕ)
      (rest : List (ℕ × ℕ))
      → s.input ≡ (i, c) ∷ rest
      → (read_char x >>= g) s ≡ g (i, c) (after s i c rest)
  read-then {B = B} g s i c rest e =
      ap
        (λ r. elim r as (λ v. Step MultiPeek B) [
          | ok a t ↦ g a t
          | err e p t ↦ err e p t
          | panic ↦ panic
          | out_of_fuel ↦ out_of_fuel
        ])
        (read_char-cons s i c rest e)

  text_value_loop-schar :
      (f idx : ℕ) (s : Lexer MultiPeek) (i c : ℕ) (rest : List (ℕ × ℕ))
      → s.input ≡ (i, c) ∷ rest
      → is_schar c ≡ true
      → text_value_loop x (suc f) idx s ≡ text_value_loop x f idx (after s i c rest)
  unfolding text_value_loop
  text_value_loop-schar f idx s i c rest e h =
      rw (ap head? e, text_value_loop, h) (read-then (λ item. text_value_loop x f idx) s i c rest e)

  text_value_loop-quote :
      (f idx : ℕ) (s : Lexer MultiPeek) (i : ℕ) (rest : List (ℕ × ℕ))
      → s.input ≡ (i, b'"') ∷ rest
      → text_value_loop x (suc f) idx s ≡ get_slice (idx + 1) i (after s i b'"' rest)
  unfolding text_value_loop
  text_value_loop-quote f idx s i rest e =
      rw (ap head? e, text_value_loop) (read-then (λ (e, d). get_slice (idx + 1) e) s i b'"' rest e)

  module _ (r : Text) where
    -- The outcome of a loop from the state `s`, where the closing quote stands at `q`.
    abbrev UpTo : ℕ → Lexer MultiPeek → Step MultiPeek Text → ℕ → Type 0
    UpTo idx s run q =
        (t : Lexer MultiPeek) × (run ≡ get_slice (idx + 1) q t)
        × (t.str_input ≡ s.str_input)
        × (t.input ≡ char_indices (q + 1) r)

    -- The loop reads up to the closing quote.
    text_value_loop-quoted :
        (u : Text) (f idx k q : ℕ) (s : Lexer MultiPeek)
        → s.input ≡ char_indices k (u ++ b'"' ∷ r)
        → all is_schar u ≡ true
        → length u < f
        → q ≡ k + byte_len u
        → UpTo idx s (text_value_loop x f idx s) q
    text_value_loop-quoted u zero idx k q s e h l w = absurd (omega arith)
    text_value_loop-quoted [] (suc f) idx k q s e h l w =
        subst (UpTo idx s (text_value_loop x (suc f) idx s)) {x = k} {y = q} (omega arith) (
          after s k b'"' (char_indices (k + 1) r),
          text_value_loop-quote f idx s k (char_indices (k + 1) r) e,
          refl,
          refl,
        )
    text_value_loop-quoted (c ∷ u) (suc f) idx k q s e h l w =
        subst (λ run. UpTo idx s run q)
          (sym
            (text_value_loop-schar f idx s k c rest e (and_left (is_schar c) (all is_schar u) h)))
          (text_value_loop-quoted u f idx (k + utf8_len c) q (after s k c rest) refl
            (and_right (is_schar c) (all is_schar u) h) (omega arith) (omega arith))
      where
        rest : List (ℕ × ℕ)
        rest = char_indices (k + utf8_len c) (u ++ b'"' ∷ r)

  length-char_indices : (k : ℕ) (u v : Text) → length u ≤ length (char_indices k (u ++ v))
  length-char_indices k [] v = omega arith
  length-char_indices k (c ∷ u) v = omega (arith, length-char_indices (k + utf8_len c) u v)

  -- The slice between the quotes.
  slice-quoted : (u r : Text) → slice (b'"' ∷ u ++ b'"' ∷ r) 1 (1 + byte_len u) ≡ some u
  unfolding slice
  slice-quoted u r =
      rw (leb-sum 1 (byte_len u), drop_bytes-zero (u ++ b'"' ∷ r), difference)
        (take_bytes-append u (b'"' ∷ r))
    where
      difference : 1 + byte_len u - 1 ≡ byte_len u
      difference = omega arith

  get_slice-some :
      (a b : ℕ) (v : Text) (s : Lexer MultiPeek)
      → slice s.str_input a b ≡ some v
      → get_slice a b s ≡ ok v s
  unfolding get_slice
  get_slice-some a b v s h =
      ap (λ o. elim o as (λ v. Step MultiPeek Text) [ none ↦ panic | some w ↦ ok w s ]) h

  -- A text behind its opening quote is read up to the closing one.
  pub read_text_value-quoted :
      (u r : Text) (s : Lexer MultiPeek)
      → s.str_input ≡ b'"' ∷ u ++ b'"' ∷ r
      → s.input ≡ char_indices 1 (u ++ b'"' ∷ r)
      → all is_schar u ≡ true
      → (t : Lexer MultiPeek) × (read_text_value x 0 s ≡ ok u t)
        × (t.input ≡ char_indices (byte_len u + 2) r)
  unfolding read_text_value
  read_text_value-quoted u r s a e h =
      let (t, run, same, left) =
        text_value_loop-quoted r u (suc (length s.input)) 0 1 (1 + byte_len u) s e h enough refl in
      (
        t,
        run
            ∙ get_slice-some 1 (1 + byte_len u) u t
                (ap (λ v. slice v 1 (1 + byte_len u)) (same ∙ a) ∙ slice-quoted u r),
        left ∙ ap (λ k. char_indices k r) (omega arith),
      )
    where
      enough : length u < suc (length s.input)
      enough = omega (arith, ap length e, length-char_indices 1 u (b'"' ∷ r))

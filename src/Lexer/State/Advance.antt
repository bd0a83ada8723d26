-- ===== src/Lexer/State/Advance.antt =====
-- What every step of the lexer keeps: it consumes a prefix of the input, counts the newlines in it, and
-- leaves the text alone. `Ends` says so of a call's outcome, and that the fuel of the model was enough.
use cddl.Prelude.{
  ℕ, zero, suc, ◌+◌, ◌≤◌, ◌<◌, Bool, true, false, Option, none, some, List, [], ◌∷◌, ◌++◌, ◌≡◌,
  refl, sym, ◌∙◌, ap, arith, ◌==◌, if◌then◌else◌, length, length-append, append_assoc, Option-cases,
  inl, inr,
}
use cddl.Lexer.Chars.{slice}
use cddl.Lexer.State.{
  Externals, LexerErrorType, Lexer, Step, ok, err, panic, out_of_fuel, ◌>>=◌, fail, peek_char,
  set_index, get_slice, pass_char, read_char, skip_loop, skip_whitespace, newlines,
  unable_to_advance_token,
}

pub record Advances {M : Type 0} (s t : Lexer M) : Type 0 where
  pub consumed : List (ℕ × ℕ)
  pub same_text : t.str_input ≡ s.str_input
  pub splits : s.input ≡ consumed ++ t.input
  pub counts : t.position.line ≡ s.position.line + newlines consumed

abbrev pub Ends : {M A : Type 0} → Lexer M → Step M A → Type 0
Ends s (ok a t) = Advances s t
Ends s (err e p t) = Advances s t
Ends s panic = Unit
Ends s out_of_fuel = ⊥

newlines-append : (xs ys : List (ℕ × ℕ)) → newlines (xs ++ ys) ≡ newlines xs + newlines ys
newlines-append [] ys = omega arith
newlines-append (c ∷ xs) ys = omega (arith, newlines-append xs ys)

-- A step that changes neither the text, nor the input, nor the line.
pub Advances-still :
    {M : Type 0} (s t : Lexer M)
    → t.str_input ≡ s.str_input
    → s.input ≡ t.input
    → t.position.line ≡ s.position.line
    → Advances s t
Advances-still s t a b c = record { consumed = []; same_text = a; splits = b; counts = omega arith }

pub Advances-refl : {M : Type 0} (s : Lexer M) → Advances s s
Advances-refl s = Advances-still s s refl refl refl

pub Advances-trans : {M : Type 0} (s t u : Lexer M) → Advances s t → Advances t u → Advances s u
Advances-trans s t u a b = record {
  consumed = a.consumed ++ b.consumed;
  same_text = b.same_text ∙ a.same_text;
  splits =
      a.splits ∙ ap (◌++◌ a.consumed) b.splits ∙ sym (append_assoc a.consumed b.consumed u.input);
  counts = omega (arith, newlines-append a.consumed b.consumed, a.counts, b.counts);
}

pub Advances-length : {M : Type 0} (s t : Lexer M) → Advances s t → length t.input ≤ length s.input
Advances-length s t a = omega (arith, ap length a.splits, length-append a.consumed t.input)

module _ {M A : Type 0} where
  pub Ends-trans : (s t : Lexer M) (r : Step M A) → Advances s t → Ends t r → Ends s r
  Ends-trans s t (ok a u) d e = Advances-trans s t u d e
  Ends-trans s t (err l p u) d e = Advances-trans s t u d e
  Ends-trans s t panic d e = tt
  Ends-trans s t out_of_fuel d e = e

  pub Ends-if :
      (s : Lexer M) (b : Bool) (p q : Step M A) → Ends s p → Ends s q → Ends s (if b then p else q)
  Ends-if s true p q h k = h
  Ends-if s false p q h k = k

  -- A choice between two calls.
  pub Ends-if-run :
      (b : Bool) (p q : Lexer M → Step M A) (s : Lexer M)
      → Ends s (p s)
      → Ends s (q s)
      → Ends s ((if b then p else q) s)
  Ends-if-run true p q s h k = h
  Ends-if-run false p q s h k = k

  -- A split on the next character.
  pub Ends-peek :
      (s : Lexer M) (o : Option (ℕ × ℕ)) (p : Step M A) (q : ℕ → ℕ → Step M A)
      → Ends s p
      → ((i c : ℕ) → Ends s (q i c))
      → Ends s (elim o [ none ↦ p | some (i, c) ↦ q i c ])
  Ends-peek s none p q h k = h
  Ends-peek s (some (i, c)) p q h k = k i c

  pub Ends-peek-run :
      (o : Option (ℕ × ℕ)) (p : Lexer M → Step M A) (q : ℕ → ℕ → Lexer M → Step M A) (s : Lexer M)
      → Ends s (p s)
      → ((i c : ℕ) → Ends s (q i c s))
      → Ends s ((elim o as (λ v. Lexer M → Step M A) [ none ↦ p | some (i, c) ↦ q i c ]) s)
  Ends-peek-run none p q s h k = h
  Ends-peek-run (some (i, c)) p q s h k = k i c

  -- An index that is out of range panics.
  pub Ends-or-panic :
      (s : Lexer M) (o : Option ℕ) (q : ℕ → Step M A)
      → ((b : ℕ) → Ends s (q b))
      → Ends s (elim o [ none ↦ panic | some b ↦ q b ])
  Ends-or-panic s none q k = tt
  Ends-or-panic s (some b) q k = k b

module _ {M A B : Type 0} (f : A → Lexer M → Step M B) (s : Lexer M)
    (k : (a : A) (t : Lexer M) → Advances s t → Ends t (f a t)) where
  -- The rest of a run, after the outcome of its first call.
  Ends-then :
      (r : Step M A)
      → Ends s r
      → Ends s (elim r [
        | ok a t ↦ f a t
        | err e p t ↦ err e p t
        | panic ↦ panic
        | out_of_fuel ↦ out_of_fuel
      ])
  Ends-then (ok a t) d = Ends-trans s t (f a t) d (k a t d)
  Ends-then (err e p t) d = d
  Ends-then panic d = tt
  Ends-then out_of_fuel d = d

pub Ends-bind :
    {M A B : Type 0} (m : Lexer M → Step M A) (f : A → Lexer M → Step M B) (s : Lexer M)
    → Ends s (m s)
    → ((a : A) (t : Lexer M) → Advances s t → Ends t (f a t))
    → Ends s ((m >>= f) s)
Ends-bind m f s h k = Ends-then f s k (m s) h

pub get_slice-Ends : {M : Type 0} (a b : ℕ) (s : Lexer M) → Ends s (get_slice a b s)
unfolding get_slice
get_slice-Ends a b s = elim (Option-cases (slice s.str_input a b)) [
  | inl e ↦ rw (e, get_slice) tt
  | inr (t, e) ↦ rw (e, get_slice) (Advances-refl s)
]

module _ (x : Externals) where
  open x use {MultiPeek, is_whitespace}

  -- The first character passed, where there is one.
  read-Advances :
      (s : Lexer MultiPeek) (i c : ℕ) (rest : List (ℕ × ℕ)) (m : MultiPeek)
      → s.input ≡ (i, c) ∷ rest
      → Advances s (record s { input = rest; multipeek = m; position = pass_char s.position i c })
  read-Advances s i c rest m e = record {
    consumed = (i, c) ∷ [];
    same_text = refl;
    splits = e;
    counts = ground arith;
  }

  -- A read that returns has consumed a character, and one that fails was at the end of the input.
  abbrev pub Reads : Lexer MultiPeek → Step MultiPeek (ℕ × ℕ) → Type 0
  Reads s (ok item t) = Advances s t × (length t.input < length s.input)
  Reads s (err e p t) = Advances s t × (t.input ≡ [])
  Reads s panic = Unit
  Reads s out_of_fuel = ⊥

  read-Reads :
      (s : Lexer MultiPeek) (cs : List (ℕ × ℕ)) (m : MultiPeek)
      → s.input ≡ cs
      → Reads s (elim cs [
        | [] ↦ fail (LexerErrorType.lexer unable_to_advance_token) (record s { multipeek = m })
        | (i, c) ∷ rest ↦
            ok
              (i, c)
              (record s { input = rest; multipeek = m; position = pass_char s.position i c })
      ])
  read-Reads s [] m e = (Advances-still s (record s { multipeek = m }) refl refl refl, e)
  read-Reads s ((i, c) ∷ rest) m e = (read-Advances s i c rest m e, omega (arith, ap length e))

  pub read_char-Reads : (s : Lexer MultiPeek) → Reads s (read_char x s)
  unfolding read_char
  read_char-Reads s = read-Reads s s.input _ refl

  Ends-Reads : (s : Lexer MultiPeek) (r : Step MultiPeek (ℕ × ℕ)) → Reads s r → Ends s r
  Ends-Reads s (ok a t) (d, l) = d
  Ends-Reads s (err e p t) (d, n) = d
  Ends-Reads s panic d = tt
  Ends-Reads s out_of_fuel d = d

  pub read_one-Ends : (s : Lexer MultiPeek) → Ends s (read_char x s)
  read_one-Ends s = Ends-Reads s (read_char x s) (read_char-Reads s)

  module _ {B : Type 0} (f : ℕ × ℕ → Lexer MultiPeek → Step MultiPeek B) (s : Lexer MultiPeek)
      (k : (item : ℕ × ℕ) (t : Lexer MultiPeek)
        → Advances s t
        → length t.input < length s.input
        → Ends t (f item t)) where
    Reads-then :
        (r : Step MultiPeek (ℕ × ℕ))
        → Reads s r
        → Ends s (elim r [
          | ok a t ↦ f a t
          | err e p t ↦ err e p t
          | panic ↦ panic
          | out_of_fuel ↦ out_of_fuel
        ])
    Reads-then (ok a t) (d, l) = Ends-trans s t (f a t) d (k a t d l)
    Reads-then (err e p t) (d, n) = d
    Reads-then panic d = tt
    Reads-then out_of_fuel d = d

    -- The rule for a read: what follows has fewer characters.
    pub read_char-Ends : Ends s ((read_char x >>= f) s)
    read_char-Ends = Reads-then (read_char x s) (read_char-Reads s)

  -- The loop's fuel covers the characters left.
  skip_loop-Ends : (f : ℕ) (s : Lexer MultiPeek) → length s.input < f → Ends s (skip_loop x f s)
  unfolding skip_loop
  skip_loop-Ends zero s h = absurd (omega arith)
  skip_loop-Ends (suc f) s h = Ends-peek s (peek_char s) _ _ (Advances-refl s) (λ i c.
      Ends-if s (c == b'\n') _ _ (Advances-still s (set_index i s) refl refl refl) (
        Ends-if s (is_whitespace c) _ _
          (read_char-Ends (λ u. skip_loop x f) s (λ u t d l. skip_loop-Ends f t (omega arith)))
          (Advances-still s (set_index i s) refl refl refl)))

  pub skip_whitespace-Ends : (s : Lexer MultiPeek) → Ends s (skip_whitespace x s)
  unfolding skip_whitespace
  skip_whitespace-Ends s = skip_loop-Ends (suc (length s.input)) s (omega arith)

-- ===== src/Lexer/Numbers/Progress.antt =====
-- src/lexer.rs: the reads of numbers consume a prefix of the input, and the number of characters left is
-- fuel enough for them.
use cddl.Prelude.{
  ℕ, zero, suc, ◌+◌, ◌-◌, ◌<◌, Bool, true, false, not, ◌&&◌, ◌||◌, Option, none, some, Text, ◌==◌,
  if◌then◌else◌, length, get_elem?, is_none, refl, arith,
}
use cddl.Prelude.Decimal.{is_digit, parse_usize, parse_isize}
use cddl.Token.{Value, Token}
use cddl.Lexer.Chars.{as_bytes, is_hexdigit}
use cddl.Lexer.State.{
  Externals, LexerErrorType, parse_int, parse_float, parse_hexf, Lexer, Step, peek_char, get_slice,
  read_char, pure, ◌>>=◌, ◌>>◌,
}
use cddl.Lexer.State.Advance.{
  Ends, Ends-bind, Ends-if, Ends-peek, Advances-refl, Advances-still, get_slice-Ends,
  read_char-Ends, read_one-Ends, Ends-if-run, Ends-peek-run, Ends-or-panic,
}
use cddl.Lexer.Numbers

module _ (x : Externals) where
  open x use {MultiPeek, multipeek_peek, parse_f64, parse_hexf64, f64_as_isize, f64_as_usize}

  or_fail-Ends :
      {A : Type 0} (e : LexerErrorType) (o : Option A) (s : Lexer MultiPeek)
      → Ends s (Numbers.or_fail x e o s)
  or_fail-Ends e none s = Advances-refl s
  or_fail-Ends e (some a) s = Advances-refl s

  -- A value made of what a parser answers.
  or_fail-pure-Ends :
      {A B : Type 0} (e : LexerErrorType) (o : Option A) (g : A → B) (s : Lexer MultiPeek)
      → Ends s ((Numbers.or_fail x e o >>= (λ a. pure (g a))) s)
  or_fail-pure-Ends e o g s =
      Ends-bind (Numbers.or_fail x e o) (λ a. pure (g a)) s (or_fail-Ends e o s)
        (λ a t d. Advances-refl t)

  peek_multi-Ends : (s : Lexer MultiPeek) → Ends s (Numbers.peek_multi x s)
  peek_multi-Ends s =
      Advances-still s (record s { multipeek = (multipeek_peek s.multipeek).1 }) refl refl refl

  read_while-Ends :
      (test : ℕ → Bool) (f e : ℕ) (s : Lexer MultiPeek)
      → length s.input < f
      → Ends s (Numbers.read_while x test f e s)
  unfolding Numbers.read_while
  read_while-Ends test zero e s h = absurd (omega arith)
  read_while-Ends test (suc f) e s h = Ends-peek s (peek_char s) _ _ (Advances-refl s) (λ i c.
      Ends-if s (test c) _ _
        (read_char-Ends x _ s (λ (e', d) t a l. read_while-Ends test f e' t (omega arith)))
        (Advances-refl s))

  -- A run of characters that pass the test, and the rest of a reading.
  while-Ends :
      {B : Type 0} (test : ℕ → Bool) (idx : ℕ) (k : ℕ → Lexer MultiPeek → Step MultiPeek B)
      (s : Lexer MultiPeek)
      → ((e : ℕ) (t : Lexer MultiPeek) → Ends t (k e t))
      → Ends s (((λ t. Numbers.read_while x test (suc (length t.input)) idx t) >>= k) s)
  while-Ends test idx k s h =
      Ends-bind (λ t. Numbers.read_while x test (suc (length t.input)) idx t) k s
        (read_while-Ends test (suc (length s.input)) idx s (omega arith)) (λ e t a. h e t)

  -- A slice, and what is made of it.
  slice-Ends :
      {B : Type 0} (a b : ℕ) (k : Text → Lexer MultiPeek → Step MultiPeek B) (s : Lexer MultiPeek)
      → ((text : Text) (t : Lexer MultiPeek) → Ends t (k text t))
      → Ends s ((get_slice a b >>= k) s)
  slice-Ends a b k s h = Ends-bind (get_slice a b) k s (get_slice-Ends a b s) (λ text t d. h text t)

  pub read_number-Ends : (idx : ℕ) (s : Lexer MultiPeek) → Ends s (Numbers.read_number x idx s)
  unfolding Numbers.read_number
  read_number-Ends idx s = while-Ends is_digit idx _ s (λ e t.
      slice-Ends idx (e + 1) _ t
        (λ text u. or_fail-pure-Ends parse_int (parse_usize text) (λ n. (e, n)) u))

  read_exponent-Ends : (idx : ℕ) (s : Lexer MultiPeek) → Ends s (Numbers.read_exponent x idx s)
  unfolding Numbers.read_exponent
  read_exponent-Ends idx s =
      Ends-if s (Numbers.starts_exponent x s) _ _
        (while-Ends is_digit idx _ s
          (λ e t. slice-Ends idx (e + 1) _ t (λ text u. Advances-refl u)))
        (Advances-refl s)

  read_hexdigit-Ends : (idx : ℕ) (s : Lexer MultiPeek) → Ends s (Numbers.read_hexdigit x idx s)
  unfolding Numbers.read_hexdigit
  read_hexdigit-Ends idx s =
      while-Ends is_hexdigit idx _ s (λ e t. slice-Ends idx (e + 1) _ t (λ text u. Advances-refl u))

  -- The exponent read behind the character that comes next.
  exponent-Ends :
      (s : Lexer MultiPeek) → Ends s ((read_char x >>= (λ (i, d). Numbers.read_exponent x i)) s)
  exponent-Ends s = read_char-Ends x _ s (λ (i, d) t a l. read_exponent-Ends i t)

  optional_exponent-Ends : (e : ℕ) (s : Lexer MultiPeek) → Ends s (Numbers.optional_exponent x e s)
  unfolding Numbers.optional_exponent
  optional_exponent-Ends e s = Ends-peek s (peek_char s) _ _ (Advances-refl s) (λ i c.
      Ends-if s (c == b'e') _ _
        (Ends-bind (read_char x >> read_char x >>= (λ (i, d). Numbers.read_exponent x i))
          (λ (e, t). pure (e, true)) s
          (Ends-bind (read_char x >> read_char x) (λ (i, d). Numbers.read_exponent x i) s
            (read_char-Ends x _ s (λ item t a l. read_one-Ends x t))
            (λ (i, d) t a. read_exponent-Ends i t))
          (λ (e, text) t a. Advances-refl t))
        (Advances-refl s))

  float_token-Ends : (a b : ℕ) (s : Lexer MultiPeek) → Ends s (Numbers.float_token x a b s)
  float_token-Ends a b s = slice-Ends a (b + 1) _ s (λ text t.
      or_fail-pure-Ends parse_float (parse_f64 text) (λ v. Token.value (Value.float v)) t)

  hexfloat_token-Ends : (a b : ℕ) (s : Lexer MultiPeek) → Ends s (Numbers.hexfloat_token x a b s)
  hexfloat_token-Ends a b s = slice-Ends a (b + 1) _ s (λ text t.
      or_fail-pure-Ends parse_hexf (parse_hexf64 text) (λ v. Token.value (Value.float v)) t)

  finish_int-Ends :
      (b : Bool) (signed_idx idx e n : ℕ) (s : Lexer MultiPeek)
      → Ends s (Numbers.finish_int x b signed_idx idx e n s)
  unfolding Numbers.finish_int
  finish_int-Ends b signed_idx idx e n s =
      Ends-bind (Numbers.optional_exponent x e) _ s (optional_exponent-Ends e s)
        (λ (e', is_exponent) t a.
          Ends-if-run b _ _ t
            (slice-Ends signed_idx (e' + 1) _ t (λ text u.
              Ends-if-run is_exponent _ _ u
                (or_fail-pure-Ends parse_float (parse_f64 text)
                  (λ v. Token.value (Value.int (f64_as_isize v))) u)
                (or_fail-pure-Ends parse_int (parse_isize text) (λ v. Token.value (Value.int v))
                  u)))
            (Ends-if-run is_exponent _ _ t
              (slice-Ends idx (e' + 1) _ t (λ text u.
                or_fail-pure-Ends parse_float (parse_f64 text)
                  (λ v. Token.value (Value.uint (f64_as_usize v))) u))
              (Advances-refl t)))

  finish_hexfloat-Ends :
      (start i : ℕ) (s : Lexer MultiPeek) → Ends s (Numbers.finish_hexfloat x start i s)
  unfolding Numbers.finish_hexfloat
  finish_hexfloat-Ends start i s =
      Ends-bind (read_char x >> Numbers.read_hexdigit x i >> read_char x) _ s
        (Ends-bind (read_char x >> Numbers.read_hexdigit x i) (λ r. read_char x) s
          (read_char-Ends x _ s (λ item t a l. read_hexdigit-Ends i t))
          (λ r t a. read_one-Ends x t))
        (λ (e, d) t a. Ends-if-run (not (d == b'p')) _ _ t (Advances-refl t) (
          Ends-bind (read_char x >>= (λ (i, d). Numbers.read_exponent x i)) _ t (exponent-Ends t)
            (λ (e', text) u b. hexfloat_token-Ends start e' u)))

  finish_decimal-Ends :
      (start i : ℕ) (s : Lexer MultiPeek) → Ends s (Numbers.finish_decimal x start i s)
  unfolding Numbers.finish_decimal
  finish_decimal-Ends start i s =
      Ends-bind
        (read_char x >> Numbers.read_number x i >>= (λ (e, n). Numbers.optional_exponent x e)) _ s
        (Ends-bind (read_char x >> Numbers.read_number x i)
          (λ (e, n). Numbers.optional_exponent x e) s
          (read_char-Ends x _ s (λ item t a l. read_number-Ends i t))
          (λ (e, n) t a. optional_exponent-Ends e t))
        (λ (e, b) t a. float_token-Ends start e t)

  optional_hex-Ends :
      (n idx j c : ℕ) (s : Lexer MultiPeek) → Ends s (Numbers.optional_hex x n idx (j, c) s)
  unfolding Numbers.optional_hex
  optional_hex-Ends n idx j c s =
      Ends-if-run (n == 0 && j - idx == 1 && c == b'x') _ _ s
        (Ends-bind (read_char x >> Numbers.peek_multi x) _ s
          (read_char-Ends x _ s (λ item t a l. peek_multi-Ends t))
          (λ item t a. Ends-if-run (is_none item) _ _ t (Advances-refl t) (
            Ends-bind (read_char x >>= (λ (i, d). Numbers.read_hexdigit x i)) (λ r. pure true) t
              (read_char-Ends x _ t (λ (i, d) u b l. read_hexdigit-Ends i u))
              (λ r u b. Advances-refl u))))
        (Advances-refl s)

  after_int-Ends :
      (b : Bool) (signed_idx idx e n j c : ℕ) (s : Lexer MultiPeek)
      → Ends s (Numbers.after_int x b signed_idx idx e n (j, c) s)
  unfolding Numbers.after_int
  after_int-Ends b signed_idx idx e n j c s =
      Ends-bind (Numbers.optional_hex x n idx (j, c)) _ s (optional_hex-Ends n idx j c s)
        (λ hexfloat t a.
          Ends-if-run (c == b'.' || c == b'x') _ _ t
            (Ends-bind
              ((if c == b'x' then read_char x >> pure tt else pure tt) >> Numbers.peek_multi x) _ t
              (Ends-bind (if c == b'x' then read_char x >> pure tt else pure tt)
                (λ u. Numbers.peek_multi x) t
                (Ends-if-run (c == b'x') _ _ t
                  (read_char-Ends x _ t (λ item u d l. Advances-refl u)) (Advances-refl t))
                (λ r u d. peek_multi-Ends u))
              (λ item u d. Ends-peek-run item _ _ u (finish_int-Ends b signed_idx idx e n u) (λ i d.
                Ends-if-run (hexfloat && is_hexdigit d) _ _ u (finish_hexfloat-Ends _ i u) (
                  Ends-if-run (is_digit d) _ _ u (finish_decimal-Ends _ i u)
                    (finish_int-Ends b signed_idx idx e n u)))))
            (finish_int-Ends b signed_idx idx e n t))

  read_unsigned-Ends :
      (b : Bool) (signed_idx idx : ℕ) (s : Lexer MultiPeek)
      → Ends s (Numbers.read_unsigned x b signed_idx idx s)
  unfolding Numbers.read_unsigned
  read_unsigned-Ends b signed_idx idx s =
      Ends-bind (Numbers.read_number x idx) _ s (read_number-Ends idx s) (λ (e, n) t a.
        Ends-bind (Numbers.peek_multi x)
          (λ item. elim item [
            | none ↦ Numbers.finish_int x b signed_idx idx e n
            | some (j, c) ↦ Numbers.after_int x b signed_idx idx e n (j, c)
          ])
          t (peek_multi-Ends t)
          (λ item u d.
            Ends-peek-run item (Numbers.finish_int x b signed_idx idx e n)
              (λ j c. Numbers.after_int x b signed_idx idx e n (j, c)) u
              (finish_int-Ends b signed_idx idx e n u)
              (λ j c. after_int-Ends b signed_idx idx e n j c u)))

  pub read_int_or_float-Ends :
      (idx : ℕ) (s : Lexer MultiPeek) → Ends s (Numbers.read_int_or_float x idx s)
  unfolding Numbers.read_int_or_float
  read_int_or_float-Ends idx s = Ends-or-panic s (get_elem? (as_bytes s.str_input) idx) _ (λ b.
      Ends-if s (b == b'-') _ _
        (read_char-Ends x _ s (λ (i, d) t a l. read_unsigned-Ends true idx i t))
        (read_unsigned-Ends false 0 idx s))

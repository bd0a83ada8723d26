-- ===== src/Lexer/Strings/Progress.antt =====
-- src/lexer.rs: the reads of identifiers, strings and comments consume a prefix of the input, and the
-- number of characters left is fuel enough for them.
use cddl.Prelude.{
  ℕ, zero, suc, ◌+◌, ◌≤◌, ◌<◌, Bool, true, false, not, ◌&&◌, Text, ◌==◌, if◌then◌else◌, length,
  arith,
}
use cddl.Token.Display.{drop_spaces}
use cddl.Lexer.Chars.{as_bytes, is_ascii_whitespace, is_schar, is_bchar, is_escaped}
use cddl.Lexer.State.{Externals, Lexer, Step, peek_char, get_slice, read_char, pure, ◌>>=◌}
use cddl.Lexer.State.Advance.{
  Ends, Ends-bind, Ends-if, Ends-peek, Advances-refl, get_slice-Ends, read_char-Ends,
}
use cddl.Lexer.Strings

module _ (x : Externals) where
  open x use {MultiPeek}

  identifier_loop-Ends :
      (f idx e : ℕ) (s : Lexer MultiPeek)
      → length s.input < f
      → Ends s (Strings.identifier_loop x f idx e s)
  unfolding Strings.identifier_loop
  identifier_loop-Ends zero idx e s h = absurd (omega arith)
  identifier_loop-Ends (suc f) idx e s h =
      Ends-peek s (peek_char s) _ _ (get_slice-Ends idx (e + 1) s) (λ i c.
        Ends-if s (Strings.is_identifier_char x c) _ _
          (read_char-Ends x _ s (λ (e', d) t a l.
            Ends-if t (c == b'.' && Strings.space_next x t) _ _ (get_slice-Ends idx e' t)
              (identifier_loop-Ends f idx e' t (omega arith))))
          (get_slice-Ends idx (e + 1) s))

  pub read_identifier-Ends :
      (idx : ℕ) (s : Lexer MultiPeek) → Ends s (Strings.read_identifier x idx s)
  unfolding Strings.read_identifier
  read_identifier-Ends idx s = identifier_loop-Ends (suc (length s.input)) idx idx s (omega arith)

  -- An escape, in a loop that goes on with fewer characters or as many.
  read_escape-Ends :
      (loop : Lexer MultiPeek → Step MultiPeek Text) (s : Lexer MultiPeek)
      → ((t : Lexer MultiPeek) → length t.input ≤ length s.input → Ends t (loop t))
      → Ends s (Strings.read_escape x loop s)
  unfolding Strings.read_escape
  read_escape-Ends loop s k = Ends-peek s (peek_char s) _ _ (k s (omega arith)) (λ i c.
      Ends-if s (is_escaped c) _ _ (read_char-Ends x _ s (λ item t a l. k t (omega arith)))
        (Advances-refl s))

  text_value_loop-Ends :
      (f idx : ℕ) (s : Lexer MultiPeek)
      → length s.input < f
      → Ends s (Strings.text_value_loop x f idx s)
  unfolding Strings.text_value_loop
  text_value_loop-Ends zero idx s h = absurd (omega arith)
  text_value_loop-Ends (suc f) idx s h = Ends-peek s (peek_char s) _ _ (Advances-refl s) (λ i c.
      Ends-if s (is_schar c) _ _
        (read_char-Ends x _ s (λ item t a l. text_value_loop-Ends f idx t (omega arith)))
        (Ends-if s (c == b'\\') _ _
          (read_char-Ends x _ s (λ item t a l.
            read_escape-Ends (Strings.text_value_loop x f idx) t
              (λ u m. text_value_loop-Ends f idx u (omega arith))))
          (Ends-if s (c == b'"') _ _
            (read_char-Ends x _ s (λ (e, d) t a l. get_slice-Ends (idx + 1) e t))
            (Advances-refl s))))

  pub read_text_value-Ends :
      (idx : ℕ) (s : Lexer MultiPeek) → Ends s (Strings.read_text_value x idx s)
  unfolding Strings.read_text_value
  read_text_value-Ends idx s = text_value_loop-Ends (suc (length s.input)) idx s (omega arith)

  byte_string_loop-Ends :
      (f idx : ℕ) (s : Lexer MultiPeek)
      → length s.input < f
      → Ends s (Strings.byte_string_loop x f idx s)
  unfolding Strings.byte_string_loop
  byte_string_loop-Ends zero idx s h = absurd (omega arith)
  byte_string_loop-Ends (suc f) idx s h = Ends-peek s (peek_char s) _ _ (Advances-refl s) (λ i c.
      Ends-if s (is_bchar c) _ _
        (read_char-Ends x _ s (λ item t a l. byte_string_loop-Ends f idx t (omega arith)))
        (Ends-if s (c == b'\\') _ _
          (read_char-Ends x _ s (λ item t a l.
            read_escape-Ends (Strings.byte_string_loop x f idx) t
              (λ u m. byte_string_loop-Ends f idx u (omega arith))))
          (Ends-if s (c == b'\'') _ _
            (read_char-Ends x _ s (λ (e, d) t a l. get_slice-Ends idx e t))
            (Ends-if s (is_ascii_whitespace c) _ _
              (read_char-Ends x _ s (λ item t a l. byte_string_loop-Ends f idx t (omega arith)))
              (Advances-refl s)))))

  pub read_byte_string-Ends :
      (idx : ℕ) (s : Lexer MultiPeek) → Ends s (Strings.read_byte_string x idx s)
  unfolding Strings.read_byte_string
  read_byte_string-Ends idx s = byte_string_loop-Ends (suc (length s.input)) idx s (omega arith)

  prefixed_loop-Ends :
      (f idx : ℕ) (b : Bool) (s : Lexer MultiPeek)
      → length s.input < f
      → Ends s (Strings.prefixed_loop x f idx b s)
  unfolding Strings.prefixed_loop
  prefixed_loop-Ends zero idx b s h = absurd (omega arith)
  prefixed_loop-Ends (suc f) idx b s h = Ends-peek s (peek_char s) _ _ (Advances-refl s) (λ i c.
      Ends-if s (is_bchar c) _ _
        (read_char-Ends x _ s (λ item t a l. prefixed_loop-Ends f idx b t (omega arith)))
        (Ends-if s (c == b'\\') _ _
          (read_char-Ends x _ s (λ item t a l.
            read_escape-Ends (Strings.prefixed_loop x f idx b) t
              (λ u m. prefixed_loop-Ends f idx b u (omega arith))))
          (Ends-if s (c == b'\'') _ _
            (Ends-bind (read_char x >>= (λ (e, d). get_slice idx e))
              (λ t. pure (if b then drop_spaces t else t)) s
              (read_char-Ends x _ s (λ (e, d) t a l. get_slice-Ends idx e t))
              (λ text t a. Advances-refl t))
            (Ends-if s (is_ascii_whitespace c) _ _
              (read_char-Ends x _ s (λ item t a l. prefixed_loop-Ends f idx true t (omega arith)))
              (Advances-refl s)))))

  pub read_prefixed_byte_string-Ends :
      (idx : ℕ) (s : Lexer MultiPeek) → Ends s (Strings.read_prefixed_byte_string x idx s)
  unfolding Strings.read_prefixed_byte_string
  read_prefixed_byte_string-Ends idx s =
      Ends-bind (λ s. Strings.prefixed_loop x (suc (length s.input)) idx false s)
        (λ t. pure (as_bytes t)) s
        (prefixed_loop-Ends (suc (length s.input)) idx false s (omega arith))
        (λ text t a. Advances-refl t)

  comment_loop-Ends :
      (f idx e : ℕ) (s : Lexer MultiPeek)
      → length s.input < f
      → Ends s (Strings.comment_loop x f idx e s)
  unfolding Strings.comment_loop
  comment_loop-Ends zero idx e s h = absurd (omega arith)
  comment_loop-Ends (suc f) idx e s h =
      Ends-peek s (peek_char s) _ _ (get_slice-Ends (idx + 1) (e + 1) s) (λ i c.
        Ends-if s (not (c == 0x0a) && not (c == 0x0d)) _ _
          (read_char-Ends x _ s (λ (e', d) t a l. comment_loop-Ends f idx e' t (omega arith)))
          (read_char-Ends x _ s (λ (e', d) t a l. get_slice-Ends (idx + 1) e' t)))

  pub read_comment-Ends : (idx : ℕ) (s : Lexer MultiPeek) → Ends s (Strings.read_comment x idx s)
  unfolding Strings.read_comment
  read_comment-Ends idx s = comment_loop-Ends (suc (length s.input)) idx idx s (omega arith)

-- ===== src/Lexer/Next/Progress.antt =====
-- src/lexer.rs: each arm of `next_token` consumes a prefix of the input, with fuel enough.
use cddl.Prelude.{ℕ, ◌+◌, ◌%◌, true, false, ◌||◌, Option, none, some, ◌==◌, refl}
use cddl.Prelude.Decimal.{is_digit}
use cddl.Token.{ByteValue, Token, Bytes, ControlOperator}
use cddl.Token.Lookup.{lookup_ident, lookup_control_from_str}
use cddl.Lexer.State.{
  Externals, Decoding, decoded, undecodable, overrun, LexerErrorType, lexer, Lexer, Step, panic,
  ◌>>=◌, fail, peek_char, set_range, get_slice, read_char, invalid_control_operator,
  invalid_character,
}
use cddl.Lexer.State.Advance.{
  Ends, Ends-bind, Ends-if, Ends-if-run, Ends-peek, Ends-trans, Advances-refl, Advances-still,
  get_slice-Ends, read_char-Ends,
}
use cddl.Lexer.Strings.{
  is_ealpha, read_identifier, read_text_value, read_byte_string, read_prefixed_byte_string,
  read_comment,
}
use cddl.Lexer.Strings.Progress.{
  read_identifier-Ends, read_text_value-Ends, read_byte_string-Ends, read_prefixed_byte_string-Ends,
  read_comment-Ends,
}
use cddl.Lexer.Numbers.{read_number, read_int_or_float}
use cddl.Lexer.Numbers.Progress.{read_number-Ends, read_int_or_float-Ends}
use cddl.Lexer.Next

module _ (x : Externals) where
  open x use {MultiPeek}

  -- A call that ends, from every state.
  abbrev pub EndsAll : {A : Type 0} → (Lexer MultiPeek → Step MultiPeek A) → Type 0
  EndsAll m = (s : Lexer MultiPeek) → Ends s (m s)

  pub finish-Ends : (offset : ℕ) (t : Token) → EndsAll (Next.finish x offset t)
  finish-Ends offset t s = Advances-still s (set_range offset s) refl refl refl

  fail_at-Ends : (offset : ℕ) (e : LexerErrorType) → EndsAll (Next.fail_at x offset e)
  fail_at-Ends offset e s = Advances-still s (set_range offset s) refl refl refl

  -- A read of a value, and the token made of it.
  value-Ends :
      {A : Type 0} (m : Lexer MultiPeek → Step MultiPeek A) (offset : ℕ) (g : A → Token)
      → EndsAll m
      → EndsAll (m >>= (λ a. Next.finish x offset (g a)))
  value-Ends m offset g h s = Ends-bind m _ s (h s) (λ a t d. finish-Ends offset (g a) t)

  if_next-Ends :
      (c : ℕ) (found other : Next.Lexing x)
      → EndsAll found
      → EndsAll other
      → EndsAll (Next.if_next x c found other)
  unfolding Next.if_next
  if_next-Ends c found other h k s =
      Ends-if s (Next.next_is x c s) _ _ (read_char-Ends x _ s (λ item t a l. h t)) (k s)

  lex_slash-Ends : (offset : ℕ) → EndsAll (Next.lex_slash x offset)
  unfolding Next.lex_slash
  lex_slash-Ends offset =
      if_next-Ends b'/' _ _
        (if_next-Ends b'=' _ _ (finish-Ends offset Token.g_choice_alt)
          (finish-Ends offset Token.g_choice))
        (if_next-Ends b'=' _ _ (finish-Ends offset Token.t_choice_alt)
          (finish-Ends offset Token.t_choice))

  lex_tag_number-Ends : (offset : ℕ) → EndsAll (Next.lex_tag_number x offset)
  unfolding Next.lex_tag_number
  lex_tag_number-Ends offset s =
      Ends-bind (read_char x >>= (λ (idx, d). read_number x idx)) _ s
        (read_char-Ends x _ s (λ (idx, d) t a l. read_number-Ends x idx t))
        (λ (e, n) t a.
          if_next-Ends b'.' _ (Next.finish x offset (Token.tag (some (n % 256)) none))
            (λ u. read_char-Ends x _ u (λ (idx, d) v b l.
              Ends-trans v (set_range offset v) _ (finish-Ends offset Token.eof v) (
                Ends-bind (read_number x idx) _ (set_range offset v)
                  (read_number-Ends x idx (set_range offset v)) (λ (e', n') w c. Advances-refl w))))
            (finish-Ends offset (Token.tag (some (n % 256)) none)) t)

  lex_hash-Ends : (offset : ℕ) → EndsAll (Next.lex_hash x offset)
  unfolding Next.lex_hash
  lex_hash-Ends offset s =
      Ends-peek s (peek_char s) _ _ (finish-Ends offset (Token.tag none none) s) (λ i c.
        Ends-if s (is_digit c) _ _ (lex_tag_number-Ends offset s)
          (finish-Ends offset (Token.tag none none) s))

  lex_quote-Ends : (offset : ℕ) → EndsAll (Next.lex_quote x offset)
  unfolding Next.lex_quote
  lex_quote-Ends offset =
      value-Ends (read_char x >>= (λ (idx, d). read_byte_string x idx)) offset _
        (λ s. read_char-Ends x _ s (λ (idx, d) t a l. read_byte_string-Ends x idx t))

  -- What a control operator's name gives.
  control-Ends :
      (offset : ℕ) (o : Option ControlOperator) (s : Lexer MultiPeek)
      → Ends s (
          (elim o as (λ v. Next.Lexing x) [
            | none ↦ Next.fail_at x offset (lexer invalid_control_operator)
            | some co ↦ Next.finish x offset (Token.control_operator co)
          ])
            s)
  control-Ends offset none s = fail_at-Ends offset (lexer invalid_control_operator) s
  control-Ends offset (some co) s = finish-Ends offset (Token.control_operator co) s

  lex_control-Ends : (offset idx : ℕ) → EndsAll (Next.lex_control x offset idx)
  unfolding Next.lex_control
  lex_control-Ends offset idx s =
      Ends-bind (read_identifier x idx) _ s (read_identifier-Ends x idx s)
        (λ name t a. control-Ends offset (lookup_control_from_str name) t)

  lex_dot-Ends : (offset idx : ℕ) → EndsAll (Next.lex_dot x offset idx)
  unfolding Next.lex_dot
  lex_dot-Ends offset idx s =
      Ends-peek s (peek_char s) _ _ (fail_at-Ends offset (lexer invalid_character) s) (λ i c.
        Ends-if s (c == b'.') _ _
          (read_char-Ends x _ s (λ item t a l.
            if_next-Ends b'.' _ (Next.finish x offset (Token.range_op true))
              (finish-Ends offset (Token.range_op false)) (finish-Ends offset (Token.range_op true))
              t))
          (Ends-if s (is_ealpha x c) _ _ (lex_control-Ends offset idx s)
            (fail_at-Ends offset (lexer invalid_character) s)))

  lex_ident-Ends : (offset idx : ℕ) → EndsAll (Next.lex_ident x offset idx)
  unfolding Next.lex_ident
  lex_ident-Ends offset idx =
      value-Ends (read_identifier x idx) offset lookup_ident (read_identifier-Ends x idx)

  -- What the check by a decoder gives.
  decoding-Ends :
      (offset : ℕ) (d : Decoding) (e : LexerErrorType) (t : Token) (s : Lexer MultiPeek)
      → Ends s (
          (elim d as (λ v. Next.Lexing x) [
            | decoded ↦ Next.finish x offset t
            | undecodable ↦ fail e
            | overrun ↦ (λ s. panic)
          ])
            s)
  decoding-Ends offset decoded e t s = finish-Ends offset t s
  decoding-Ends offset undecodable e t s = Advances-refl s
  decoding-Ends offset overrun e t s = tt

  lex_encoded-Ends :
      (offset : ℕ) (decode : Bytes → Decoding) (e : LexerErrorType) (value : Bytes → ByteValue)
      → EndsAll (Next.lex_encoded x offset decode e value)
  lex_encoded-Ends offset decode e value s =
      Ends-bind (read_char x >>= (λ (idx, d). read_prefixed_byte_string x idx)) _ s
        (read_char-Ends x _ s (λ (idx, d) t a l. read_prefixed_byte_string-Ends x idx t))
        (λ b t a. decoding-Ends offset (decode b) e _ t)

  lex_h-Ends : (offset idx : ℕ) → EndsAll (Next.lex_h x offset idx)
  unfolding Next.lex_h
  lex_h-Ends offset idx =
      if_next-Ends b'\'' _ _ (lex_encoded-Ends offset _ _ _) (lex_ident-Ends offset idx)

  lex_b-Ends : (offset idx : ℕ) → EndsAll (Next.lex_b x offset idx)
  unfolding Next.lex_b
  lex_b-Ends offset idx =
      if_next-Ends b'6' _ _
        (if_next-Ends b'4' _ _
          (if_next-Ends b'\'' _ _ (lex_encoded-Ends offset _ _ _) (lex_ident-Ends offset idx))
          (lex_ident-Ends offset idx))
        (lex_ident-Ends offset idx)

  lex_other-Ends : (offset idx c : ℕ) → EndsAll (Next.lex_other x offset idx c)
  unfolding Next.lex_other
  lex_other-Ends offset idx c s =
      Ends-if-run (is_ealpha x c) _ _ s
        (Ends-if-run (c == b'h') _ _ s (lex_h-Ends offset idx s)
          (Ends-if-run (c == b'b') _ _ s (lex_b-Ends offset idx s) (lex_ident-Ends offset idx s)))
        (Ends-if-run (is_digit c || c == b'-') _ _ s
          (value-Ends (read_int_or_float x idx) offset (λ t. t) (read_int_or_float-Ends x idx) s)
          (Ends-trans s (set_range offset s) _ (finish-Ends offset Token.eof s) (
            Ends-bind (get_slice idx (idx + 1)) _ (set_range offset s)
              (get_slice-Ends idx (idx + 1) (set_range offset s)) (λ text t a. Advances-refl t))))

  lex_longer-Ends : (offset idx c : ℕ) → EndsAll (Next.lex_longer x offset idx c)
  unfolding Next.lex_longer
  lex_longer-Ends offset idx c s =
      Ends-if-run (c == b'=') _ _ s
        (if_next-Ends b'>' _ (Next.finish x offset Token.assign)
          (finish-Ends offset Token.arrow_map) (finish-Ends offset Token.assign) s)
        (Ends-if-run (c == b'"') _ _ s
          (value-Ends (read_text_value x idx) offset _ (read_text_value-Ends x idx) s)
          (Ends-if-run (c == b';') _ _ s
            (value-Ends (read_comment x idx) offset _ (read_comment-Ends x idx) s)
            (Ends-if-run (c == b'/') _ _ s (lex_slash-Ends offset s) (
              Ends-if-run (c == b'#') _ _ s (lex_hash-Ends offset s) (
                Ends-if-run (c == b'\'') _ _ s (lex_quote-Ends offset s) (
                  Ends-if-run (c == b'.') _ _ s (lex_dot-Ends offset idx s)
                    (lex_other-Ends offset idx c s)))))))

  single-Ends :
      (offset : ℕ) (o : Option Token) (m : Next.Lexing x) (s : Lexer MultiPeek)
      → EndsAll m
      → Ends s ((elim o as (λ v. Next.Lexing x) [ some t ↦ Next.finish x offset t | none ↦ m ]) s)
  single-Ends offset none m s h = h s
  single-Ends offset (some t) m s h = finish-Ends offset t s

  pub lex_char-Ends : (offset : ℕ) (item : ℕ × ℕ) → EndsAll (Next.lex_char x offset item)
  unfolding Next.lex_char
  lex_char-Ends offset (idx, c) s =
      single-Ends offset (Next.single_token x c) _ s (lex_longer-Ends offset idx c)

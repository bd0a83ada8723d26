-- ===== src/Lexer/Strings.antt =====
-- src/lexer.rs: the reading of identifiers, text strings, byte strings and comments. Each loop reads a
-- character in every round but its last, so the number of characters left, and one more, is fuel enough.
pub mod Progress
pub mod Quoted
use cddl.Prelude.{
  ℕ, zero, suc, ◌+◌, Bool, true, false, not, ◌&&◌, ◌||◌, Option, none, some, List, [], ◌∷◌, Text,
  ◌==◌, if◌then◌else◌, length,
}
use cddl.Prelude.Decimal.{is_digit}
use cddl.Token.{Bytes}
use cddl.Token.Display.{drop_spaces}
use cddl.Lexer.Chars.{as_bytes, is_ascii_whitespace, is_schar, is_bchar, is_escaped}
use cddl.Lexer.State.{
  Externals, MsgType, LexerErrorType, lexer, Lexer, Step, ok, err, panic, out_of_fuel, ◌>>=◌, ◌>>◌,
  pure, fail, peek_char, get_slice, read_char, invalid_escape_character,
  invalid_text_string_literal_character, empty_text_string_literal,
  invalid_byte_string_literal_character, empty_byte_string_literal,
}

module _ (x : Externals) where
  open x use {MultiPeek, is_alphabetic}

  unfoldable pub is_ealpha : ℕ → Bool
  is_ealpha c = is_alphabetic c || c == b'@' || c == b'_' || c == b'$'

  abbrev pub is_identifier_char : ℕ → Bool
  is_identifier_char c = is_ealpha c || is_digit c || c == b'.' || c == b'-'

  -- Whether a space comes next, which ends an identifier behind a dot.
  abbrev pub space_next : Lexer MultiPeek → Bool
  space_next s = elim (peek_char s) [ none ↦ false | some (i, c) ↦ c == b' ' ]

  unfoldable pub identifier_loop : ℕ → ℕ → ℕ → Lexer MultiPeek → Step MultiPeek Text
  identifier_loop zero idx end_idx s = out_of_fuel
  identifier_loop (suc f) idx end_idx s = elim (peek_char s) [
    | none ↦ get_slice idx (end_idx + 1) s
    | some (i, c) ↦
        if is_identifier_char c
        then (read_char x >>= (λ (e, d) t.
              if c == b'.' && space_next t then get_slice idx e t else identifier_loop f idx e t))
            s
        else get_slice idx (end_idx + 1) s
  ]

  unfoldable pub read_identifier : ℕ → Lexer MultiPeek → Step MultiPeek Text
  unfolding identifier_loop is_ealpha
  read_identifier idx s = identifier_loop (suc (length s.input)) idx idx s

  -- What follows a backslash: the character that it escapes is read, or it is an error.
  unfoldable pub read_escape :
      (Lexer MultiPeek → Step MultiPeek Text) → Lexer MultiPeek → Step MultiPeek Text
  read_escape loop s = elim (peek_char s) [
    | none ↦ loop s
    | some (i, c) ↦
        if is_escaped c then (read_char x >> loop) s else fail (lexer invalid_escape_character) s
  ]

  unfoldable pub text_value_loop : ℕ → ℕ → Lexer MultiPeek → Step MultiPeek Text
  unfolding read_escape
  text_value_loop zero idx s = out_of_fuel
  text_value_loop (suc f) idx s = elim (peek_char s) [
    | none ↦ fail (lexer empty_text_string_literal) s
    | some (i, c) ↦
        if is_schar c
        then (read_char x >> text_value_loop f idx) s
        else if c == b'\\'
        then (read_char x >> read_escape (text_value_loop f idx)) s
        else if c == b'"'
        then (read_char x >>= (λ (e, d). get_slice (idx + 1) e)) s
        else fail (lexer invalid_text_string_literal_character) s
  ]

  unfoldable pub read_text_value : ℕ → Lexer MultiPeek → Step MultiPeek Text
  unfolding text_value_loop
  read_text_value idx s = text_value_loop (suc (length s.input)) idx s

  unfoldable pub byte_string_loop : ℕ → ℕ → Lexer MultiPeek → Step MultiPeek Text
  unfolding read_escape
  byte_string_loop zero idx s = out_of_fuel
  byte_string_loop (suc f) idx s = elim (peek_char s) [
    | none ↦ fail (lexer empty_byte_string_literal) s
    | some (i, c) ↦
        if is_bchar c
        then (read_char x >> byte_string_loop f idx) s
        else if c == b'\\'
        then (read_char x >> read_escape (byte_string_loop f idx)) s
        else if c == b'\''
        then (read_char x >>= (λ (e, d). get_slice idx e)) s
        else if is_ascii_whitespace c
        then (read_char x >> byte_string_loop f idx) s
        else fail (lexer invalid_byte_string_literal_character) s
  ]

  unfoldable pub read_byte_string : ℕ → Lexer MultiPeek → Step MultiPeek Text
  unfolding byte_string_loop
  read_byte_string idx s = byte_string_loop (suc (length s.input)) idx s

  -- The same loop with a flag for whitespace other than spaces, in whose presence the spaces are dropped.
  unfoldable pub prefixed_loop : ℕ → ℕ → Bool → Lexer MultiPeek → Step MultiPeek Text
  unfolding read_escape
  prefixed_loop zero idx has_whitespace s = out_of_fuel
  prefixed_loop (suc f) idx has_whitespace s = elim (peek_char s) [
    | none ↦ fail (lexer empty_byte_string_literal) s
    | some (i, c) ↦
        if is_bchar c
        then (read_char x >> prefixed_loop f idx has_whitespace) s
        else if c == b'\\'
        then (read_char x >> read_escape (prefixed_loop f idx has_whitespace)) s
        else if c == b'\''
        then (read_char x
              >>= (λ (e, d). get_slice idx e)
              >>= (λ t. pure (if has_whitespace then drop_spaces t else t)))
            s
        else if is_ascii_whitespace c
        then (read_char x >> prefixed_loop f idx true) s
        else fail (lexer invalid_byte_string_literal_character) s
  ]

  unfoldable pub read_prefixed_byte_string : ℕ → Lexer MultiPeek → Step MultiPeek Bytes
  unfolding prefixed_loop
  read_prefixed_byte_string idx =
      (λ s. prefixed_loop (suc (length s.input)) idx false s) >>= (λ t. pure (as_bytes t))

  unfoldable pub comment_loop : ℕ → ℕ → ℕ → Lexer MultiPeek → Step MultiPeek Text
  comment_loop zero idx last s = out_of_fuel
  comment_loop (suc f) idx last s = elim (peek_char s) [
    | none ↦ get_slice (idx + 1) (last + 1) s
    | some (i, c) ↦
        if not (c == 0x0a) && not (c == 0x0d)
        then (read_char x >>= (λ (e, d). comment_loop f idx e)) s
        else (read_char x >>= (λ (e, d). get_slice (idx + 1) e)) s
  ]

  unfoldable pub read_comment : ℕ → Lexer MultiPeek → Step MultiPeek Text
  unfolding comment_loop
  read_comment idx s = comment_loop (suc (length s.input)) idx idx s

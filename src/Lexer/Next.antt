-- ===== src/Lexer/Next.antt =====
-- src/lexer.rs: `next_token` and the iterator over the tokens.
pub mod Progress
pub mod Tokens
pub mod Single
pub mod Prefixed
pub mod First
pub mod Quoted
use cddl.Prelude.{
  ℕ, zero, suc, ◌+◌, ◌%◌, Bool, true, false, not, ◌&&◌, ◌||◌, Option, none, some, List, [], ◌∷◌,
  Text, ◌==◌, if◌then◌else◌, length,
}
use cddl.Prelude.Decimal.{is_digit}
use cddl.Token.{ByteValue, Value, Token, Bytes}
use cddl.Token.Lookup.{lookup_ident, lookup_control_from_str}
use cddl.Lexer.Chars.{as_bytes}
use cddl.Lexer.State.{
  Externals, Decoding, decoded, undecodable, overrun, LexerErrorType, lexer, base16, base64, Lexer,
  Step, ok, err, panic, out_of_fuel, Position, ◌>>=◌, ◌>>◌, pure, fail, peek_char, set_range,
  get_slice, read_char, skip_whitespace, lexer_new, invalid_control_operator, invalid_character,
}
use cddl.Lexer.Strings.{
  is_ealpha, read_identifier, read_text_value, read_byte_string, read_prefixed_byte_string,
  read_comment,
}
use cddl.Lexer.Numbers.{read_number, read_int_or_float}

module _ (x : Externals) where
  open x use {MultiPeek, base16_decode, base64url_decode}

  abbrev pub Lexing : Type 0
  Lexing = Lexer MultiPeek → Step MultiPeek (Position × Token)

  -- `self.position.range = (token_offset, self.position.index + 1); Ok((self.position, token))`
  abbrev pub finish : ℕ → Token → Lexing
  finish offset t s = let s' = set_range offset s in ok (s'.position, t) s'

  abbrev pub fail_at : ℕ → LexerErrorType → Lexing
  fail_at offset e s = fail e (set_range offset s)

  -- Whether the next character is the given one.
  abbrev pub next_is : ℕ → Lexer MultiPeek → Bool
  next_is c s = elim (peek_char s) [ none ↦ false | some (i, d) ↦ c == d ]

  -- Reads the next character if it is the given one, and goes on in one of two ways.
  unfoldable pub if_next : ℕ → Lexing → Lexing → Lexing
  if_next c found other s = if next_is c s then (read_char x >> found) s else other s

  unfoldable pub lex_slash : ℕ → Lexing
  unfolding if_next
  lex_slash offset =
      if_next b'/' (if_next b'=' (finish offset Token.g_choice_alt) (finish offset Token.g_choice))
        (if_next b'=' (finish offset Token.t_choice_alt) (finish offset Token.t_choice))

  -- Behind `#` and a digit: the major type, and the tag behind a dot. The position is taken before the
  -- tag's number is read.
  unfoldable pub lex_tag_number : ℕ → Lexing
  unfolding if_next read_number
  lex_tag_number offset = read_char x >>= (λ (idx, d). read_number x idx) >>= (λ (e, t).
      if_next b'.'
        (read_char x >>= (λ (idx, d) s.
          let s' = set_range offset s in
          (read_number x idx
              >>= (λ (e', n). pure (s'.position, Token.tag (some (t % 256)) (some n))))
            s'))
        (finish offset (Token.tag (some (t % 256)) none)))

  unfoldable pub lex_hash : ℕ → Lexing
  unfolding lex_tag_number
  lex_hash offset s = elim (peek_char s) [
    | none ↦ finish offset (Token.tag none none) s
    | some (i, c) ↦
        if is_digit c then lex_tag_number offset s else finish offset (Token.tag none none) s
  ]

  unfoldable pub lex_quote : ℕ → Lexing
  unfolding read_byte_string
  lex_quote offset =
      read_char x
      >>= (λ (idx, d). read_byte_string x idx)
      >>= (λ t. finish offset (Token.value (Value.byte (ByteValue.utf8 (as_bytes t)))))

  unfoldable pub lex_control : ℕ → ℕ → Lexing
  unfolding read_identifier
  lex_control offset idx = read_identifier x idx >>= (λ t. elim (lookup_control_from_str t) [
    | none ↦ fail_at offset (lexer invalid_control_operator)
    | some co ↦ finish offset (Token.control_operator co)
  ])

  unfoldable pub lex_dot : ℕ → ℕ → Lexing
  unfolding if_next lex_control is_ealpha
  lex_dot offset idx s = elim (peek_char s) [
    | none ↦ fail_at offset (lexer invalid_character) s
    | some (i, c) ↦
        if c == b'.'
        then (read_char x
              >> if_next b'.' (finish offset (Token.range_op false))
                  (finish offset (Token.range_op true)))
            s
        else if is_ealpha x c
        then lex_control offset idx s
        else fail_at offset (lexer invalid_character) s
  ]

  unfoldable pub lex_ident : ℕ → ℕ → Lexing
  unfolding read_identifier
  lex_ident offset idx = read_identifier x idx >>= (λ t. finish offset (lookup_ident t))

  -- The string behind `h'` or `b64'`, checked by a decoder whose output is not kept.
  abbrev pub lex_encoded : ℕ → (Bytes → Decoding) → LexerErrorType → (Bytes → ByteValue) → Lexing
  lex_encoded offset decode e value =
      read_char x >>= (λ (idx, d). read_prefixed_byte_string x idx) >>= (λ b. elim (decode b) [
        | decoded ↦ finish offset (Token.value (Value.byte (value b)))
        | undecodable ↦ fail e
        | overrun ↦ (λ s. panic)
      ])

  unfoldable pub lex_h : ℕ → ℕ → Lexing
  unfolding if_next read_prefixed_byte_string lex_ident
  lex_h offset idx =
      if_next b'\'' (lex_encoded offset base16_decode base16 ByteValue.b16) (lex_ident offset idx)

  -- The characters of `b64'` that match are read one by one, also where the prefix is not complete.
  unfoldable pub lex_b : ℕ → ℕ → Lexing
  unfolding if_next read_prefixed_byte_string lex_ident
  lex_b offset idx =
      if_next b'6'
        (if_next b'4'
          (if_next b'\'' (lex_encoded offset base64url_decode base64 ByteValue.b64)
            (lex_ident offset idx))
          (lex_ident offset idx))
        (lex_ident offset idx)

  -- The last arm of the `match`: names, numbers, and illegal characters.
  unfoldable pub lex_other : ℕ → ℕ → ℕ → Lexing
  unfolding lex_h lex_b lex_ident read_int_or_float is_ealpha
  lex_other offset idx c =
      if is_ealpha x c
      then (if c == b'h'
          then lex_h offset idx
          else if c == b'b'
          then lex_b offset idx
          else lex_ident offset idx)
      else if is_digit c || c == b'-'
      then read_int_or_float x idx >>= (λ t. finish offset t)
      else (λ s.
          (get_slice idx (idx + 1) >>= (λ t. pure ((set_range offset s).position, Token.illegal t)))
            (set_range offset s))

  -- The arms for one character that is a token by itself.
  abbrev pub single_token : ℕ → Option Token
  single_token c =
      if c == b'\n'
      then some Token.newline
      else if c == b'+'
      then some Token.one_or_more
      else if c == b'?'
      then some Token.optional
      else if c == b'*'
      then some Token.asterisk
      else if c == b'('
      then some Token.l_paren
      else if c == b')'
      then some Token.r_paren
      else if c == b'['
      then some Token.l_bracket
      else if c == b']'
      then some Token.r_bracket
      else if c == b'<'
      then some Token.l_angle_bracket
      else if c == b'{'
      then some Token.l_brace
      else if c == b'}'
      then some Token.r_brace
      else if c == b','
      then some Token.comma
      else if c == b':'
      then some Token.colon
      else if c == b'^'
      then some Token.cut
      else if c == b'&'
      then some Token.g_to_choice
      else if c == b'>'
      then some Token.r_angle_bracket
      else if c == b'~'
      then some Token.unwrap
      else none

  -- The arms for the characters that begin a longer token.
  unfoldable pub lex_longer : ℕ → ℕ → ℕ → Lexing
  unfolding if_next read_text_value read_comment lex_slash lex_hash lex_quote lex_dot lex_other
  lex_longer offset idx c =
      if c == b'='
      then if_next b'>' (finish offset Token.arrow_map) (finish offset Token.assign)
      else if c == b'"'
      then read_text_value x idx >>= (λ t. finish offset (Token.value (Value.text t)))
      else if c == b';'
      then read_comment x idx >>= (λ t. finish offset (Token.comment t))
      else if c == b'/'
      then lex_slash offset
      else if c == b'#'
      then lex_hash offset
      else if c == b'\''
      then lex_quote offset
      else if c == b'.'
      then lex_dot offset idx
      else lex_other offset idx c

  -- The `match` on the character that was read.
  unfoldable pub lex_char : ℕ → ℕ × ℕ → Lexing
  unfolding lex_longer
  lex_char offset (idx, c) = elim (single_token c) [
    | some t ↦ finish offset t
    | none ↦ lex_longer offset idx c
  ]

  -- At the end of the input `read_char` fails, and the token is `EOF`.
  unfoldable pub next_token : Lexing
  unfolding skip_whitespace read_char lex_char
  next_token = skip_whitespace x >>= (λ u s. elim (read_char x s) [
    | ok item t ↦ lex_char s.position.index item t
    | err e p t ↦ finish s.position.index Token.eof t
    | panic ↦ panic
    | out_of_fuel ↦ out_of_fuel
  ])

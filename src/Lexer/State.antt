-- ===== src/Lexer/State.antt =====
-- src/lexer.rs: the state of the lexer, its errors, and the reading of one character. What the lexer
-- takes from other crates and from the tables of Unicode is the parameter `Externals`.
pub mod Advance
use cddl.Prelude.{
  ℕ, zero, suc, ◌+◌, Bool, true, false, not, Option, none, some, List, [], ◌∷◌, Text, ◌==◌,
  if◌then◌else◌, head?, length,
}
use cddl.Prelude.Int.{ℤ}
use cddl.Token.{F64, Usize, Bytes}
use cddl.Lexer.Chars.{char_indices, is_ascii_whitespace, slice}

-- A decoder returns, reports an error, or panics on a buffer that is too small.
pub data Decoding : Type 0 where
  decoded undecodable overrun : Decoding

-- `itertools::MultiPeek` over characters with their offsets; `lexical_core` and `hexf_parse` on a text;
-- `base16::decode_slice` into 1024 bytes; `BASE64URL.decode_mut` into a buffer of
-- `BASE64.decode_len(..).unwrap()` bytes; `as` casts of an `f64`; the classes of `char`.
pub record Externals : Type 1 where
  pub MultiPeek : Type 0
  pub multipeek : List (ℕ × ℕ) → MultiPeek
  pub multipeek_next : MultiPeek → MultiPeek
  pub multipeek_peek : MultiPeek → Option (ℕ × ℕ) × MultiPeek
  pub parse_f64 : Text → Option F64
  pub parse_hexf64 : Text → Option F64
  pub f64_as_isize : F64 → ℤ
  pub f64_as_usize : F64 → Usize
  pub base16_decode : Bytes → Decoding
  pub base64url_decode : Bytes → Decoding
  pub is_alphabetic : ℕ → Bool
  pub is_whitespace : ℕ → Bool

-- The messages of src/error.rs that the lexer emits.
pub data MsgType : Type 0 where
  unable_to_advance_token invalid_control_operator invalid_character : MsgType
  invalid_escape_character invalid_text_string_literal_character : MsgType
  empty_text_string_literal invalid_byte_string_literal_character : MsgType
  empty_byte_string_literal invalid_hex_float invalid_exponent : MsgType

-- The texts of the other crates' errors are left out.
pub data LexerErrorType : Type 0 where
  lexer : MsgType → LexerErrorType
  base16 base64 parse_int parse_float parse_hexf : LexerErrorType

pub record Position : Type 0 where
  pub line : ℕ
  pub column : ℕ
  pub range : ℕ × ℕ
  pub index : ℕ

pub record Lexer (M : Type 0) : Type 0 where
  pub str_input : Text
  pub input : List (ℕ × ℕ)
  pub multipeek : M
  pub position : Position

-- A call returns, reports an error at a position, panics, or runs out of the fuel of the model.
pub data Step (M : Type 0) (A : Type 0) : Type 0 where
  ok : A → Lexer M → Step M A
  err : LexerErrorType → Position → Lexer M → Step M A
  panic : Step M A
  out_of_fuel : Step M A

infixl 5 ◌>>=◌ ◌>>◌
abbrev pub ◌>>=◌ :
    {M A B : Type 0} → (Lexer M → Step M A) → (A → Lexer M → Step M B) → Lexer M → Step M B
◌>>=◌ m f s = elim (m s) [
  | ok a t ↦ f a t
  | err e p t ↦ err e p t
  | panic ↦ panic
  | out_of_fuel ↦ out_of_fuel
]

abbrev pub ◌>>◌ :
    {M A B : Type 0} → (Lexer M → Step M A) → (Lexer M → Step M B) → Lexer M → Step M B
m >> k = m >>= (λ _. k)

abbrev pub pure : {M A : Type 0} → A → Lexer M → Step M A
pure a s = ok a s

abbrev pub fail : {M A : Type 0} → LexerErrorType → Lexer M → Step M A
fail e s = err e s.position s

abbrev pub peek_char : {M : Type 0} → Lexer M → Option (ℕ × ℕ)
peek_char s = head? s.input

abbrev pub set_index : {M : Type 0} → ℕ → Lexer M → Lexer M
set_index i s = record s { position = record (s.position) { index = i } }

abbrev pub set_range : {M : Type 0} → ℕ → Lexer M → Lexer M
set_range offset s = record s {
  position = record (s.position) { range = (offset, s.position.index + 1) };
}

-- The slice of the input from `a` to `b`.
unfoldable pub get_slice : {M : Type 0} → ℕ → ℕ → Lexer M → Step M Text
get_slice a b s = elim (slice s.str_input a b) [ none ↦ panic | some t ↦ ok t s ]

-- The number of newlines among characters with their offsets.
abbrev pub newlines : List (ℕ × ℕ) → ℕ
newlines [] = 0
newlines ((i, c) ∷ cs) = (if c == b'\n' then 1 else 0) + newlines cs

-- The position behind a character.
abbrev pub pass_char : Position → ℕ → ℕ → Position
pass_char p i c = record p {
  line = if c == b'\n' then p.line + 1 else p.line;
  column = if c == b'\n' then 1 else p.column + 1;
  index = if is_ascii_whitespace c then p.index else i;
}

module _ (x : Externals) where
  open x use {MultiPeek, multipeek, multipeek_next, is_whitespace}

  unfoldable pub lexer_new : Text → Lexer MultiPeek
  lexer_new str_input = record {
    str_input = str_input;
    input = char_indices 0 str_input;
    multipeek = multipeek (char_indices 0 str_input);
    position = record { line = 1; column = 1; range = (0, 0); index = 0 };
  }

  unfoldable pub read_char : Lexer MultiPeek → Step MultiPeek (ℕ × ℕ)
  read_char s = elim s.input [
    | [] ↦
        fail (lexer unable_to_advance_token) (record s { multipeek = multipeek_next s.multipeek })
    | (i, c) ∷ rest ↦
        ok (i, c)
          (record s {
            input = rest;
            multipeek = multipeek_next s.multipeek;
            position = pass_char s.position i c;
          })
  ]

  -- The loop of `skip_whitespace`; each round but the last reads a character.
  unfoldable pub skip_loop : ℕ → Lexer MultiPeek → Step MultiPeek (Unit {0})
  skip_loop zero s = out_of_fuel
  skip_loop (suc f) s = elim (peek_char s) [
    | none ↦ ok tt s
    | some (i, c) ↦
        if c == b'\n'
        then ok tt (set_index i s)
        else if is_whitespace c
        then (read_char >> skip_loop f) s
        else ok tt (set_index i s)
  ]

  unfoldable pub skip_whitespace : Lexer MultiPeek → Step MultiPeek (Unit {0})
  unfolding skip_loop
  skip_whitespace s = skip_loop (suc (length s.input)) s

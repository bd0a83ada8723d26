-- ===== src/Parser/State.antt =====
-- src/parser.rs: the state of the parser, its errors, and the reading of one token. Spans and the
-- positions of errors are left out; the position of a token is kept, since rules are parsed again from
-- it. The iterator of tokens is a lexer or the tokens of a `Vec`.
use cddl.Prelude.{
  ℕ, Bool, true, false, Option, none, List, [], ◌∷◌, ◌++◌, Text, codes, ◌==◌, if◌then◌else◌, length,
  map,
}
use cddl.Token.{Token, SocketPlug}
use cddl.Ast.{Identifier}
use cddl.Lexer.State.{Externals, LexerErrorType, Lexer, Position, Step}
use cddl.Lexer.Next
use cddl.Parser.Discriminant.{discriminant}

-- The messages of src/error.rs that the parser emits, and the one that it formats itself.
pub data ErrorMsg : Type 0 where
  duplicate_rule_identifier invalid_rule_identifier missing_assignment_token : ErrorMsg
  invalid_generic_syntax missing_generic_closing_delimiter invalid_generic_identifier : ErrorMsg
  invalid_unwrap_syntax invalid_group_to_choice_enum_syntax invalid_tag_syntax : ErrorMsg
  missing_group_entry_member_key missing_group_entry invalid_group_entry_syntax : ErrorMsg
  missing_closing_delimiter missing_closing_parend : ErrorMsg
  invalid_member_key_arrow_map_syntax invalid_member_key_syntax : ErrorMsg
  invalid_occurrence_syntax no_rules_defined incomplete_rule_entry : ErrorMsg
  type_socket_names_must_be_type_augmentations : ErrorMsg
  group_socket_names_must_be_group_augmentations : ErrorMsg
  missing_definition_for_rule : Text → ErrorMsg

pub data Error : Type 0 where
  parser : ErrorMsg → Error
  lexer : LexerErrorType → Error
  incremental : Error

pub data Tokens (M : Type 0) : Type 0 where
  lexing : Lexer M → Tokens M
  items : List (Position × Token) → Tokens M

pub record Parser (M : Type 0) : Type 0 where
  pub tokens : Tokens M
  pub str_input : Text
  pub cur_token : Token
  pub peek_token : Token
  pub lexer_position : Position
  pub peek_lexer_position : Position
  pub errors : List Error
  pub current_rule_generic_param_idents : Option (List Text)
  pub typenames : List Text
  pub groupnames : List Text
  pub unknown_rule_idents : List Text
  pub is_guaranteed : Bool

-- A call returns, reports an error, panics, or runs out of the fuel of the model.
pub data Parsed (M : Type 0) (A : Type 0) : Type 0 where
  ok : A → Parser M → Parsed M A
  err : Error → Parser M → Parsed M A
  panic : Parsed M A
  out_of_fuel : Parsed M A

module _ {M A B : Type 0} where
  abbrev pub and_then : Parsed M A → (A → Parser M → Parsed M B) → Parsed M B
  and_then (ok a q) k = k a q
  and_then (err e q) k = err e q
  and_then panic k = panic
  and_then out_of_fuel k = out_of_fuel

  infixl 5 ◌>>=◌ ◌>>◌
  abbrev pub ◌>>=◌ : (Parser M → Parsed M A) → (A → Parser M → Parsed M B) → Parser M → Parsed M B
  ◌>>=◌ m k p = and_then (m p) k

  abbrev pub ◌>>◌ : (Parser M → Parsed M A) → (Parser M → Parsed M B) → Parser M → Parsed M B
  ◌>>◌ m k p = and_then (m p) (λ a. k)

abbrev pub push_error : {M : Type 0} → ErrorMsg → Parser M → Parser M
push_error msg p = record p { errors = p.errors ++ (parser msg ∷ []) }

module _ {M A : Type 0} where
  abbrev pub pure : A → Parser M → Parsed M A
  pure a p = ok a p

  -- `self.errors.push(Error::PARSER { .. }); return Err(Error::INCREMENTAL);`
  abbrev pub fail : ErrorMsg → Parser M → Parsed M A
  fail msg p = err incremental (push_error msg p)

abbrev pub cur_token_is : {M : Type 0} → Token → Parser M → Bool
cur_token_is t p = discriminant p.cur_token == discriminant t

abbrev pub peek_token_is : {M : Type 0} → Token → Parser M → Bool
peek_token_is t p = discriminant p.peek_token == discriminant t

-- One of two calls, by the current token or the next one.
module _ {M A : Type 0} where
  abbrev pub if_cur :
      Token → (Parser M → Parsed M A) → (Parser M → Parsed M A) → Parser M → Parsed M A
  if_cur t m k p = if cur_token_is t p then m p else k p

  abbrev pub if_peek :
      Token → (Parser M → Parsed M A) → (Parser M → Parsed M A) → Parser M → Parsed M A
  if_peek t m k p = if peek_token_is t p then m p else k p

abbrev pub identifier_from_ident_token : Text → Option SocketPlug → Identifier
identifier_from_ident_token ident socket = record { ident = ident; socket = socket }

-- The first names of the standard prelude that `new` registers.
abbrev pub prelude_names : List Text
prelude_names = map codes (
    "any" ∷ "uint" ∷ "nint" ∷ "int" ∷ "bstr" ∷ "bytes" ∷ "tstr" ∷ "text" ∷ "tdate" ∷ "time"
    ∷ "number" ∷ "biguint" ∷ "bignint" ∷ "bigint" ∷ "integer" ∷ "unsigned" ∷ "decfrac" ∷ "bigfloat"
    ∷ "eb64url" ∷ "eb64legacy" ∷ "eb16" ∷ "encoded-cbor" ∷ "uri" ∷ "b64url" ∷ "b64legacy" ∷ "regexp"
    ∷ "mime-message" ∷ "cbor-any" ∷ "float16" ∷ "float32" ∷ "float64" ∷ "float16-32" ∷ "float32-64"
    ∷ "float" ∷ "false" ∷ "true" ∷ "bool" ∷ "nil" ∷ "null" ∷ "undefined" ∷ [])

abbrev pub default_position : Position
default_position = record { line = 1; column = 1; range = (0, 0); index = 0 }

-- A bound on the tokens before the iterator yields `EOF` or nothing.
abbrev pub remaining : {M : Type 0} → Tokens M → ℕ
remaining (lexing s) = length s.input
remaining (items ts) = length ts

module _ (x : Externals) where
  open x use {MultiPeek}

  abbrev pub Cmd : Type 0 → Type 0
  Cmd A = Parser MultiPeek → Parsed MultiPeek A

  abbrev pub swap_tokens : Parser MultiPeek → Parser MultiPeek
  swap_tokens p = record p {
    cur_token = p.peek_token;
    peek_token = p.cur_token;
    lexer_position = p.peek_lexer_position;
    peek_lexer_position = p.lexer_position;
  }

  abbrev pub set_peek : Tokens MultiPeek → Position → Token → Parser MultiPeek → Parser MultiPeek
  set_peek ts pos t p = record p { tokens = ts; peek_token = t; peek_lexer_position = pos }

  -- `self.tokens.next()`: where the `Vec` is at its end, the swapped tokens stay.
  unfoldable pub pull : Tokens MultiPeek → Cmd (Unit {0})
  unfolding Next.next_token
  pull (items []) p = ok tt p
  pull (items ((pos, t) ∷ ts)) p = ok tt (set_peek (items ts) pos t p)
  pull (lexing s) p = elim (Next.next_token x s) [
    | Step.ok (pos, t) s' ↦ ok tt (set_peek (lexing s') pos t p)
    | Step.err e pos s' ↦ err (lexer e) (record p { tokens = lexing s' })
    | Step.panic ↦ panic
    | Step.out_of_fuel ↦ out_of_fuel
  ]

  unfoldable pub next_token : Cmd (Unit {0})
  unfolding pull
  next_token p = pull p.tokens (swap_tokens p)

  unfoldable pub expect_peek : Token → Cmd Bool
  unfolding next_token
  expect_peek t = if_peek t (next_token >> pure true) (pure false)

  abbrev pub blank_parser : Text → Tokens MultiPeek → Parser MultiPeek
  blank_parser str_input tokens = record {
    tokens = tokens;
    str_input = str_input;
    cur_token = Token.eof;
    peek_token = Token.eof;
    lexer_position = default_position;
    peek_lexer_position = default_position;
    errors = [];
    current_rule_generic_param_idents = none;
    typenames = prelude_names;
    groupnames = [];
    unknown_rule_idents = [];
    is_guaranteed = false;
  }

  unfoldable pub parser_new : Text → Tokens MultiPeek → Parsed MultiPeek (Unit {0})
  unfolding next_token
  parser_new str_input tokens = (next_token >> next_token) (blank_parser str_input tokens)

-- ===== src/Parser/Occur.antt =====
-- src/parser.rs: `parse_occur`.
pub mod RoundTrip
use cddl.Prelude.{ℕ, Bool, true, false, Option, none, some, if◌then◌else◌}
use cddl.Token.{Usize, Value, Token}
use cddl.Lexer.State.{Externals}
use cddl.Ast.{Occur}
use cddl.Parser.State.{
  Parser, ok, ◌>>=◌, ◌>>◌, pure, fail, if_peek, Cmd, next_token, invalid_occurrence_syntax,
}
use cddl.Parser.Comments.{collect_comments}

-- `if let Token::VALUE(token::Value::UINT(u)) = token`.
abbrev pub uint_value : Token → Option Usize
uint_value (Token.value (Value.uint n)) = some n
uint_value _ = none

abbrev pub asterisk_occur : Token → Occur
asterisk_occur peek = elim (uint_value peek) [
  | some u ↦ Occur.exact none (some u)
  | none ↦ Occur.zero_or_more
]

module _ (x : Externals) where
  open x use {MultiPeek}

  -- The indicator, behind the comments that follow it.
  abbrev pub occurrence : Occur → Cmd x (Option Occur)
  occurrence o = collect_comments x >> pure (some o)

  -- A number that is the current token is read over.
  unfoldable pub take_uint : Cmd x (Option Usize)
  unfolding next_token
  take_uint p = elim (uint_value p.cur_token) [
    | some n ↦ (next_token x >> pure (some n)) p
    | none ↦ ok none p
  ]

  unfoldable pub parse_occur : Bool → Cmd x (Option Occur)
  unfolding next_token take_uint collect_comments
  parse_occur is_optional p = elim p.cur_token [
    | Token.optional ↦ (next_token x >> occurrence Occur.optional) p
    | Token.one_or_more ↦ (next_token x >> occurrence Occur.one_or_more) p
    | Token.asterisk ↦ (next_token x >> take_uint >> occurrence (asterisk_occur p.peek_token)) p
    | Token.value v ↦
        if_peek Token.asterisk
          (do
            next_token x
            next_token x
            upper ← take_uint
            occurrence (Occur.exact (uint_value (Token.value v)) upper))
          (if is_optional then pure none else fail invalid_occurrence_syntax) p
    | _ ↦ ok none p
  ]

-- ===== src/Parser/Groups.antt =====
-- src/parser.rs: `parse_group` and `parse_grpchoice`.
use cddl.Prelude.{
  ℕ, zero, suc, Bool, true, false, ◌||◌, Option, none, some, List, [], ◌∷◌, any, if◌then◌else◌,
}
use cddl.Token.{Token}
use cddl.Token.Lookup.{closing_delimiter}
use cddl.Lexer.State.{Externals}
use cddl.Ast.{Group, no_group_choices, group_choice, GroupChoice, no_group_entries, group_entry}
use cddl.Parser.State.{
  Parser, ok, out_of_fuel, ◌>>=◌, ◌>>◌, pure, fail, cur_token_is, peek_token_is, if_cur, Cmd,
  next_token, missing_closing_delimiter,
}
use cddl.Parser.Comments.{collect_comments}
use cddl.Parser.Calls.{Calls}

-- Whether the current token is one of the given.
abbrev pub cur_is_any : {M : Type 0} → List Token → Parser M → Bool
cur_is_any ts p = any (λ t. cur_token_is t p) ts

abbrev pub is_ident : Token → Bool
is_ident (Token.ident s socket) = true
is_ident _ = false

-- Tokens that end the entries of a choice.
abbrev pub closing : List Token
closing = Token.r_brace ∷ Token.r_paren ∷ Token.r_bracket ∷ Token.eof ∷ []

-- Tokens behind an entry that are not read over.
abbrev kept : List Token
kept =
    Token.r_paren ∷ Token.r_brace ∷ Token.r_bracket ∷ Token.l_paren ∷ Token.l_brace
    ∷ Token.l_bracket ∷ Token.comma ∷ Token.optional ∷ Token.one_or_more ∷ Token.asterisk
    ∷ Token.eof ∷ []

abbrev pub keeps_token : {M : Type 0} → Parser M → Bool
keeps_token p =
    cur_is_any kept p
    || (peek_token_is Token.colon p || (peek_token_is Token.arrow_map p || is_ident p.cur_token))

-- Whether the current token is the delimiter that closes the group, if it has one.
abbrev pub closes : {M : Type 0} → Option Token → Parser M → Bool
closes none p = true
closes (some cd) p = cur_token_is cd p

module _ (x : Externals) where
  open x use {MultiPeek}

  unfoldable pub skip_unless_kept : Cmd x (Unit {0})
  unfolding next_token
  skip_unless_kept p = if keeps_token p then ok tt p else next_token x p

  -- An optional comma.
  unfoldable pub optional_comma : Cmd x Bool
  unfolding next_token
  optional_comma = if_cur Token.comma (next_token x >> pure true) (pure false)

module _ (x : Externals) (c : Calls x) where
  open x use {MultiPeek}

  unfoldable pub entry_loop : ℕ → Cmd x GroupChoice
  unfolding next_token collect_comments
  entry_loop zero p = out_of_fuel
  entry_loop (suc n) p =
      if cur_is_any closing p
      then ok no_group_entries p
      else (do
        ge ← c.parse_grpent false
        if_cur Token.g_choice (pure (group_entry ge false no_group_entries)) (do
          skip_unless_kept x
          comma ← optional_comma x
          collect_comments x
          rest ← entry_loop n
          pure (group_entry ge comma rest)))
          p

  unfoldable pub parse_grpchoice : Cmd x GroupChoice
  unfolding entry_loop next_token collect_comments
  parse_grpchoice = do
    λ p.
        if cur_is_any (Token.g_choice ∷ Token.l_brace ∷ Token.l_bracket ∷ []) p
        then (do next_token x; collect_comments x; pure tt) p
        else ok tt p
    entry_loop c.rounds

  unfoldable pub group_loop : ℕ → Cmd x Group
  group_loop zero p = out_of_fuel
  group_loop (suc n) p =
      if_cur Token.g_choice
        (do gc ← c.parse_grpchoice; rest ← group_loop n; pure (group_choice gc rest))
        (pure no_group_choices) p

  unfoldable pub parse_group : Cmd x Group
  unfolding group_loop closing_delimiter
  parse_group p =
      (do
        gc ← c.parse_grpchoice
        rest ← group_loop c.rounds
        λ q.
            if closes (closing_delimiter p.cur_token) q
            then ok (group_choice gc rest) q
            else fail missing_closing_delimiter q)
        p

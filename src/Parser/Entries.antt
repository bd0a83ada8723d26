-- ===== src/Parser/Entries.antt =====
-- src/parser.rs: `parse_grpent`. The loop that looks for `>` has a round for each token that is left and
-- a few more: at the end of the input it would not end.
use cddl.Prelude.{
  ℕ, zero, suc, ◌+◌, Bool, true, false, not, ◌&&◌, Option, none, some, if◌then◌else◌,
}
use cddl.Token.{Token}
use cddl.Lexer.State.{Externals}
use cddl.Ast.{
  Occur, GroupEntry, value_member_key, type_groupname, inline_group, MaybeMemberKey, no_member_key,
  non_member_group, non_member_type, TypeExpr, MaybeGenericArgs, no_generic_args, generic_args,
}
use cddl.Parser.State.{
  ok, out_of_fuel, ◌>>=◌, ◌>>◌, pure, fail, cur_token_is, peek_token_is, if_cur, if_peek, remaining,
  Cmd, next_token, missing_closing_parend,
}
use cddl.Ast.Convert.{groupname_entry}
use cddl.Parser.Comments.{collect_comments, take_comments_after_type}
use cddl.Parser.Calls.{Calls, is_groupname, forget_groupname}
use cddl.Parser.Occur.{parse_occur}

abbrev pub has_args : MaybeGenericArgs → Bool
has_args no_generic_args = false
has_args (generic_args args) = true

abbrev pub has_key : MaybeMemberKey → Bool
has_key no_member_key = false
has_key _ = true

module _ (x : Externals) where
  open x use {MultiPeek}

  -- `while !self.peek_token_is(&Token::RANGLEBRACKET) { self.next_token()?; }`
  unfoldable pub skip_to_angle : ℕ → Cmd x (Unit {0})
  unfolding next_token
  skip_to_angle zero p = out_of_fuel
  skip_to_angle (suc n) p =
      if_peek Token.r_angle_bracket (pure tt) (next_token x >> skip_to_angle n) p

  -- Generic arguments that were not read yet.
  unfoldable pub skip_args : MaybeGenericArgs → Cmd x (Unit {0})
  unfolding skip_to_angle next_token
  skip_args args p =
      if has_args args && peek_token_is Token.l_angle_bracket p
      then (skip_to_angle (remaining p.tokens + 4) >> next_token x) p
      else ok tt p

  -- An entry that is only a type: the name of a group, or a type with no key. `before_name` is called
  -- where it is a name, and `before_type` where it is not.
  unfoldable pub type_entry :
      Option Occur
      → TypeExpr
      → (MaybeGenericArgs → Cmd x (Unit {0}))
      → Cmd x (Unit {0})
      → Cmd x GroupEntry
  unfolding groupname_entry
  type_entry occur entry_type before_name before_type p = elim (groupname_entry entry_type) [
    | none ↦ (before_type >> pure (value_member_key occur no_member_key entry_type)) p
    | some (name, args) ↦
        if is_groupname p name
        then (before_name args
              >> (λ q. ok (type_groupname occur name args) (forget_groupname name q)))
            p
        else (before_type >> pure (value_member_key occur no_member_key entry_type)) p
  ]

  -- An opening delimiter behind a type that is no key is read over.
  unfoldable pub skip_opening : Cmd x (Unit {0})
  unfolding next_token
  skip_opening =
      if_cur Token.l_paren (next_token x)
        (if_cur Token.l_brace (next_token x) (if_cur Token.l_bracket (next_token x) (pure tt)))

module _ (x : Externals) (c : Calls x) where
  open x use {MultiPeek}

  unfoldable pub paren_entry : Option Occur → Cmd x GroupEntry
  unfolding next_token collect_comments
  paren_entry occur = do
    next_token x
    collect_comments x
    group ← c.parse_group
    collect_comments x
    if_cur Token.r_paren (next_token x) (fail missing_closing_parend)
    pure (inline_group occur group)

  abbrev pub keyed_entry : Option Occur → MaybeMemberKey → Cmd x GroupEntry
  keyed_entry occur key = do
    (entry_type, comments) ← c.parse_type none
    pure (value_member_key occur key entry_type)

  unfoldable pub key_entry : Option Occur → MaybeMemberKey → Cmd x GroupEntry
  unfolding type_entry skip_opening skip_args collect_comments
  key_entry occur (non_member_type t) = type_entry x occur t (λ args. pure tt) (skip_opening x)
  key_entry occur (non_member_group group) = pure (inline_group occur group)
  key_entry occur no_member_key = do
    (entry_type, comments) ← c.parse_type none
    elim (take_comments_after_type comments) [ some cs ↦ pure none | none ↦ collect_comments x ]
    type_entry x occur entry_type (skip_args x) (pure tt)
  key_entry occur key = keyed_entry occur key

  unfoldable pub parse_grpent : Bool → Cmd x GroupEntry
  unfolding parse_occur paren_entry key_entry
  parse_grpent from_rule = do
    occur ← parse_occur x true
    key ← if from_rule then pure no_member_key else c.parse_memberkey true
    λ p.
        if cur_token_is Token.l_paren p && not (has_key key)
        then paren_entry occur p
        else key_entry occur key p

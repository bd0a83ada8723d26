-- ===== src/Parser/MemberKeys.antt =====
-- src/parser.rs: `parse_memberkey` and `parse_memberkey_from_ident`. What stands between parentheses is
-- read up to the closing one, and parsed by a parser of its own.
use cddl.Prelude.{
  ℕ, zero, suc, ◌+◌, ◌-◌, Bool, true, false, not, ◌&&◌, ◌||◌, Option, none, some, List, [], ◌∷◌,
  ◌++◌, Text, ltb, if◌then◌else◌,
}
use cddl.Token.{Token, SocketPlug, Value}
use cddl.Token.Lookup.{in_standard_prelude}
use cddl.Lexer.State.{Externals, Position}
use cddl.Ast.{
  Identifier, Type1, type1, no_operator, typename, parenthesized_type, no_generic_args, TypeExpr,
  type_choice, no_type_choices, MaybeMemberKey, no_member_key, type1_key, bareword, value_key,
  non_member_group, non_member_type,
}
use cddl.Parser.State.{
  Parser, Parsed, ok, err, panic, out_of_fuel, Error, incremental, items, ◌>>=◌, ◌>>◌, pure, fail,
  cur_token_is, peek_token_is, if_cur, remaining, Cmd, next_token, parser_new,
  identifier_from_ident_token, missing_closing_parend, invalid_member_key_arrow_map_syntax,
  invalid_member_key_syntax,
}
use cddl.Parser.Comments.{collect_comments}
use cddl.Parser.Calls.{Calls, skip_cur}
use cddl.Parser.Groups.{cur_is_any}

abbrev pub peeks_key : {M : Type 0} → Parser M → Bool
peeks_key p =
    peek_token_is Token.colon p || (peek_token_is Token.arrow_map p || peek_token_is Token.cut p)

-- Whether a token may be a comment.
abbrev pub is_comment : Token → Bool
is_comment (Token.comment c) = true
is_comment _ = false

abbrev pub ident_type1 : Identifier → Type1
ident_type1 i = type1 (typename i no_generic_args) no_operator

abbrev pub paren_type1 : TypeExpr → Type1
paren_type1 t = type1 (parenthesized_type t) no_operator

-- Tokens by which what stands between parentheses is taken for a group.
abbrev pub group_tokens : List Token
group_tokens = Token.arrow_map ∷ Token.colon ∷ Token.optional ∷ Token.asterisk ∷ Token.g_choice ∷ []

module _ (x : Externals) where
  open x use {MultiPeek}

  -- Behind `^`: the arrow has to follow.
  unfoldable pub arrow_after_cut : Cmd x (Unit {0})
  unfolding next_token collect_comments
  arrow_after_cut = do
    next_token x
    collect_comments x
    if_cur Token.arrow_map (pure tt) (fail invalid_member_key_arrow_map_syntax)

  unfoldable pub skip : Cmd x (Unit {0})
  unfolding next_token collect_comments
  skip = do next_token x; collect_comments x; pure tt

  -- Comments behind the arrow.
  unfoldable pub comments_after_arrow : Cmd x (Unit {0})
  unfolding skip
  comments_after_arrow p = if is_comment p.peek_token then skip p else ok tt p

  unfoldable pub ident_key : Identifier → Cmd x MaybeMemberKey
  unfolding next_token collect_comments arrow_after_cut comments_after_arrow skip_cur
  ident_key i = do
    next_token x
    collect_comments x
    if_cur Token.cut
        (do
          arrow_after_cut
          comments_after_arrow
          next_token x
          pure (type1_key (ident_type1 i) true))
        (if_cur Token.arrow_map
          (do
            comments_after_arrow
            next_token x
            collect_comments x
            pure (type1_key (ident_type1 i) false))
          (do skip_cur x Token.colon; collect_comments x; pure (bareword i)))

  unfoldable pub parse_memberkey_from_ident : Bool → Text → Option SocketPlug → Cmd x MaybeMemberKey
  unfolding ident_key
  parse_memberkey_from_ident is_optional ident socket p =
      if not (peeks_key p) && is_optional
      then ok no_member_key p
      else ident_key (identifier_from_ident_token ident socket) p

  -- One token between the parentheses: the number of open ones behind it, if it does not close them.
  abbrev pub nested_parend_count : ℕ → Parser MultiPeek → Option ℕ
  nested_parend_count count p =
      if cur_token_is Token.l_paren p
      then some (count + 1)
      else if cur_token_is Token.r_paren p
      then (if ltb 0 count then some (count - 1) else none)
      else some count

  unfoldable pub read_item : Cmd x (Position × Token)
  unfolding skip
  read_item p =
      (skip
          >> if_cur Token.eof (fail missing_closing_parend) (pure (p.lexer_position, p.cur_token)))
        p

  -- Up to the closing parenthesis: whether a token of a group stands there, and the tokens.
  unfoldable pub paren_items : ℕ → ℕ → Bool → Cmd x (Bool × List (Position × Token))
  unfolding read_item
  paren_items zero count has_entries p = out_of_fuel
  paren_items (suc n) count has_entries p =
      (do
        item ← read_item
        elim (nested_parend_count count p) [
          | none ↦ pure (has_entries || cur_is_any group_tokens p, item ∷ [])
          | some count' ↦ (do
            (has, rest) ← paren_items n count' (has_entries || cur_is_any group_tokens p)
            pure (has, item ∷ rest))
        ])
        p

  abbrev pub add_errors : List Error → Parser MultiPeek → Parser MultiPeek
  add_errors es p = record p { errors = p.errors ++ es }

  -- The outcome of the other parser: its state is dropped, its errors are taken over.
  abbrev pub take_over : {A : Type 0} → Parsed MultiPeek A → Cmd x A
  take_over (ok a q) p = ok a p
  take_over (err incremental q) p = err incremental (add_errors q.errors p)
  take_over (err e q) p = err e p
  take_over panic p = panic
  take_over out_of_fuel p = out_of_fuel

  -- A call on a new parser over the tokens.
  unfoldable pub parse_items : {A : Type 0} → Cmd x A → List (Position × Token) → Cmd x A
  unfolding parser_new
  parse_items m ts p = elim (parser_new x p.str_input (items ts)) [
    | ok u q ↦ take_over (m q) p
    | err e q ↦ err e p
    | panic ↦ panic
    | out_of_fuel ↦ out_of_fuel
  ]

module _ (x : Externals) (c : Calls x) where
  open x use {MultiPeek}

  unfoldable pub value_memberkey : Value → Cmd x MaybeMemberKey
  unfolding next_token collect_comments arrow_after_cut skip_cur
  value_memberkey value = do
    (t1, comments) ← c.parse_type1 none
    collect_comments x
    key ←
        if_cur Token.cut (do arrow_after_cut x; skip x; pure (type1_key t1 true))
          (do
            collect_comments x
            if_cur Token.arrow_map (pure tt)
                (if_cur Token.colon (pure tt) (fail invalid_member_key_syntax))
            skip x
            pure (value_key value))
    skip_cur x Token.colon
    pure key

  -- What follows a type between parentheses. Behind `^` the arrow is not read over.
  unfoldable pub paren_type_key : TypeExpr → Cmd x MaybeMemberKey
  unfolding collect_comments arrow_after_cut
  paren_type_key t = do
    collect_comments x
    if_cur Token.cut (do arrow_after_cut x; pure (type1_key (paren_type1 t) true))
        (if_cur Token.arrow_map (do skip x; pure (type1_key (paren_type1 t) false))
          (pure (non_member_type t)))

  unfoldable pub paren_memberkey : Cmd x MaybeMemberKey
  unfolding paren_items parse_items paren_type_key
  paren_memberkey = do
    skip x
    (has_group_entries, ts) ← λ p. paren_items x (remaining p.tokens + 4) 0 false p
    if has_group_entries
        then (do group ← parse_items x c.parse_group ts; pure (non_member_group group))
        else (do (t, comments) ← parse_items x (c.parse_type none) ts; paren_type_key t)

  unfoldable pub type_memberkey : Cmd x MaybeMemberKey
  unfolding collect_comments arrow_after_cut
  type_memberkey = do
    (t1, comments) ← c.parse_type1 none
    collect_comments x
    if_cur Token.cut (do arrow_after_cut x; skip x; pure (type1_key t1 true))
        (if_cur Token.arrow_map (do skip x; pure (type1_key t1 false))
          (pure (non_member_type (type_choice t1 no_type_choices))))

  unfoldable pub memberkey_at : Bool → Token → Cmd x MaybeMemberKey
  unfolding parse_memberkey_from_ident value_memberkey paren_memberkey type_memberkey
  memberkey_at is_optional (Token.ident s socket) =
      parse_memberkey_from_ident x is_optional s socket
  memberkey_at is_optional (Token.value v) =
      λ p. if not (peeks_key p) && is_optional then ok no_member_key p else value_memberkey v p
  memberkey_at is_optional Token.l_paren = paren_memberkey
  memberkey_at is_optional _ = type_memberkey

  unfoldable pub parse_memberkey : Bool → Cmd x MaybeMemberKey
  unfolding parse_memberkey_from_ident memberkey_at
  parse_memberkey is_optional p = elim (in_standard_prelude p.cur_token) [
    | some s ↦ parse_memberkey_from_ident x is_optional s none p
    | none ↦ memberkey_at is_optional p.cur_token p
  ]

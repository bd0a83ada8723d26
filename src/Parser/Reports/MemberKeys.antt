-- ===== src/Parser/Reports/MemberKeys.antt =====
-- src/parser.rs: the keys of members add errors, and nothing else. The errors of the parser of what
-- stands between parentheses are taken over.
use cddl.Prelude.{
  ℕ, zero, suc, ◌+◌, Bool, false, not, ◌&&◌, ◌||◌, Option, none, some, List, [], ◌∷◌, ◌++◌, ◌≡◌,
  refl, sym, ap, ◌∙◌, Text, subst,
}
use cddl.Token.{Token, Value, SocketPlug}
use cddl.Token.Lookup.{in_standard_prelude}
use cddl.Lexer.State.{Externals, Position}
use cddl.Ast.{Identifier, TypeExpr, MaybeMemberKey}
use cddl.Parser.State.{
  Parser, Parsed, ok, err, panic, out_of_fuel, parser, lexer, incremental, ◌>>=◌, ◌>>◌, pure, fail,
  if_cur, cur_token_is, remaining, Cmd, next_token, pull, parser_new, missing_closing_parend,
  invalid_member_key_arrow_map_syntax, invalid_member_key_syntax, identifier_from_ident_token,
}
use cddl.Parser.Calls.{Calls, skip_cur}
use cddl.Parser.Groups.{cur_is_any}
use cddl.Parser.MemberKeys
use cddl.Parser.Reports.{
  NonEmpty, Reports, AllReports, Fails, Extends-refl, push_error-Fails, bind-Reports, if-Reports,
  if_at-Reports, Adds-errors,
}
use cddl.Parser.Reports.Parts.{then_next-Reports, then_comments-Reports, skip_cur-Reports}
use cddl.Parser.Reports.Types.{CallsReport}

module _ (x : Externals) where
  open x use {MultiPeek}

  -- A choice by the current token.
  cur-Reports :
      {A : Type 0} (t : Token) (m k : Cmd x A)
      → AllReports m
      → AllReports k
      → AllReports (if_cur t m k)
  cur-Reports t m k h l p = if_at-Reports (cur_token_is t p) p _ _ (h p) (l p)

  arrow_after_cut-Reports : AllReports (MemberKeys.arrow_after_cut x)
  unfolding MemberKeys.arrow_after_cut
  arrow_after_cut-Reports = then_next-Reports x _ (
      then_comments-Reports x _ (
        cur-Reports Token.arrow_map (pure tt) (fail invalid_member_key_arrow_map_syntax)
          Extends-refl (push_error-Fails invalid_member_key_arrow_map_syntax)))

  skip-Reports : AllReports (MemberKeys.skip x)
  unfolding MemberKeys.skip
  skip-Reports = then_next-Reports x _ (then_comments-Reports x _ Extends-refl)

  comments_after_arrow-Reports : AllReports (MemberKeys.comments_after_arrow x)
  unfolding MemberKeys.comments_after_arrow
  comments_after_arrow-Reports p =
      if_at-Reports (MemberKeys.is_comment p.peek_token) p _ _ (skip-Reports p) (Extends-refl p)

  -- Behind `^`, or behind an arrow, or neither.
  key-Reports :
      {A : Type 0} (m k : Cmd x A) (l : Cmd x A)
      → AllReports m
      → AllReports k
      → AllReports l
      → AllReports
          (if_cur Token.cut (MemberKeys.arrow_after_cut x >> m) (if_cur Token.arrow_map k l))
  key-Reports m k l a b d =
      cur-Reports Token.cut (MemberKeys.arrow_after_cut x >> m) _
        (bind-Reports (MemberKeys.arrow_after_cut x) (λ u. m) arrow_after_cut-Reports (λ u. a))
        (cur-Reports Token.arrow_map k l b d)

  ident_key-Reports : (i : Identifier) → AllReports (MemberKeys.ident_key x i)
  unfolding MemberKeys.ident_key
  ident_key-Reports i = then_next-Reports x _ (
      then_comments-Reports x _ (
        key-Reports _ _ _
          (bind-Reports (MemberKeys.comments_after_arrow x) _ comments_after_arrow-Reports
            (λ u. then_next-Reports x _ Extends-refl))
          (bind-Reports (MemberKeys.comments_after_arrow x) _ comments_after_arrow-Reports
            (λ u. then_next-Reports x _ (then_comments-Reports x _ Extends-refl)))
          (bind-Reports (skip_cur x Token.colon) _ (skip_cur-Reports x Token.colon)
            (λ u. then_comments-Reports x _ Extends-refl))))

  from_ident-Reports :
      (is_optional : Bool) (s : Text) (socket : Option SocketPlug)
      → AllReports (MemberKeys.parse_memberkey_from_ident x is_optional s socket)
  unfolding MemberKeys.parse_memberkey_from_ident
  from_ident-Reports is_optional s socket p =
      if_at-Reports (not (MemberKeys.peeks_key p) && is_optional) p _ _ (Extends-refl p)
        (ident_key-Reports (identifier_from_ident_token s socket) p)

  read_item-Reports : AllReports (MemberKeys.read_item x)
  unfolding MemberKeys.read_item
  read_item-Reports p =
      bind-Reports (MemberKeys.skip x) _ skip-Reports
        (λ u.
          cur-Reports Token.eof (fail missing_closing_parend) _
            (push_error-Fails missing_closing_parend) Extends-refl)
        p

  -- The rest behind an item, by what it leaves open.
  nested-Reports :
      (o : Option ℕ) (item : Position × Token) (b : Bool)
      (k : ℕ → Cmd x (Bool × List (Position × Token)))
      → ((count : ℕ) → AllReports (k count))
      → AllReports (elim o as (λ v. Cmd x (Bool × List (Position × Token))) [
        | none ↦ pure (b, item ∷ [])
        | some count ↦ k count >>= (λ (has, rest). pure (has, item ∷ rest))
      ])
  nested-Reports none item b k h = Extends-refl
  nested-Reports (some count) item b k h =
      bind-Reports (k count) _ (h count) (λ (has, rest). Extends-refl)

  paren_items-Reports : (n count : ℕ) (b : Bool) → AllReports (MemberKeys.paren_items x n count b)
  unfolding MemberKeys.paren_items
  paren_items-Reports zero count b p = tt
  paren_items-Reports (suc n) count b p =
      bind-Reports (MemberKeys.read_item x) _ read_item-Reports
        (λ item.
          nested-Reports (MemberKeys.nested_parend_count x count p) item
            (b || cur_is_any MemberKeys.group_tokens p)
            (λ count'.
              MemberKeys.paren_items x n count' (b || cur_is_any MemberKeys.group_tokens p))
            (λ count'. paren_items-Reports n count' (b || cur_is_any MemberKeys.group_tokens p)))
        p

  taken-Fails :
      (p q r : Parser MultiPeek)
      → q.errors ≡ []
      → Fails q r
      → Fails p (MemberKeys.add_errors x r.errors p)
  taken-Fails p q r e (es, (a, n)) = (
    r.errors,
    (Adds-errors p r.errors, subst NonEmpty (sym (a.appends ∙ ap (λ fs. fs ++ es) e)) n),
  )

  take_over-Reports :
      {A : Type 0} (p q : Parser MultiPeek) (r : Parsed MultiPeek A)
      → q.errors ≡ []
      → Reports q r
      → Reports p (MemberKeys.take_over x r p)
  take_over-Reports p q (ok a s) e h = Extends-refl p
  take_over-Reports p q (err incremental s) e h = taken-Fails p q s e h
  take_over-Reports p q (err (parser msg) s) e h = Extends-refl p
  take_over-Reports p q (err (lexer l) s) e h = Extends-refl p
  take_over-Reports p q panic e h = tt
  take_over-Reports p q out_of_fuel e h = tt

  -- A new parser over tokens has no errors, and there is one.
  parse_items-Reports :
      {A : Type 0} (m : Cmd x A) (ts : List (Position × Token))
      → AllReports m
      → AllReports (MemberKeys.parse_items x m ts)
  unfolding MemberKeys.parse_items parser_new next_token pull
  parse_items-Reports m [] h p = take_over-Reports p _ (m _) refl (h _)
  parse_items-Reports m (t ∷ []) h p = take_over-Reports p _ (m _) refl (h _)
  parse_items-Reports m (t ∷ u ∷ ts) h p = take_over-Reports p _ (m _) refl (h _)

module _ (x : Externals) (c : Calls x) (h : CallsReport x c) where
  open x use {MultiPeek}

  value_memberkey-Reports : (v : Value) → AllReports (MemberKeys.value_memberkey x c v)
  unfolding MemberKeys.value_memberkey
  value_memberkey-Reports v =
      bind-Reports (c.parse_type1 none) _ (h.type1_of none) (λ (t1, comments).
        then_comments-Reports x _ (
          bind-Reports _ _
            (cur-Reports x Token.cut _ _
              (bind-Reports (MemberKeys.arrow_after_cut x) _ (arrow_after_cut-Reports x)
                (λ u. bind-Reports (MemberKeys.skip x) _ (skip-Reports x) (λ u. Extends-refl)))
              (then_comments-Reports x _ (
                bind-Reports _ _
                  (cur-Reports x Token.arrow_map _ _ Extends-refl (
                    cur-Reports x Token.colon _ _ Extends-refl
                      (push_error-Fails invalid_member_key_syntax)))
                  (λ u. bind-Reports (MemberKeys.skip x) _ (skip-Reports x) (λ u. Extends-refl)))))
            (λ key.
              bind-Reports (skip_cur x Token.colon) _ (skip_cur-Reports x Token.colon)
                (λ u. Extends-refl))))

  paren_type_key-Reports : (t : TypeExpr) → AllReports (MemberKeys.paren_type_key x c t)
  unfolding MemberKeys.paren_type_key
  paren_type_key-Reports t = then_comments-Reports x _ (
      key-Reports x _ _ _ Extends-refl
        (bind-Reports (MemberKeys.skip x) _ (skip-Reports x) (λ u. Extends-refl)) Extends-refl)

  paren_memberkey-Reports : AllReports (MemberKeys.paren_memberkey x c)
  unfolding MemberKeys.paren_memberkey
  paren_memberkey-Reports = bind-Reports (MemberKeys.skip x) _ (skip-Reports x) (λ u.
      bind-Reports _ _ (λ p. paren_items-Reports x (remaining p.tokens + 4) 0 false p)
        (λ (has, ts) p.
          if-Reports has _ _ p
            (bind-Reports _ _ (parse_items-Reports x c.parse_group ts h.group)
              (λ group. Extends-refl) p)
            (bind-Reports _ _ (parse_items-Reports x (c.parse_type none) ts (h.type_of none))
              (λ (t, comments). paren_type_key-Reports t) p)))

  type_memberkey-Reports : AllReports (MemberKeys.type_memberkey x c)
  unfolding MemberKeys.type_memberkey
  type_memberkey-Reports = bind-Reports (c.parse_type1 none) _ (h.type1_of none) (λ (t1, comments).
      then_comments-Reports x _ (
        key-Reports x _ _ _
          (bind-Reports (MemberKeys.skip x) _ (skip-Reports x) (λ u. Extends-refl))
          (bind-Reports (MemberKeys.skip x) _ (skip-Reports x) (λ u. Extends-refl)) Extends-refl))

  memberkey_at-Reports :
      (is_optional : Bool) (t : Token) → AllReports (MemberKeys.memberkey_at x c is_optional t)
  unfolding MemberKeys.memberkey_at
  memberkey_at-Reports is_optional (Token.ident s socket) =
      from_ident-Reports x is_optional s socket
  memberkey_at-Reports is_optional (Token.value v) = λ p.
      if_at-Reports (not (MemberKeys.peeks_key p) && is_optional) p _ _ (Extends-refl p)
        (value_memberkey-Reports v p)
  memberkey_at-Reports is_optional Token.l_paren = paren_memberkey-Reports
  memberkey_at-Reports is_optional _ = type_memberkey-Reports

  prelude-Reports :
      (o : Option Text) (is_optional : Bool) (t : Token)
      → AllReports (λ p. elim o as (λ v. Parsed MultiPeek MaybeMemberKey) [
        | some s ↦ MemberKeys.parse_memberkey_from_ident x is_optional s none p
        | none ↦ MemberKeys.memberkey_at x c is_optional t p
      ])
  prelude-Reports (some s) is_optional t = from_ident-Reports x is_optional s none
  prelude-Reports none is_optional t = memberkey_at-Reports is_optional t

  pub parse_memberkey-Reports :
      (is_optional : Bool) → AllReports (MemberKeys.parse_memberkey x c is_optional)
  unfolding MemberKeys.parse_memberkey
  parse_memberkey-Reports is_optional p =
      prelude-Reports (in_standard_prelude p.cur_token) is_optional p.cur_token p

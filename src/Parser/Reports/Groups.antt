-- ===== src/Parser/Reports/Groups.antt =====
-- src/parser.rs: groups and their entries add errors, and nothing else.
use cddl.Prelude.{
  ℕ, zero, suc, ◌+◌, Bool, true, false, not, ◌&&◌, Option, none, some, List, [], ◌∷◌, refl, is_none,
  Text, if◌then◌else◌,
}
use cddl.Token.{Token}
use cddl.Token.Lookup.{closing_delimiter}
use cddl.Lexer.State.{Externals}
use cddl.Ast
use cddl.Ast.{Identifier, Occur, MaybeGenericArgs, MaybeMemberKey, GroupEntry, TypeExpr}
use cddl.Parser.State.{
  Parser, Parsed, ok, ◌>>◌, pure, cur_token_is, peek_token_is, remaining, Cmd, next_token,
  missing_closing_delimiter, missing_closing_parend,
}
use cddl.Ast.Convert.{groupname_entry}
use cddl.Parser.Comments.{Comments, collect_comments, take_comments_after_type}
use cddl.Parser.Calls.{Calls, is_groupname, forget_groupname, pop}
use cddl.Parser.Occur.{parse_occur}
use cddl.Parser.Groups
use cddl.Parser.Entries
use cddl.Parser.Reports.{
  AllReports, Extends, Extends-refl, Extends-still, push_error-Fails, bind-Reports, if-Reports,
  if_at-Reports, next_token-Reports,
}
use cddl.Parser.Reports.Parts.{
  then_next-Reports, then_comments-Reports, collect_comments-Reports, parse_occur-Reports,
}
use cddl.Parser.Reports.Types.{CallsReport}

module _ (x : Externals) where
  open x use {MultiPeek}

  skip_unless_kept-Reports : AllReports (Groups.skip_unless_kept x)
  unfolding Groups.skip_unless_kept
  skip_unless_kept-Reports p =
      if_at-Reports (Groups.keeps_token p) p _ _ (Extends-refl p) (next_token-Reports x p)

  optional_comma-Reports : AllReports (Groups.optional_comma x)
  unfolding Groups.optional_comma
  optional_comma-Reports p =
      if_at-Reports (cur_token_is Token.comma p) p _ _
        (then_next-Reports x (pure true) Extends-refl p) (Extends-refl p)

  skip_to_angle-Reports : (n : ℕ) → AllReports (Entries.skip_to_angle x n)
  unfolding Entries.skip_to_angle
  skip_to_angle-Reports zero p = tt
  skip_to_angle-Reports (suc n) p =
      if_at-Reports (peek_token_is Token.r_angle_bracket p) p _ _ (Extends-refl p)
        (then_next-Reports x (Entries.skip_to_angle x n) (skip_to_angle-Reports n) p)

  skip_args-Reports : (args : MaybeGenericArgs) → AllReports (Entries.skip_args x args)
  unfolding Entries.skip_args
  skip_args-Reports args p =
      if_at-Reports (Entries.has_args args && peek_token_is Token.l_angle_bracket p) p _ _
        (bind-Reports (Entries.skip_to_angle x (remaining p.tokens + 4)) (λ u. next_token x)
          (skip_to_angle-Reports (remaining p.tokens + 4)) (λ u. next_token-Reports x) p)
        (Extends-refl p)

  forgotten :
      (b : Bool) (us : List Text) (p : Parser MultiPeek)
      → Extends p (if b then record p { unknown_rule_idents = us } else p)
  forgotten true us p = Extends-still p _ refl refl refl refl
  forgotten false us p = Extends-refl p

  -- An entry that is only a type, by whether the type is a name.
  named-Reports :
      (o : Option (Identifier × MaybeGenericArgs)) (occur : Option Occur) (t : TypeExpr)
      (before_name : MaybeGenericArgs → Cmd x (Unit {0})) (before_type : Cmd x (Unit {0}))
      → ((args : MaybeGenericArgs) → AllReports (before_name args))
      → AllReports before_type
      → AllReports (λ p. elim o as (λ v. Parsed MultiPeek GroupEntry) [
        | none ↦ (before_type >> pure (Ast.value_member_key occur Ast.no_member_key t)) p
        | some (name, args) ↦
            if is_groupname p name
            then (before_name args
                  >> (λ q. ok (Ast.type_groupname occur name args) (forget_groupname name q)))
                p
            else (before_type >> pure (Ast.value_member_key occur Ast.no_member_key t)) p
      ])
  named-Reports none occur t before_name before_type h k p =
      bind-Reports before_type _ k (λ u. Extends-refl) p
  named-Reports (some (name, args)) occur t before_name before_type h k p =
      if_at-Reports (is_groupname p name) p _ _
        (bind-Reports (before_name args) _ (h args)
          (λ u q. forgotten (is_none name.socket) (pop q.unknown_rule_idents) q) p)
        (bind-Reports before_type _ k (λ u. Extends-refl) p)

  type_entry-Reports :
      (occur : Option Occur) (t : TypeExpr) (before_name : MaybeGenericArgs → Cmd x (Unit {0}))
      (before_type : Cmd x (Unit {0}))
      → ((args : MaybeGenericArgs) → AllReports (before_name args))
      → AllReports before_type
      → AllReports (Entries.type_entry x occur t before_name before_type)
  unfolding Entries.type_entry
  type_entry-Reports occur t before_name before_type h k =
      named-Reports (groupname_entry t) occur t before_name before_type h k

  skip_opening-Reports : AllReports (Entries.skip_opening x)
  unfolding Entries.skip_opening
  skip_opening-Reports p =
      if_at-Reports (cur_token_is Token.l_paren p) p _ _ (next_token-Reports x p) (
        if_at-Reports (cur_token_is Token.l_brace p) p _ _ (next_token-Reports x p) (
          if_at-Reports (cur_token_is Token.l_bracket p) p _ _ (next_token-Reports x p)
            (Extends-refl p)))

module _ (x : Externals) (c : Calls x) (h : CallsReport x c) where
  open x use {MultiPeek}

  entry_loop-Reports : (n : ℕ) → AllReports (Groups.entry_loop x c n)
  unfolding Groups.entry_loop
  entry_loop-Reports zero p = tt
  entry_loop-Reports (suc n) p =
      if_at-Reports (Groups.cur_is_any Groups.closing p) p _ _ (Extends-refl p) (
        bind-Reports (c.parse_grpent false) _ (h.grpent false)
          (λ ge q. if_at-Reports (cur_token_is Token.g_choice q) q _ _ (Extends-refl q) (
            bind-Reports (Groups.skip_unless_kept x) _ (skip_unless_kept-Reports x)
              (λ u. bind-Reports (Groups.optional_comma x) _ (optional_comma-Reports x) (λ comma.
                then_comments-Reports x _ (
                  bind-Reports (Groups.entry_loop x c n) _ (entry_loop-Reports n)
                    (λ rest. Extends-refl))))
              q))
          p)

  pub parse_grpchoice-Reports : AllReports (Groups.parse_grpchoice x c)
  unfolding Groups.parse_grpchoice
  parse_grpchoice-Reports =
      bind-Reports _ (λ u. Groups.entry_loop x c c.rounds)
        (λ p.
          if_at-Reports
            (Groups.cur_is_any (Token.g_choice ∷ Token.l_brace ∷ Token.l_bracket ∷ []) p) p _ _
            (then_next-Reports x _ (then_comments-Reports x _ Extends-refl) p) (Extends-refl p))
        (λ u. entry_loop-Reports c.rounds)

  group_loop-Reports : (n : ℕ) → AllReports (Groups.group_loop x c n)
  unfolding Groups.group_loop
  group_loop-Reports zero p = tt
  group_loop-Reports (suc n) p =
      if_at-Reports (cur_token_is Token.g_choice p) p _ _
        (bind-Reports c.parse_grpchoice _ h.grpchoice
          (λ gc.
            bind-Reports (Groups.group_loop x c n) _ (group_loop-Reports n) (λ rest. Extends-refl))
          p)
        (Extends-refl p)

  pub parse_group-Reports : AllReports (Groups.parse_group x c)
  unfolding Groups.parse_group
  parse_group-Reports p =
      bind-Reports c.parse_grpchoice _ h.grpchoice
        (λ gc.
          bind-Reports (Groups.group_loop x c c.rounds) _ (group_loop-Reports c.rounds) (λ rest q.
            if_at-Reports (Groups.closes (closing_delimiter p.cur_token) q) q _ _ (Extends-refl q)
              (push_error-Fails missing_closing_delimiter q)))
        p

  paren_entry-Reports : (occur : Option Occur) → AllReports (Entries.paren_entry x c occur)
  unfolding Entries.paren_entry
  paren_entry-Reports occur = then_next-Reports x _ (
      then_comments-Reports x _ (
        bind-Reports c.parse_group _ h.group (λ group. then_comments-Reports x _ (
          bind-Reports _ _
            (λ p.
              if_at-Reports (cur_token_is Token.r_paren p) p _ _ (next_token-Reports x p)
                (push_error-Fails missing_closing_parend p))
            (λ u. Extends-refl)))))

  taken-Reports :
      (o : Comments)
      → AllReports
          (elim o as (λ v. Cmd x Comments) [ some cs ↦ pure none | none ↦ collect_comments x ])
  taken-Reports none = collect_comments-Reports x
  taken-Reports (some cs) = Extends-refl

  keyed_entry-Reports :
      (occur : Option Occur) (key : MaybeMemberKey) → AllReports (Entries.keyed_entry x c occur key)
  keyed_entry-Reports occur key =
      bind-Reports (c.parse_type none) _ (h.type_of none) (λ (t, comments). Extends-refl)

  key_entry-Reports :
      (occur : Option Occur) (key : MaybeMemberKey) → AllReports (Entries.key_entry x c occur key)
  unfolding Entries.key_entry
  key_entry-Reports occur (Ast.non_member_type t) =
      type_entry-Reports x occur t (λ args. pure tt) (Entries.skip_opening x) (λ args. Extends-refl)
        (skip_opening-Reports x)
  key_entry-Reports occur (Ast.non_member_group group) = Extends-refl
  key_entry-Reports occur Ast.no_member_key =
      bind-Reports (c.parse_type none) _ (h.type_of none) (λ (t, comments).
        bind-Reports _ _ (taken-Reports (take_comments_after_type comments)) (λ u.
          type_entry-Reports x occur t (Entries.skip_args x) (pure tt) (skip_args-Reports x)
            Extends-refl))
  key_entry-Reports occur (Ast.type1_key t b) = keyed_entry-Reports occur (Ast.type1_key t b)
  key_entry-Reports occur (Ast.bareword i) = keyed_entry-Reports occur (Ast.bareword i)
  key_entry-Reports occur (Ast.value_key v) = keyed_entry-Reports occur (Ast.value_key v)

  pub parse_grpent-Reports : (from_rule : Bool) → AllReports (Entries.parse_grpent x c from_rule)
  unfolding Entries.parse_grpent
  parse_grpent-Reports from_rule =
      bind-Reports (parse_occur x true) _ (parse_occur-Reports x true) (λ occur.
        bind-Reports _ _
          (λ p.
            if-Reports from_rule (pure Ast.no_member_key) (c.parse_memberkey true) p
              (Extends-refl p) (h.memberkey true p))
          (λ key p.
            if_at-Reports (cur_token_is Token.l_paren p && not (Entries.has_key key)) p _ _
              (paren_entry-Reports occur p) (key_entry-Reports occur key p)))

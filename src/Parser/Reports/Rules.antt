-- ===== src/Parser/Reports/Rules.antt =====
-- src/parser.rs: `parse_rule` adds errors, and nothing else, at every depth of the calls.
use cddl.Prelude.{ℕ, zero, suc, Bool, true, false, ◌||◌, Option, none, some, refl, if◌then◌else◌}
use cddl.Token.{Token, SocketPlug}
use cddl.Lexer.State.{Externals}
use cddl.Ast.{Identifier, GroupEntry, TypeExpr, Rule, parenthesized_type}
use cddl.Parser.State.{
  Parser, Parsed, ok, panic, ◌>>=◌, pure, fail, cur_token_is, peek_token_is, Cmd, next_token,
  expect_peek, identifier_from_ident_token, invalid_rule_identifier, missing_assignment_token,
  type_socket_names_must_be_type_augmentations, group_socket_names_must_be_group_augmentations,
  incomplete_rule_entry,
}
use cddl.Parser.Comments.{Comments, collect_comments, split_comments_after_type}
use cddl.Parser.Generics.{parse_genericparm}
use cddl.Parser.Calls.{Calls}
use cddl.Parser.Groups.{cur_is_any}
use cddl.Parser.Rules
use cddl.Parser.Rules.{Head}
use cddl.Parser.Grammar.{calls, step_calls}
use cddl.Parser.Reports.{
  AllReports, Extends, Extends-refl, Extends-still, push_error-Fails, bind-Reports, if-Reports,
  if_at-Reports, next_token-Reports,
}
use cddl.Parser.Reports.Parts.{
  then_next-Reports, then_comments-Reports, collect_comments-Reports, parse_genericparm-Reports,
  expect_peek-Reports,
}
use cddl.Parser.Reports.Types.{
  CallsReport, parse_genericargs-Reports, parse_type-Reports, parse_type1-Reports,
}
use cddl.Parser.Reports.Type2.{parse_type2-Reports}
use cddl.Parser.Reports.Groups.{parse_grpchoice-Reports, parse_group-Reports, parse_grpent-Reports}
use cddl.Parser.Reports.MemberKeys.{parse_memberkey-Reports}

module _ (x : Externals) where
  open x use {MultiPeek}

  ident-Reports :
      (t : Token)
      → AllReports (λ p. elim t as (λ v. Parsed MultiPeek Identifier) [
        | Token.ident s socket ↦ ok (identifier_from_ident_token s socket) p
        | _ ↦ fail invalid_rule_identifier p
      ])
  ident-Reports (Token.ident s socket) = Extends-refl
  ident-Reports _ = push_error-Fails invalid_rule_identifier

  rule_ident-Reports : AllReports (Rules.rule_ident x)
  unfolding Rules.rule_ident
  rule_ident-Reports p = ident-Reports p.cur_token p

  rule_params-Reports : AllReports (Rules.rule_params x)
  unfolding Rules.rule_params
  rule_params-Reports p =
      if_at-Reports (peek_token_is Token.l_angle_bracket p) p _ _
        (then_next-Reports x _
          (bind-Reports (parse_genericparm x) _ (parse_genericparm-Reports x)
            (λ params q. Extends-still q _ refl refl refl refl))
          p)
        (Extends-refl p)

  -- The token is looked for unless one was found.
  sought-Reports : (b : Bool) (t : Token) → AllReports (if b then pure true else expect_peek x t)
  sought-Reports true t = Extends-refl
  sought-Reports false t = expect_peek-Reports x t

  rule_assignment-Reports : AllReports (Rules.rule_assignment x)
  unfolding Rules.rule_assignment
  rule_assignment-Reports =
      bind-Reports (expect_peek x Token.assign) _ (expect_peek-Reports x Token.assign) (λ a.
        bind-Reports _ _ (sought-Reports a Token.t_choice_alt) (λ b.
          bind-Reports _ _ (sought-Reports b Token.g_choice_alt) (λ d p.
            if-Reports d (pure tt) (fail missing_assignment_token) p (Extends-refl p)
              (push_error-Fails missing_assignment_token p))))

  check_socket-Reports :
      (o : Option SocketPlug) (t_alt g_alt : Bool) → AllReports (Rules.check_socket x o t_alt g_alt)
  unfolding Rules.check_socket
  check_socket-Reports none t_alt g_alt = Extends-refl
  check_socket-Reports (some SocketPlug.type) true g_alt = Extends-refl
  check_socket-Reports (some SocketPlug.type) false g_alt =
      push_error-Fails type_socket_names_must_be_type_augmentations
  check_socket-Reports (some SocketPlug.group) t_alt true = Extends-refl
  check_socket-Reports (some SocketPlug.group) t_alt false =
      push_error-Fails group_socket_names_must_be_group_augmentations

  parse_head-Reports : AllReports (Rules.parse_head x)
  unfolding Rules.parse_head
  parse_head-Reports = bind-Reports (Rules.rule_ident x) _ rule_ident-Reports (λ ident.
      bind-Reports (Rules.rule_params x) _ rule_params-Reports (λ params.
        then_comments-Reports x _ (
          bind-Reports (Rules.rule_assignment x) _ rule_assignment-Reports (λ u p.
            bind-Reports
              (Rules.check_socket x ident.socket (cur_token_is Token.t_choice_alt p)
                (cur_token_is Token.g_choice_alt p))
              _
              (check_socket-Reports ident.socket (cur_token_is Token.t_choice_alt p)
                (cur_token_is Token.g_choice_alt p))
              (λ u. then_next-Reports x _ (then_comments-Reports x _ Extends-refl)) p))))

  guarantee-Extends :
      (b : Bool) (p : Parser MultiPeek)
      → Extends p (Rules.guarantee x b (Rules.set_generic_params none p))
  guarantee-Extends true p = Extends-still p _ refl refl refl refl
  guarantee-Extends false p = Extends-still p _ refl refl refl refl

  split-Reports :
      (o : Comments)
      → AllReports
          (elim o as (λ v. Cmd x Comments) [ some cs ↦ pure none | none ↦ collect_comments x ])
  split-Reports none = collect_comments-Reports x
  split-Reports (some cs) = Extends-refl

  only-Reports :
      (o : Option Bool) (r : Rule)
      → AllReports (λ q. elim o as (λ v. Parsed MultiPeek Rule) [
        | none ↦ panic
        | some b ↦ ok r (Rules.guarantee x b (Rules.set_generic_params none q))
      ])
  only-Reports none r p = tt
  only-Reports (some b) r p = guarantee-Extends b p

module _ (x : Externals) (c : Calls x) (h : CallsReport x c) where
  open x use {MultiPeek}

  parse_group_rule-Reports : (hd : Head) → AllReports (Rules.parse_group_rule x c hd)
  unfolding Rules.parse_group_rule
  parse_group_rule-Reports hd =
      bind-Reports (c.parse_grpent true) _ (h.grpent true)
        (λ ge. then_comments-Reports x _ (λ p. Extends-still p _ refl refl refl refl))

  coerced-Reports :
      (o : Option TypeExpr) (hd : Head) (ge : GroupEntry)
      → AllReports (λ p. elim o as (λ v. Parsed MultiPeek Rule) [
        | some pt ↦
            (do
              (value, comments) ← c.parse_type (some (parenthesized_type pt))
              λ q. ok (Rules.type_rule hd value) (Rules.set_generic_params none q))
              p
        | none ↦ ok (Rules.group_rule hd ge) (Rules.set_generic_params none p)
      ])
  coerced-Reports none hd ge p = Extends-still p _ refl refl refl refl
  coerced-Reports (some pt) hd ge p =
      bind-Reports (c.parse_type (some (parenthesized_type pt))) _
        (h.type_of (some (parenthesized_type pt)))
        (λ (value, comments) q. Extends-still q _ refl refl refl refl) p

  parse_entry_rule-Reports : (hd : Head) → AllReports (Rules.parse_entry_rule x c hd)
  unfolding Rules.parse_entry_rule
  parse_entry_rule-Reports hd = bind-Reports (c.parse_grpent true) _ (h.grpent true) (λ ge.
      then_comments-Reports x _
        (λ p. coerced-Reports (Rules.parenthesized_entry p.cur_token ge) hd ge p))

  parse_type_rule-Reports : (hd : Head) → AllReports (Rules.parse_type_rule x c hd)
  unfolding Rules.parse_type_rule
  parse_type_rule-Reports hd p =
      bind-Reports (c.parse_type none) _ (h.type_of none)
        (λ (t, comments).
          bind-Reports _ _
            (λ r.
              if-Reports (cur_token_is Token.unwrap p) (next_token x) (pure tt) r
                (next_token-Reports x r) (Extends-refl r))
            (λ u. bind-Reports _ _ (split-Reports x (split_comments_after_type comments)) (λ u q.
              if_at-Reports (cur_is_any Rules.assignments q) q _ _
                (push_error-Fails incomplete_rule_entry q)
                (only-Reports x (Rules.only_type t) (Rules.type_rule hd t) q))))
        p

  pub parse_rule-Reports : (b : Bool) → AllReports (Rules.parse_rule x c b)
  unfolding Rules.parse_rule
  parse_rule-Reports b = bind-Reports (Rules.parse_head x) _ (parse_head-Reports x) (λ hd p.
      if_at-Reports (Rules.is_group_socket p.cur_token || (hd.is_group_choice_alternate || b)) p _ _
        (parse_group_rule-Reports hd p)
        (if_at-Reports (cur_is_any Rules.entry_tokens p) p _ _ (parse_entry_rule-Reports hd p)
          (parse_type_rule-Reports hd p)))

module _ (x : Externals) where
  pub calls-CallsReport : (n : ℕ) → CallsReport x (calls x n)
  unfolding calls step_calls
  calls-CallsReport zero = record {
    genericargs = λ p. tt;
    type_of = λ t p. tt;
    type1_of = λ t p. tt;
    type2 = λ p. tt;
    group = λ p. tt;
    grpchoice = λ p. tt;
    grpent = λ b p. tt;
    memberkey = λ b p. tt;
  }
  calls-CallsReport (suc n) = record {
    genericargs = parse_genericargs-Reports x (calls x n) (calls-CallsReport n);
    type_of = parse_type-Reports x (calls x n) (calls-CallsReport n);
    type1_of = parse_type1-Reports x (calls x n) (calls-CallsReport n);
    type2 = parse_type2-Reports x (calls x n) (calls-CallsReport n);
    group = parse_group-Reports x (calls x n) (calls-CallsReport n);
    grpchoice = parse_grpchoice-Reports x (calls x n) (calls-CallsReport n);
    grpent = parse_grpent-Reports x (calls x n) (calls-CallsReport n);
    memberkey = parse_memberkey-Reports x (calls x n) (calls-CallsReport n);
  }

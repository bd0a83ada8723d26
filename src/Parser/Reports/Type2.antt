-- ===== src/Parser/Reports/Type2.antt =====
-- src/parser.rs: `parse_type2` adds errors, and nothing else.
use cddl.Prelude.{ℕ, Option, none, some, ◌==◌, if◌then◌else◌}
use cddl.Token.{Token, Usize}
use cddl.Lexer.State.{Externals}
use cddl.Ast
use cddl.Ast.{Identifier, MaybeGenericArgs}
use cddl.Parser.State.{
  Parser, Parsed, ok, ◌>>=◌, ◌>>◌, pure, fail, and_then, if_cur, cur_token_is, peek_token_is, Cmd,
  next_token, if_peek, invalid_tag_syntax, invalid_unwrap_syntax,
  invalid_group_to_choice_enum_syntax, parser, identifier_from_ident_token, err, incremental, panic,
  out_of_fuel, lexer,
}
use cddl.Parser.Comments.{collect_comments}
use cddl.Parser.Calls.{Calls}
use cddl.Parser.Type2
use cddl.Parser.Reports.{Reports, AllReports, Extends-refl, push_error-Fails, if_at-Reports}
use cddl.Parser.Reports.Types.{CallsReport}
use cddl.Parser.Reports.Arms.{
  ArmReports, AllArms, bind-arm, if-arm, if_run-arm, noted-arm, comments-arm, next-arm,
  other_arm-Reports, arm-Reports,
}

module _ (x : Externals) (c : Calls x) (h : CallsReport x c) where
  open x use {MultiPeek}

  ident_arm-Reports : (i : Identifier) → AllArms (Type2.ident_arm x c i)
  unfolding Type2.ident_arm
  ident_arm-Reports i p =
      if-arm (peek_token_is Token.l_angle_bracket p) p _ _
        (bind-arm c.parse_genericargs _ h.genericargs
          (λ args.
            noted-arm x i (Type2.returns (Ast.typename i (Ast.generic_args args))) Extends-refl)
          p)
        (noted-arm x i (Type2.value (Ast.typename i Ast.no_generic_args)) Extends-refl p)

  group_arm-Reports :
      (m : Cmd x Ast.Group) (f : Ast.Group → Ast.Type2)
      → AllReports m
      → AllArms (m >>= (λ group. collect_comments x >> pure (Type2.value (f group))))
  group_arm-Reports m f k = bind-arm m _ k (λ group. comments-arm x _ Extends-refl)

  paren_arm-Reports : AllArms (Type2.paren_arm x c)
  unfolding Type2.paren_arm
  paren_arm-Reports = next-arm x _ (
      comments-arm x _ (
        bind-arm (c.parse_type none) _ (h.type_of none)
          (λ (pt, comments). comments-arm x _ Extends-refl)))

  args-arm :
      (f : Ast.MaybeGenericArgs → Ast.Type2) (k : Cmd x Type2.Arm)
      → AllArms k
      → AllArms (λ p.
        if peek_token_is Token.l_angle_bracket p
        then (next_token x
              >> (c.parse_genericargs
                  >>= (λ args. pure (Type2.returns (f (Ast.generic_args args))))))
            p
        else k p)
  args-arm f k l p =
      if-arm (peek_token_is Token.l_angle_bracket p) p _ _
        (next-arm x _ (bind-arm c.parse_genericargs _ h.genericargs (λ args. Extends-refl)) p) (l p)

  unwrapped-arm :
      (o : Option Identifier)
      → AllArms (λ p. elim o as (λ v. Parsed MultiPeek Type2.Arm) [
        | none ↦ Type2.report x invalid_unwrap_syntax p
        | some i ↦
            if_peek Token.l_angle_bracket
              (do
                next_token x
                args ← c.parse_genericargs
                pure (Type2.returns (Ast.unwrap i (Ast.generic_args args))))
              (pure (Type2.returns (Ast.unwrap i Ast.no_generic_args)))
              p
      ])
  unwrapped-arm none = push_error-Fails invalid_unwrap_syntax
  unwrapped-arm (some i) = args-arm (Ast.unwrap i) _ Extends-refl

  unwrap_arm-Reports : AllArms (Type2.unwrap_arm x c)
  unfolding Type2.unwrap_arm
  unwrap_arm-Reports =
      next-arm x _ (comments-arm x _ (λ p. unwrapped-arm (Type2.unwrapped_ident p.cur_token) p))

  inline_group_arm-Reports : AllArms (Type2.inline_group_arm x c)
  unfolding Type2.inline_group_arm
  inline_group_arm-Reports =
      next-arm x _ (comments-arm x _ (group_arm-Reports c.parse_group _ h.group))

  choice-arm :
      (t : Token)
      → AllArms (λ p. elim t as (λ v. Parsed MultiPeek Type2.Arm) [
        | Token.l_paren ↦ Type2.inline_group_arm x c p
        | Token.ident s socket ↦
            if_peek Token.l_angle_bracket
              (do
                next_token x
                args ← c.parse_genericargs
                pure (
                    Type2.returns (
                      Ast.choice_from_group
                        (identifier_from_ident_token s socket)
                        (Ast.generic_args args))))
              (pure (
                Type2.value (
                  Ast.choice_from_group
                    (identifier_from_ident_token s socket)
                    Ast.no_generic_args)))
              p
        | _ ↦ Type2.report x invalid_group_to_choice_enum_syntax p
      ])
  choice-arm Token.l_paren = inline_group_arm-Reports
  choice-arm (Token.ident s socket) =
      args-arm (Ast.choice_from_group (identifier_from_ident_token s socket)) _ Extends-refl
  choice-arm _ = push_error-Fails invalid_group_to_choice_enum_syntax

  choice_arm-Reports : AllArms (Type2.choice_arm x c)
  unfolding Type2.choice_arm
  choice_arm-Reports = next-arm x _ (comments-arm x _ (λ p. choice-arm p.cur_token p))

  tagged_arm-Reports : (tag : Option Usize) → AllArms (Type2.tagged_arm x c tag)
  unfolding Type2.tagged_arm
  tagged_arm-Reports tag = next-arm x _ (
      bind-arm (if_cur Token.l_paren (pure tt) (fail invalid_tag_syntax)) _
        (λ p.
          if_at-Reports (cur_token_is Token.l_paren p) p _ _ (Extends-refl p)
            (push_error-Fails invalid_tag_syntax p))
        (λ u. next-arm x _ (
          comments-arm x _ (
            bind-arm (c.parse_type none) _ (h.type_of none) (λ (t, comments). comments-arm x _ (λ p.
              if-arm (cur_token_is Token.r_paren p) p _ _ (Extends-refl p)
                (push_error-Fails invalid_tag_syntax p)))))))

  tag_arm-Reports :
      (mt : Option ℕ) (constraint : Option Usize) → AllArms (Type2.tag_arm x c mt constraint)
  unfolding Type2.tag_arm
  tag_arm-Reports none constraint = Extends-refl
  tag_arm-Reports (some mt) constraint =
      if_run-arm (mt == 6) _ _ (tagged_arm-Reports constraint) Extends-refl

  type2_arm-Reports : (t : Token) → AllArms (Type2.type2_arm x c t)
  unfolding Type2.type2_arm
  type2_arm-Reports (Token.value v) = Extends-refl
  type2_arm-Reports (Token.ident s socket) =
      ident_arm-Reports (identifier_from_ident_token s socket)
  type2_arm-Reports Token.l_paren = paren_arm-Reports
  type2_arm-Reports Token.l_brace = group_arm-Reports c.parse_group Ast.map_type h.group
  type2_arm-Reports Token.l_bracket = group_arm-Reports c.parse_group Ast.array h.group
  type2_arm-Reports Token.unwrap = unwrap_arm-Reports
  type2_arm-Reports Token.g_to_choice = choice_arm-Reports
  type2_arm-Reports (Token.tag mt constraint) = tag_arm-Reports mt constraint
  type2_arm-Reports _ = other_arm-Reports x

  finished :
      (p : Parser MultiPeek) (r : Parsed MultiPeek Type2.Arm)
      → ArmReports p r
      → Reports p (and_then r (Type2.finish_arm x))
  finished p (ok a q) k = arm-Reports x p q a k
  finished p (err incremental q) k = k
  finished p (err (parser msg) q) k = k
  finished p (err (lexer e) q) k = k
  finished p panic k = tt
  finished p out_of_fuel k = tt

  pub parse_type2-Reports : AllReports (Type2.parse_type2 x c)
  unfolding Type2.parse_type2
  parse_type2-Reports p =
      finished p (Type2.type2_arm x c p.cur_token p) (type2_arm-Reports p.cur_token p)

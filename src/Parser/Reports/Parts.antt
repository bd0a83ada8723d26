-- ===== src/Parser/Reports/Parts.antt =====
-- src/parser.rs: the calls that do not refer to other parts of a rule add errors, and nothing else.
use cddl.Prelude.{
  ℕ, zero, suc, ◌+◌, Bool, true, ◌||◌, Option, none, some, List, ◌∷◌, Text, if◌then◌else◌,
}
use cddl.Token.{Token, Usize}
use cddl.Lexer.State.{Externals}
use cddl.Ast
use cddl.Ast.{Identifier}
use cddl.Parser.State.{
  Parser, Parsed, ok, ◌>>=◌, ◌>>◌, pure, fail, cur_token_is, peek_token_is, if_peek, remaining, Cmd,
  next_token, expect_peek, invalid_occurrence_syntax, invalid_generic_syntax,
  invalid_generic_identifier, identifier_from_ident_token,
}
use cddl.Parser.Comments
use cddl.Parser.Occur
use cddl.Parser.Generics
use cddl.Parser.Calls.{skip_cur}
use cddl.Parser.Reports.{
  Reports, AllReports, Extends-refl, push_error-Fails, bind-Reports, if-Reports, if_at-Reports,
  next_token-Reports,
}

module _ (x : Externals) where
  open x use {MultiPeek}

  -- A token is read, and the call goes on.
  pub then_next-Reports : {A : Type 0} (k : Cmd x A) → AllReports k → AllReports (next_token x >> k)
  then_next-Reports k h = bind-Reports (next_token x) (λ u. k) (next_token-Reports x) (λ u. h)

  -- A choice by whether the current token is a comment.
  on_comment-Reports :
      {A : Type 0} (t : Token) (k : Text → Cmd x A) (m : Cmd x A)
      → ((c : Text) → AllReports (k c))
      → AllReports m
      → (p : Parser MultiPeek)
      → Reports p (elim t as (λ v. Parsed MultiPeek A) [ Token.comment c ↦ k c p | _ ↦ m p ])
  on_comment-Reports (Token.comment c) k m h l p = h c p
  on_comment-Reports _ k m h l p = l p

  comment_loop-Reports :
      (n : ℕ) (acc : Comments.Comments) → AllReports (Comments.comment_loop x n acc)
  unfolding Comments.comment_loop
  comment_loop-Reports zero acc p = tt
  comment_loop-Reports (suc n) acc p =
      on_comment-Reports p.cur_token
        (λ c. next_token x >> Comments.comment_loop x n (Comments.push_comment acc c)) (pure acc)
        (λ c. then_next-Reports _ (comment_loop-Reports n (Comments.push_comment acc c)))
        Extends-refl p

  newline_loop-Reports : (n : ℕ) → AllReports (Comments.newline_loop x n)
  unfolding Comments.newline_loop
  newline_loop-Reports zero p = tt
  newline_loop-Reports (suc n) p =
      if_at-Reports (cur_token_is Token.newline p) p _ _
        (then_next-Reports (Comments.newline_loop x n) (newline_loop-Reports n) p) (Extends-refl p)

  collect_rounds-Reports : (n : ℕ) → AllReports (Comments.collect_rounds x n)
  unfolding Comments.collect_rounds
  collect_rounds-Reports zero p = tt
  collect_rounds-Reports (suc n) p =
      bind-Reports (Comments.comment_loop x n none) _ (comment_loop-Reports n none)
        (λ comments. bind-Reports (Comments.newline_loop x n) _ (newline_loop-Reports n) (λ u q.
          on_comment-Reports q.cur_token
            (λ c. Comments.collect_rounds x n >>= (λ more. pure (Comments.push_all comments more)))
            (pure comments)
            (λ c.
              bind-Reports (Comments.collect_rounds x n) _ (collect_rounds-Reports n)
                (λ more. Extends-refl))
            Extends-refl q))
        p

  pub collect_comments-Reports : AllReports (Comments.collect_comments x)
  unfolding Comments.collect_comments
  collect_comments-Reports p = collect_rounds-Reports (suc (remaining p.tokens + 3)) p

  -- Comments are read over, and the call goes on.
  pub then_comments-Reports :
      {A : Type 0} (k : Cmd x A) → AllReports k → AllReports (Comments.collect_comments x >> k)
  then_comments-Reports k h =
      bind-Reports (Comments.collect_comments x) (λ u. k) collect_comments-Reports (λ u. h)

  pub skip_cur-Reports : (t : Token) → AllReports (skip_cur x t)
  unfolding skip_cur
  skip_cur-Reports t p =
      if_at-Reports (cur_token_is t p) p _ _ (next_token-Reports x p) (Extends-refl p)

  pub expect_peek-Reports : (t : Token) → AllReports (expect_peek x t)
  unfolding expect_peek
  expect_peek-Reports t p =
      if_at-Reports (peek_token_is t p) p _ _ (then_next-Reports (pure true) Extends-refl p)
        (Extends-refl p)

  uint-Reports :
      (o : Option Usize)
      → AllReports (λ p. elim o as (λ v. Parsed MultiPeek (Option Usize)) [
        | some n ↦ (next_token x >> pure (some n)) p
        | none ↦ ok none p
      ])
  uint-Reports none = Extends-refl
  uint-Reports (some n) = then_next-Reports (pure (some n)) Extends-refl

  take_uint-Reports : AllReports (Occur.take_uint x)
  unfolding Occur.take_uint
  take_uint-Reports p = uint-Reports (Occur.uint_value p.cur_token) p

  occurrence-Reports : (o : Ast.Occur) → AllReports (Occur.occurrence x o)
  occurrence-Reports o = then_comments-Reports (pure (some o)) Extends-refl

  occur-Reports :
      (is_optional : Bool) (t peek : Token) (p : Parser MultiPeek)
      → Reports p (elim t as (λ v. Parsed MultiPeek (Option Ast.Occur)) [
        | Token.optional ↦ (next_token x >> Occur.occurrence x Ast.optional) p
        | Token.one_or_more ↦ (next_token x >> Occur.occurrence x Ast.one_or_more) p
        | Token.asterisk ↦
            (next_token x >> Occur.take_uint x >> Occur.occurrence x (Occur.asterisk_occur peek)) p
        | Token.value v ↦
            if_peek Token.asterisk
              (next_token x
                >> (next_token x
                    >> (Occur.take_uint x >>= (λ upper.
                        Occur.occurrence x (Ast.exact (Occur.uint_value (Token.value v)) upper)))))
              (if is_optional then pure none else fail invalid_occurrence_syntax)
              p
        | _ ↦ ok none p
      ])
  occur-Reports is_optional Token.optional peek =
      then_next-Reports (Occur.occurrence x Ast.optional) (occurrence-Reports Ast.optional)
  occur-Reports is_optional Token.one_or_more peek =
      then_next-Reports (Occur.occurrence x Ast.one_or_more) (occurrence-Reports Ast.one_or_more)
  occur-Reports is_optional Token.asterisk peek =
      bind-Reports (next_token x >> Occur.take_uint x) _
        (then_next-Reports (Occur.take_uint x) take_uint-Reports)
        (λ u. occurrence-Reports (Occur.asterisk_occur peek))
  occur-Reports is_optional (Token.value v) peek = λ p.
      if_at-Reports (peek_token_is Token.asterisk p) p _ _
        (then_next-Reports _
          (then_next-Reports _ (
            bind-Reports (Occur.take_uint x) _ take_uint-Reports
              (λ upper. occurrence-Reports (Ast.exact (Occur.uint_value (Token.value v)) upper))))
          p)
        (if-Reports is_optional (pure none) (fail invalid_occurrence_syntax) p (Extends-refl p)
          (push_error-Fails invalid_occurrence_syntax p))
  occur-Reports is_optional _ peek = Extends-refl

  pub parse_occur-Reports : (is_optional : Bool) → AllReports (Occur.parse_occur x is_optional)
  unfolding Occur.parse_occur
  parse_occur-Reports is_optional p = occur-Reports is_optional p.cur_token p.peek_token p

  -- What a token between `<` and `>` comes to.
  param-Reports :
      (t : Token) (k : Cmd x (List Identifier)) (h : AllReports k) (p : Parser MultiPeek)
      → Reports p (elim t as (λ v. Parsed MultiPeek (List Identifier)) [
        | Token.ident ident socket ↦
            (do
              next_token x
              Comments.collect_comments x
              λ r.
                  if cur_token_is Token.comma r || cur_token_is Token.r_angle_bracket r
                  then (do params ← k; pure (identifier_from_ident_token ident socket ∷ params)) r
                  else fail invalid_generic_syntax r)
              p
        | Token.comma ↦ (next_token x >> k) p
        | Token.value v ↦ fail invalid_generic_identifier p
        | _ ↦ fail invalid_generic_syntax p
      ])
  param-Reports (Token.ident s socket) k h = then_next-Reports _ (
      then_comments-Reports _ (λ r.
        if_at-Reports (cur_token_is Token.comma r || cur_token_is Token.r_angle_bracket r) r _ _
          (bind-Reports k _ h (λ params. Extends-refl) r)
          (push_error-Fails invalid_generic_syntax r)))
  param-Reports Token.comma k h = then_next-Reports k h
  param-Reports (Token.value v) k h = push_error-Fails invalid_generic_identifier
  param-Reports _ k h = push_error-Fails invalid_generic_syntax

  param_loop-Reports : (n : ℕ) → AllReports (Generics.param_loop x n)
  unfolding Generics.param_loop
  param_loop-Reports zero p = tt
  param_loop-Reports (suc n) p =
      if_at-Reports (cur_token_is Token.r_angle_bracket p) p _ _ (Extends-refl p) (
        then_comments-Reports _
          (λ q. param-Reports q.cur_token (Generics.param_loop x n) (param_loop-Reports n) q) p)

  pub parse_genericparm-Reports : AllReports (Generics.parse_genericparm x)
  unfolding Generics.parse_genericparm
  parse_genericparm-Reports =
      bind-Reports _ (λ u p. Generics.param_loop x (remaining p.tokens + 4) p)
        (λ p.
          if_at-Reports (cur_token_is Token.l_angle_bracket p) p _ _ (next_token-Reports x p)
            (Extends-refl p))
        (λ u p. param_loop-Reports (remaining p.tokens + 4) p)

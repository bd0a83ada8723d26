-- ===== src/Parser/Reports/Types.antt =====
-- src/parser.rs: the parts of a type add errors, and nothing else.
use cddl.Prelude.{ℕ, zero, suc, Bool, Option, none, some}
use cddl.Token.{Token}
use cddl.Lexer.State.{Externals}
use cddl.Ast
use cddl.Ast.{Type2, RangeCtlOp}
use cddl.Parser.State.{cur_token_is, peek_token_is, missing_generic_closing_delimiter}
use cddl.Parser.Comments.{Comments, collect_comments}
use cddl.Parser.Calls.{Calls, skip_cur}
use cddl.Parser.Types
use cddl.Parser.Reports.{
  AllReports, Extends-refl, push_error-Fails, bind-Reports, if_at-Reports, next_token-Reports,
}
use cddl.Parser.Reports.Parts.{
  then_next-Reports, then_comments-Reports, skip_cur-Reports, collect_comments-Reports,
}

module _ (x : Externals) where
  open x use {MultiPeek}

  pub record CallsReport (c : Calls x) : Type 0 where
    pub genericargs : AllReports c.parse_genericargs
    pub type_of : (t : Option Type2) → AllReports (c.parse_type t)
    pub type1_of : (t : Option Type2) → AllReports (c.parse_type1 t)
    pub type2 : AllReports c.parse_type2
    pub group : AllReports c.parse_group
    pub grpchoice : AllReports c.parse_grpchoice
    pub grpent : (from_rule : Bool) → AllReports (c.parse_grpent from_rule)
    pub memberkey : (is_optional : Bool) → AllReports (c.parse_memberkey is_optional)

module _ (x : Externals) (c : Calls x) (h : CallsReport x c) where
  open x use {MultiPeek}

  arg_loop-Reports : (n : ℕ) → AllReports (Types.arg_loop x c n)
  unfolding Types.arg_loop
  arg_loop-Reports zero p = tt
  arg_loop-Reports (suc n) p =
      if_at-Reports (cur_token_is Token.r_angle_bracket p) p _ _ (Extends-refl p) (
        then_comments-Reports x _
          (bind-Reports (c.parse_type1 none) _ (h.type1_of none) (λ (t1, comments).
            then_comments-Reports x _ (
              bind-Reports (skip_cur x Token.comma) _ (skip_cur-Reports x Token.comma) (λ u q.
                if_at-Reports (cur_token_is Token.eof q) q _ _
                  (push_error-Fails missing_generic_closing_delimiter q)
                  (bind-Reports (Types.arg_loop x c n) _ (arg_loop-Reports n) (λ rest. Extends-refl)
                    q)))))
          p)

  pub parse_genericargs-Reports : AllReports (Types.parse_genericargs x c)
  unfolding Types.parse_genericargs
  parse_genericargs-Reports =
      bind-Reports _ _
        (λ p.
          if_at-Reports (peek_token_is Token.l_angle_bracket p) p _ _ (next_token-Reports x p)
            (Extends-refl p))
        (λ u.
          bind-Reports (skip_cur x Token.l_angle_bracket) _
            (skip_cur-Reports x Token.l_angle_bracket)
            (λ u. bind-Reports (Types.arg_loop x c c.rounds) _ (arg_loop-Reports c.rounds) (λ args.
              bind-Reports (skip_cur x Token.r_angle_bracket) _
                (skip_cur-Reports x Token.r_angle_bracket) (λ u. Extends-refl))))

  choice_loop-Reports :
      (n : ℕ) (t : Ast.Type1) (comments : Comments)
      → AllReports (Types.choice_loop x c n t comments)
  unfolding Types.choice_loop
  choice_loop-Reports zero t comments p = tt
  choice_loop-Reports (suc n) t comments p =
      if_at-Reports (cur_token_is Token.t_choice p) p _ _
        (then_next-Reports x _
          (then_comments-Reports x _ (
            bind-Reports (c.parse_type1 none) _ (h.type1_of none) (λ (u, comments').
              then_comments-Reports x _ (
                bind-Reports (Types.choice_loop x c n u comments') _
                  (choice_loop-Reports n u comments') (λ (rest, last). Extends-refl)))))
          p)
        (Extends-refl p)

  pub parse_type-Reports : (t : Option Type2) → AllReports (Types.parse_type x c t)
  unfolding Types.parse_type
  parse_type-Reports t =
      bind-Reports (c.parse_type1 t) _ (h.type1_of t)
        (λ (t1, comments). then_comments-Reports x _ (choice_loop-Reports c.rounds t1 comments))

  first_type2-Reports : (t : Option Type2) → AllReports (Types.first_type2 x c t)
  first_type2-Reports (some (Ast.parenthesized_type pt)) = Extends-refl
  first_type2-Reports _ = h.type2

  operand-Reports :
      (t : Type2) (comments : Comments) (op : Option RangeCtlOp)
      → AllReports (Types.operand x c t comments op)
  operand-Reports t comments none = Extends-refl
  operand-Reports t comments (some op) =
      then_next-Reports x _
        (then_comments-Reports x _ (bind-Reports c.parse_type2 _ h.type2 (λ u. Extends-refl)))

  pub parse_type1-Reports : (t : Option Type2) → AllReports (Types.parse_type1 x c t)
  unfolding Types.parse_type1
  parse_type1-Reports parenthesized =
      bind-Reports (Types.first_type2 x c parenthesized) _ (first_type2-Reports parenthesized) (λ t.
        bind-Reports (collect_comments x) _ (collect_comments-Reports x)
          (λ comments p. operand-Reports t comments (Types.range_ctl_op p.cur_token) p))

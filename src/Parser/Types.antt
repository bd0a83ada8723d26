-- ===== src/Parser/Types.antt =====
-- src/parser.rs: `parse_genericargs`, `parse_type` and `parse_type1`.
use cddl.Prelude.{ℕ, zero, suc, Option, none, some}
use cddl.Token.{Token}
use cddl.Lexer.State.{Externals}
use cddl.Ast.{
  Type1, type1, no_operator, operator, Type2, parenthesized_type, RangeCtlOp, GenericArgs, no_args,
  generic_arg, TypeExpr, type_choice, no_type_choices,
}
use cddl.Parser.State.{
  out_of_fuel, ◌>>=◌, ◌>>◌, pure, fail, if_cur, if_peek, Cmd, next_token,
  missing_generic_closing_delimiter,
}
use cddl.Parser.Comments.{Comments, collect_comments}
use cddl.Parser.Calls.{Calls, skip_cur}

abbrev pub range_ctl_op : Token → Option RangeCtlOp
range_ctl_op (Token.range_op i) = some (RangeCtlOp.range_op i)
range_ctl_op (Token.control_operator ctrl) = some (RangeCtlOp.ctl_op ctrl)
range_ctl_op _ = none

module _ (x : Externals) (c : Calls x) where
  open x use {MultiPeek}

  -- The loop up to `>`.
  unfoldable pub arg_loop : ℕ → Cmd x GenericArgs
  unfolding collect_comments skip_cur
  arg_loop zero p = out_of_fuel
  arg_loop (suc n) p =
      if_cur Token.r_angle_bracket (pure no_args)
        (do
          collect_comments x
          (t1, comments) ← c.parse_type1 none
          collect_comments x
          skip_cur x Token.comma
          if_cur Token.eof (fail missing_generic_closing_delimiter)
              (do rest ← arg_loop n; pure (generic_arg t1 rest)))
        p

  unfoldable pub parse_genericargs : Cmd x GenericArgs
  unfolding next_token skip_cur arg_loop
  parse_genericargs = do
    if_peek Token.l_angle_bracket (next_token x) (pure tt)
    skip_cur x Token.l_angle_bracket
    args ← arg_loop c.rounds
    skip_cur x Token.r_angle_bracket
    pure args

  -- The choices behind the first one, with the comments behind the last.
  unfoldable pub choice_loop : ℕ → Type1 → Comments → Cmd x (TypeExpr × Comments)
  unfolding next_token collect_comments
  choice_loop zero t comments p = out_of_fuel
  choice_loop (suc n) t comments p =
      if_cur Token.t_choice
        (do
          next_token x
          collect_comments x
          (u, comments') ← c.parse_type1 none
          collect_comments x
          (rest, last) ← choice_loop n u comments'
          pure (type_choice t rest, last))
        (pure (type_choice t no_type_choices, comments)) p

  unfoldable pub parse_type : Option Type2 → Cmd x (TypeExpr × Comments)
  unfolding collect_comments choice_loop
  parse_type parenthesized = do
    (t, comments) ← c.parse_type1 parenthesized
    collect_comments x
    choice_loop c.rounds t comments

  -- A parenthesized type that is given, or the type at the current token.
  abbrev pub first_type2 : Option Type2 → Cmd x Type2
  first_type2 (some (parenthesized_type pt)) = pure (parenthesized_type pt)
  first_type2 _ = c.parse_type2

  abbrev pub operand : Type2 → Comments → Option RangeCtlOp → Cmd x (Type1 × Comments)
  operand t comments none = pure (type1 t no_operator, comments)
  operand t comments (some op) = do
    next_token x
    collect_comments x
    u ← c.parse_type2
    pure (type1 t (operator op u), none)

  unfoldable pub parse_type1 : Option Type2 → Cmd x (Type1 × Comments)
  unfolding collect_comments next_token
  parse_type1 parenthesized = do
    t ← first_type2 parenthesized
    comments ← collect_comments x
    λ p. operand t comments (range_ctl_op p.cur_token) p

-- ===== src/Parser/Generics.antt =====
-- src/parser.rs: `parse_genericparm`.
use cddl.Prelude.{ℕ, zero, suc, ◌+◌, ◌||◌, List, [], ◌∷◌, if◌then◌else◌}
use cddl.Token.{Token}
use cddl.Lexer.State.{Externals}
use cddl.Ast.{Identifier}
use cddl.Parser.State.{
  out_of_fuel, ◌>>=◌, ◌>>◌, pure, fail, cur_token_is, if_cur, remaining, Cmd, next_token,
  identifier_from_ident_token, invalid_generic_syntax, invalid_generic_identifier,
}
use cddl.Parser.Comments.{collect_comments}

module _ (x : Externals) where
  open x use {MultiPeek}

  -- The loop up to `>`.
  unfoldable pub param_loop : ℕ → Cmd x (List Identifier)
  unfolding next_token collect_comments
  param_loop zero p = out_of_fuel
  param_loop (suc n) p =
      if_cur Token.r_angle_bracket (pure [])
        (collect_comments x >> (λ q. elim q.cur_token [
          | Token.ident ident socket ↦
              (do
                next_token x
                collect_comments x
                λ r.
                    if cur_token_is Token.comma r || cur_token_is Token.r_angle_bracket r
                    then (do
                      params ← param_loop n
                      pure (identifier_from_ident_token ident socket ∷ params))
                        r
                    else fail invalid_generic_syntax r)
                q
          | Token.comma ↦ (next_token x >> param_loop n) q
          | Token.value v ↦ fail invalid_generic_identifier q
          | _ ↦ fail invalid_generic_syntax q
        ]))
        p

  unfoldable pub parse_genericparm : Cmd x (List Identifier)
  unfolding next_token param_loop
  parse_genericparm =
      if_cur Token.l_angle_bracket (next_token x) (pure tt)
      >> (λ p. param_loop (remaining p.tokens + 4) p)

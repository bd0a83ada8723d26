-- ===== src/Parser/Comments.antt =====
-- src/parser.rs and src/ast/mod.rs: `collect_comments`, and what a type does with the comments behind
-- it. Comments are not in the tree here; those behind a type go along with it where the parser asks for
-- them. A loop has a round for each token that is left, the current one and the next one.
use cddl.Prelude.{
  ℕ, zero, suc, ◌+◌, Bool, not, ◌&&◌, Option, none, some, List, [], ◌∷◌, ◌++◌, Text, text_eq, any,
  ltb, if◌then◌else◌, length, drop,
}
use cddl.Token.{Token}
use cddl.Lexer.State.{Externals}
use cddl.Parser.State.{ok, out_of_fuel, ◌>>=◌, ◌>>◌, pure, if_cur, remaining, Cmd, next_token}

abbrev pub Comments : Type 0
Comments = Option (List Text)

-- `comments.get_or_insert(Comments::default()).0.push(comment)`.
abbrev pub push_comment : Comments → Text → Comments
push_comment none c = some (c ∷ [])
push_comment (some cs) c = some (cs ++ (c ∷ []))

abbrev pub push_comments : Comments → List Text → Comments
push_comments acc [] = acc
push_comments acc (c ∷ cs) = push_comments (push_comment acc c) cs

abbrev pub push_all : Comments → Comments → Comments
push_all acc none = acc
push_all acc (some cs) = push_comments acc cs

abbrev pub any_non_newline : List Text → Bool
any_non_newline cs = any (λ c. not (text_eq c (b'\n' ∷ []))) cs

-- On the comments behind the last choice of a type.
abbrev pub split_comments_after_type : Comments → Comments
split_comments_after_type none = none
split_comments_after_type (some cs) =
    if any_non_newline cs && ltb 1 (length cs) then some (drop 1 cs) else none

abbrev pub take_comments_after_type : Comments → Comments
take_comments_after_type none = none
take_comments_after_type (some cs) = if any_non_newline cs then some cs else none

module _ (x : Externals) where
  open x use {MultiPeek}

  -- `while let Token::COMMENT(_comment) = self.cur_token`.
  unfoldable pub comment_loop : ℕ → Comments → Cmd x Comments
  unfolding next_token
  comment_loop zero acc p = out_of_fuel
  comment_loop (suc n) acc p = elim p.cur_token [
    | Token.comment c ↦ (next_token x >> comment_loop n (push_comment acc c)) p
    | _ ↦ ok acc p
  ]

  -- `while let Token::NEWLINE = self.cur_token`.
  unfoldable pub newline_loop : ℕ → Cmd x (Unit {0})
  unfolding next_token
  newline_loop zero p = out_of_fuel
  newline_loop (suc n) p = if_cur Token.newline (next_token x >> newline_loop n) (pure tt) p

  unfoldable pub collect_rounds : ℕ → Cmd x Comments
  unfolding comment_loop newline_loop
  collect_rounds zero p = out_of_fuel
  collect_rounds (suc n) p =
      (do
        comments ← comment_loop n none
        newline_loop n
        λ q. elim q.cur_token [
          | Token.comment c ↦ (do more ← collect_rounds n; pure (push_all comments more)) q
          | _ ↦ ok comments q
        ])
        p

  unfoldable pub collect_comments : Cmd x Comments
  unfolding collect_rounds
  collect_comments p = collect_rounds (suc (remaining p.tokens + 3)) p

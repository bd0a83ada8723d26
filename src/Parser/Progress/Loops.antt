-- ===== src/Parser/Progress/Loops.antt =====
-- src/parser.rs: the loops that read over comments and to the next rule end, where the tokens come from
-- a lexer. What is left to read bounds their rounds.
use cddl.Prelude.{
  ℕ, zero, suc, ◌+◌, ◌≤◌, ◌<◌, Bool, true, false, ◌&&◌, none, ◌≡◌, refl, sym, ap, ◌∙◌, arith, ◌⊎◌,
  inl, inr, if◌then◌else◌,
}
use cddl.Token.{Token}
use cddl.Lexer.State.{Externals}
use cddl.Parser.State.{Parser, Parsed, ok, ◌>>=◌, ◌>>◌, pure, cur_token_is, remaining, next_token}
use cddl.Parser.Comments
use cddl.Parser.Groups.{is_ident}
use cddl.Parser.MemberKeys.{is_comment}
use cddl.Parser.Cddl.{advance_loop, advance_to_next_rule, peeks_assignment}
use cddl.Parser.Progress.{
  live, live-le, live_comment, comment_clash, live_on, live_newline, left, IsLexing, Ends,
  Ends-change, Ends-then, next-Ends,
}

module _ (x : Externals) where
  open x use {MultiPeek}

  abbrev pub NoComment : Parser MultiPeek → Type 0
  NoComment q = is_comment q.cur_token ≡ false

  abbrev pub NoNewline : Parser MultiPeek → Type 0
  NoNewline q = cur_token_is Token.newline q ≡ false

  comment-Ends :
      (n : ℕ) (acc : Comments.Comments) (t : Token) (p : Parser MultiPeek)
      → p.cur_token ≡ t
      → IsLexing p
      → left p ≤ n
      → ((acc : Comments.Comments) (q : Parser MultiPeek)
          → IsLexing q
          → left q < n
          → Ends NoComment q (Comments.comment_loop x n acc q))
      → Ends NoComment p (elim t as (λ v. Parsed MultiPeek Comments.Comments) [
        | Token.comment c ↦
            (next_token x >> Comments.comment_loop x n (Comments.push_comment acc c)) p
        | _ ↦ ok acc p
      ])
  comment-Ends n acc (Token.comment c) p e i l f =
      next-Ends x NoComment (Comments.comment_loop x n (Comments.push_comment acc c)) p i
        (λ q j h. f (Comments.push_comment acc c) q j (omega (arith, live_comment c, ap live e)))
  comment-Ends n acc _ p e i l f = (i, (omega arith, ap is_comment e))

  comment_loop-Ends :
      (n : ℕ) (acc : Comments.Comments) (p : Parser MultiPeek)
      → IsLexing p
      → left p < n
      → Ends NoComment p (Comments.comment_loop x n acc p)
  unfolding Comments.comment_loop
  comment_loop-Ends zero acc p i l = absurd (omega (arith, l))
  comment_loop-Ends (suc n) acc p i l =
      comment-Ends n acc p.cur_token p refl i (omega arith) (comment_loop-Ends n)

  -- Either a newline was read, or the current token is the same.
  abbrev Newlined : Parser MultiPeek → Parser MultiPeek → Type 0
  Newlined p q = ((left q < left p) ⊎ (q.cur_token ≡ p.cur_token)) × NoNewline q

  newline-Ends :
      (n : ℕ) (b : Bool) (p : Parser MultiPeek)
      → cur_token_is Token.newline p ≡ b
      → IsLexing p
      → left p ≤ n
      → ((q : Parser MultiPeek)
          → IsLexing q
          → left q < n
          → Ends (Newlined q) q (Comments.newline_loop x n q))
      → Ends (Newlined p) p (if b then (next_token x >> Comments.newline_loop x n) p else ok tt p)
  newline-Ends n false p e i l f = (i, (omega arith, (inr refl, e)))
  newline-Ends n true p e i l f = next-Ends x (Newlined p) (Comments.newline_loop x n) p i (λ q j h.
      Ends-change (Newlined q) (Newlined p) q (Comments.newline_loop x n q)
        (f q j (omega (arith, live_newline p e)))
        (λ r m (d, k). (inl (omega (arith, live_newline p e)), k)))

  newline_loop-Ends :
      (n : ℕ) (p : Parser MultiPeek)
      → IsLexing p
      → left p < n
      → Ends (Newlined p) p (Comments.newline_loop x n p)
  unfolding Comments.newline_loop
  newline_loop-Ends zero p i l = absurd (omega (arith, l))
  newline_loop-Ends (suc n) p i l =
      newline-Ends n (cur_token_is Token.newline p) p refl i (omega arith) (newline_loop-Ends n)

  -- Neither a comment nor a newline is the current token.
  abbrev pub IsCollected : Parser MultiPeek → Type 0
  IsCollected q = NoComment q × NoNewline q

  again-Ends :
      (n : ℕ) (comments : Comments.Comments) (t : Token) (p q : Parser MultiPeek)
      → q.cur_token ≡ t
      → IsLexing q
      → Newlined p q
      → NoComment p
      → ((r : Parser MultiPeek)
          → IsLexing r
          → left r < left p
          → Ends IsCollected r (Comments.collect_rounds x n r))
      → Ends IsCollected q (elim t as (λ v. Parsed MultiPeek Comments.Comments) [
        | Token.comment c ↦
            (Comments.collect_rounds x n >>= (λ more. pure (Comments.push_all comments more))) q
        | _ ↦ ok comments q
      ])
  again-Ends n comments (Token.comment c) p q e i (inl l, k) h f =
      Ends-then IsCollected IsCollected q (Comments.collect_rounds x n q) _ (f q i l)
        (λ more r j d g. (j, (omega arith, g)))
  again-Ends n comments (Token.comment c) p q e i (inr o, k) h f =
      absurd (comment_clash p.cur_token c (sym o ∙ e) h)
  again-Ends n comments _ p q e i (d, k) h f = (i, (omega arith, (ap is_comment e, k)))

  collect_rounds-Ends :
      (n : ℕ) (p : Parser MultiPeek)
      → IsLexing p
      → left p < n
      → Ends IsCollected p (Comments.collect_rounds x (suc n) p)
  unfolding Comments.collect_rounds
  collect_rounds-Ends zero p i l = absurd (omega (arith, l))
  collect_rounds-Ends (suc n) p i l =
      Ends-then NoComment IsCollected p (Comments.comment_loop x (suc n) none p) _
        (comment_loop-Ends (suc n) none p i l)
        (λ comments q j m h.
          Ends-then (Newlined q) IsCollected q (Comments.newline_loop x (suc n) q) _
            (newline_loop-Ends (suc n) q j (omega arith))
            (λ u r o d w.
              again-Ends (suc n) comments r.cur_token q r refl o w h
                (λ v y g. collect_rounds-Ends n v y (omega arith))))

  -- With any functions for what the lexer takes from other crates, where the tokens come from a lexer
  -- `collect_comments` ends without the fuel of the model running out; where it returns, no more tokens
  -- are left than before, and the current one is neither a comment nor a newline.
  pub collect_comments-Ends :
      (p : Parser MultiPeek) → IsLexing p → Ends IsCollected p (Comments.collect_comments x p)
  unfolding Comments.collect_comments
  collect_comments-Ends p i =
      collect_rounds-Ends (remaining p.tokens + 3) p i
        (omega (arith, live-le p.cur_token, live-le p.peek_token))

  -- A rule may begin at the current token, or it is `EOF`.
  abbrev pub IsNextRule : Parser MultiPeek → Type 0
  IsNextRule q =
      ((is_ident q.cur_token && peeks_assignment q.peek_token) ≡ true)
      ⊎ (cur_token_is Token.eof q ≡ true)

  stop-Ends :
      (n : ℕ) (a b : Bool) (q : Parser MultiPeek)
      → (is_ident q.cur_token && peeks_assignment q.peek_token) ≡ a
      → cur_token_is Token.eof q ≡ b
      → IsLexing q
      → (b ≡ false → Ends IsNextRule q (advance_loop x n q))
      → Ends IsNextRule q (if a then ok tt q else (if b then ok tt q else advance_loop x n q))
  stop-Ends n true b q d e i f = (i, (omega arith, inl d))
  stop-Ends n false true q d e i f = (i, (omega arith, inr e))
  stop-Ends n false false q d e i f = f refl

  advance_loop-Ends :
      (n : ℕ) (p : Parser MultiPeek)
      → IsLexing p
      → left p + 1 < n + live p.cur_token
      → Ends IsNextRule p (advance_loop x n p)
  unfolding advance_loop
  advance_loop-Ends zero p i l = absurd (omega (arith, l, live-le p.cur_token))
  advance_loop-Ends (suc n) p i l = next-Ends x IsNextRule _ p i (λ q j h.
      stop-Ends n (is_ident q.cur_token && peeks_assignment q.peek_token) (cur_token_is Token.eof q)
        q refl refl j (λ e. advance_loop-Ends n q j (omega (arith, live_on q e))))

  -- With any functions for what the lexer takes from other crates, where the tokens come from a lexer
  -- `advance_to_next_rule` ends without the fuel of the model running out; where it returns, the current
  -- token is `EOF`, or it is a name and the next token assigns to it.
  pub advance_to_next_rule-Ends :
      (p : Parser MultiPeek) → IsLexing p → Ends IsNextRule p (advance_to_next_rule x p)
  unfolding advance_to_next_rule
  advance_to_next_rule-Ends p i =
      advance_loop-Ends (remaining p.tokens + 4) p i
        (omega (arith, live-le p.cur_token, live-le p.peek_token))

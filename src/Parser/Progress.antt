-- ===== src/Parser/Progress.antt =====
-- src/parser.rs: what is left to read, where the tokens come from a lexer, and how `next_token` lessens it.
pub mod Loops
use cddl.Prelude.{
  ℕ, zero, suc, ◌+◌, ◌≤◌, ◌<◌, Bool, true, false, ◌&&◌, none, ◌≡◌, refl, sym, ap, ◌∙◌, arith, ◌==◌,
  eq_of_test, ◌⊎◌, inl, inr, Text, if◌then◌else◌, length,
}
use cddl.Token.{Token}
use cddl.Lexer.State.{Externals, Lexer, Step, Position}
use cddl.Lexer.Next
use cddl.Lexer.Next.Tokens.{Progresses, next_token-Progresses}
use cddl.Parser.State.{
  Parser, Parsed, ok, err, panic, out_of_fuel, lexer, Tokens, lexing, items, ◌>>=◌, ◌>>◌, pure,
  cur_token_is, remaining, Cmd, next_token, pull, swap_tokens, set_peek, and_then,
}
use cddl.Parser.Discriminant.{discriminant}
use cddl.Parser.Comments
use cddl.Parser.Groups.{is_ident}
use cddl.Parser.MemberKeys.{is_comment}
use cddl.Parser.Cddl.{advance_loop, advance_to_next_rule, peeks_assignment}

-- Whether a token is not `EOF`.
abbrev pub live : Token → ℕ
live t = if discriminant t == discriminant Token.eof then 0 else 1

pub live-le : (t : Token) → live t ≤ 1
live-le t = ground arith

live_eof : live Token.eof ≡ 0
unfolding discriminant
live_eof = refl

pub live_comment : (c : Text) → live (Token.comment c) ≡ 1
unfolding discriminant
live_comment c = refl

pub comment_clash : (t : Token) (c : Text) → t ≡ Token.comment c → is_comment t ≡ false → ⊥
comment_clash t c e h = cc (ap is_comment e, h)

module _ {M : Type 0} where
  pub live_on : (p : Parser M) → cur_token_is Token.eof p ≡ false → live p.cur_token ≡ 1
  live_on p e = ap (λ b. if b then 0 else 1) e

  pub live_newline : (p : Parser M) → cur_token_is Token.newline p ≡ true → live p.cur_token ≡ 1
  unfolding discriminant
  live_newline p e =
      ap (λ n. if n == 1 then 0 else 1)
        (eq_of_test (discriminant p.cur_token) (discriminant Token.newline) e)

  -- A bound on the tokens before the parser is at `EOF`.
  abbrev pub left : Parser M → ℕ
  left p = live p.cur_token + (live p.peek_token + remaining p.tokens)

  abbrev LexingTokens : Tokens M → Type 0
  LexingTokens (lexing s) = Unit
  LexingTokens (items ts) = ⊥

  abbrev pub IsLexing : Parser M → Type 0
  IsLexing p = LexingTokens p.tokens

  -- The call ends, with no more left than before; the state it returns in has the property.
  abbrev pub Ends : {A : Type 0} → (Parser M → Type 0) → Parser M → Parsed M A → Type 0
  Ends P p (ok a q) = IsLexing q × ((left q ≤ left p) × P q)
  Ends P p (err e q) = Unit
  Ends P p panic = Unit
  Ends P p out_of_fuel = ⊥

  -- One token less is left, unless the current one was `EOF`.
  abbrev Steps : Parser M → Parsed M (Unit {0}) → Type 0
  Steps p r = Ends (λ q. left q + live p.cur_token ≤ left p) p r

  Ends-weaken :
      {B : Type 0} (Q : Parser M → Type 0) (p q : Parser M) (r : Parsed M B)
      → left q ≤ left p
      → Ends Q q r
      → Ends Q p r
  Ends-weaken Q p q (ok b s) l (i, (m, h)) = (i, (omega arith, h))
  Ends-weaken Q p q (err e s) l h = tt
  Ends-weaken Q p q panic l h = tt
  Ends-weaken Q p q out_of_fuel l h = h

  pub Ends-change :
      {B : Type 0} (P Q : Parser M → Type 0) (p : Parser M) (r : Parsed M B)
      → Ends P p r
      → ((q : Parser M) → left q ≤ left p → P q → Q q)
      → Ends Q p r
  Ends-change P Q p (ok b s) (i, (m, h)) f = (i, (m, f s m h))
  Ends-change P Q p (err e q) h f = tt
  Ends-change P Q p panic h f = tt
  Ends-change P Q p out_of_fuel h f = h

  module _ {A B : Type 0} where
    pub Ends-then :
        (P Q : Parser M → Type 0) (p : Parser M) (r : Parsed M A) (k : A → Parser M → Parsed M B)
        → Ends P p r
        → ((a : A) (q : Parser M) → IsLexing q → left q ≤ left p → P q → Ends Q q (k a q))
        → Ends Q p (and_then r k)
    Ends-then P Q p (ok a q) k (i, (l, h)) f = Ends-weaken Q p q (k a q) l (f a q i l h)
    Ends-then P Q p (err e q) k h f = tt
    Ends-then P Q p panic k h f = tt
    Ends-then P Q p out_of_fuel k h f = absurd h

module _ (x : Externals) where
  open x use {MultiPeek}

  pulled-Steps :
      (p : Parser MultiPeek) (s : Lexer MultiPeek) (r : Step MultiPeek (Position × Token))
      → remaining p.tokens ≡ length s.input
      → Progresses x s r
      → Steps p (elim r as (λ v. Parsed MultiPeek (Unit {0})) [
        | Step.ok (pos, t) s' ↦ ok tt (set_peek x (lexing s') pos t (swap_tokens x p))
        | Step.err e pos s' ↦ err (lexer e) (record (swap_tokens x p) { tokens = lexing s' })
        | Step.panic ↦ panic
        | Step.out_of_fuel ↦ out_of_fuel
      ])
  pulled-Steps p s (Step.ok (pos, t) s') e (a, inl (h, k)) = (
    tt,
    (
      omega (arith, ap live h, live_eof, ap length k),
      omega (arith, ap live h, live_eof, ap length k),
    ),
  )
  pulled-Steps p s (Step.ok (pos, t) s') e (a, inr l) =
      (tt, (omega (arith, live-le t), omega (arith, live-le t)))
  pulled-Steps p s (Step.err l pos s') e h = tt
  pulled-Steps p s Step.panic e h = tt
  pulled-Steps p s Step.out_of_fuel e h = h

  pull-Steps :
      (ts : Tokens MultiPeek) (p : Parser MultiPeek)
      → p.tokens ≡ ts
      → LexingTokens ts
      → Steps p (pull x ts (swap_tokens x p))
  unfolding pull
  pull-Steps (items ts) p e i = absurd i
  pull-Steps (lexing s) p e i =
      pulled-Steps p s (Next.next_token x s) (ap remaining e) (next_token-Progresses x s)

  next_token-Steps : (p : Parser MultiPeek) → IsLexing p → Steps p (next_token x p)
  unfolding next_token
  next_token-Steps p i = pull-Steps p.tokens p refl i

  -- A token that is not `EOF` is read, and the call goes on.
  pub next-Ends :
      {A : Type 0} (Q : Parser MultiPeek → Type 0) (k : Cmd x A) (p : Parser MultiPeek)
      → IsLexing p
      → ((q : Parser MultiPeek) → IsLexing q → left q + live p.cur_token ≤ left p → Ends Q q (k q))
      → Ends Q p ((next_token x >> k) p)
  next-Ends Q k p i f =
      Ends-then (λ q. left q + live p.cur_token ≤ left p) Q p (next_token x p) (λ u. k)
        (next_token-Steps p i) (λ u q j l h. f q j h)

-- ===== src/Lexer/Next/Tokens.antt =====
-- src/lexer.rs: `next_token` always ends, and reads on up to the end of the input.
use cddl.Prelude.{ℕ, ◌<◌, [], length, refl, arith, ◌≡◌, ◌⊎◌, inl, inr}
use cddl.Token.{Token}
use cddl.Lexer.State.{
  Externals, Lexer, Step, ok, err, panic, out_of_fuel, Position, set_range, read_char,
  skip_whitespace,
}
use cddl.Lexer.State.Advance.{
  Advances, Advances-trans, Advances-length, Reads, read_char-Reads, Ends, skip_whitespace-Ends,
}
use cddl.Lexer.Next
use cddl.Lexer.Next.Progress.{finish-Ends, lex_char-Ends}

module _ (x : Externals) where
  open x use {MultiPeek}

  -- The outcome of a call for a token: it advances, and by a character at least, except that the token
  -- at the end of the input is `EOF`.
  abbrev pub Progresses : Lexer MultiPeek → Step MultiPeek (Position × Token) → Type 0
  Progresses s (ok (p, token) t) =
      Advances s t × (((token ≡ Token.eof) × (t.input ≡ [])) ⊎ (length t.input < length s.input))
  Progresses s (err e p t) = Advances s t
  Progresses s panic = Unit
  Progresses s out_of_fuel = ⊥

  Ends-Progresses :
      (s t : Lexer MultiPeek) (r : Step MultiPeek (Position × Token))
      → Advances s t
      → length t.input < length s.input
      → Ends t r
      → Progresses s r
  Ends-Progresses s t (ok (p, token) u) a l e =
      (Advances-trans s t u a e, inr (omega (arith, Advances-length t u e)))
  Ends-Progresses s t (err m p u) a l e = Advances-trans s t u a e
  Ends-Progresses s t panic a l e = tt
  Ends-Progresses s t out_of_fuel a l e = e

  -- The token made of the first character read behind the whitespace.
  after_read :
      (s t : Lexer MultiPeek) (r : Step MultiPeek (ℕ × ℕ))
      → Advances s t
      → Reads x t r
      → Progresses s (elim r [
        | ok item u ↦ Next.lex_char x t.position.index item u
        | err e p u ↦ Next.finish x t.position.index Token.eof u
        | panic ↦ panic
        | out_of_fuel ↦ out_of_fuel
      ])
  after_read s t (ok item u) a (d, l) =
      Ends-Progresses s u (Next.lex_char x t.position.index item u) (Advances-trans s t u a d)
        (omega (arith, Advances-length s t a)) (lex_char-Ends x t.position.index item u)
  after_read s t (err e p u) a (d, n) = (
    Advances-trans s t (set_range t.position.index u) a (
        Advances-trans t u (set_range t.position.index u) d
          (finish-Ends x t.position.index Token.eof u)),
    inl (refl, n),
  )
  after_read s t panic a d = tt
  after_read s t out_of_fuel a d = d

  after_whitespace :
      (s : Lexer MultiPeek) (r : Step MultiPeek (Unit {0}))
      → Ends s r
      → Progresses s (elim r [
        | ok a t ↦ elim (read_char x t) [
          | ok item u ↦ Next.lex_char x t.position.index item u
          | err e p u ↦ Next.finish x t.position.index Token.eof u
          | panic ↦ panic
          | out_of_fuel ↦ out_of_fuel
        ]
        | err e p t ↦ err e p t
        | panic ↦ panic
        | out_of_fuel ↦ out_of_fuel
      ])
  after_whitespace s (ok a t) d = after_read s t (read_char x t) d (read_char-Reads x t)
  after_whitespace s (err e p t) d = d
  after_whitespace s panic d = tt
  after_whitespace s out_of_fuel d = d

  -- With any functions for what the lexer takes from other crates, a call of `next_token` ends without
  -- the fuel of the model running out. Where it returns or reports an error, it has consumed a prefix of
  -- the input, moved the line on by the number of newlines in it, and left the text alone; where it
  -- returns, it has consumed at least one character, or the token is `EOF` and no input is left.
  pub next_token-Progresses : (s : Lexer MultiPeek) → Progresses s (Next.next_token x s)
  unfolding Next.next_token
  next_token-Progresses s = after_whitespace s (skip_whitespace x s) (skip_whitespace-Ends x s)

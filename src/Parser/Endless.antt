-- ===== src/Parser/Endless.antt =====
-- src/parser.rs: the loop of `parse_grpent` that looks for `>` does not end at the end of the input.
use cddl.Prelude.{ℕ, zero, suc, [], ◌≡◌, refl, sym, ◌∙◌, ap, subst, ◌==◌, if◌then◌else◌}
use cddl.Token.{Token}
use cddl.Lexer.State.{Externals, Lexer, Step, Position, read_char, skip_loop, skip_whitespace}
use cddl.Lexer.Next
use cddl.Parser.State.{
  Parser, out_of_fuel, lexing, next_token, pull, swap_tokens, set_peek, ok, and_then,
}
use cddl.Parser.Discriminant.{discriminant}
use cddl.Parser.Entries.{skip_to_angle}

module _ (x : Externals) where
  open x use {MultiPeek}

  -- Where no input is left, the next token is `EOF`, and no input is left.
  abbrev EndsLexing : Lexer MultiPeek → Type 0
  EndsLexing s =
      (pos : Position) × ((t : Lexer MultiPeek) × ((Next.next_token x s
            ≡ Step.ok (pos, Token.eof) t)
          × (t.input ≡ [])))

  emptied-EndsLexing : (s : Lexer MultiPeek) → EndsLexing (record s { input = [] })
  unfolding Next.next_token skip_whitespace skip_loop read_char
  emptied-EndsLexing s = (_, (_, (refl, refl)))

  next_token-EndsLexing : (s : Lexer MultiPeek) → s.input ≡ [] → EndsLexing s
  next_token-EndsLexing s e =
      subst (λ cs. EndsLexing (record s { input = cs })) (sym e) (emptied-EndsLexing s)

  -- The current and the next token are `EOF`, and no input is left.
  pub record IsAtEnd (p : Parser MultiPeek) : Type 0 where
    pub source : Lexer MultiPeek
    pub from_source : p.tokens ≡ lexing source
    pub no_input : source.input ≡ []
    pub cur_eof : p.cur_token ≡ Token.eof
    pub peek_eof : p.peek_token ≡ Token.eof

  next_token-IsAtEnd :
      (p : Parser MultiPeek)
      → IsAtEnd p
      → (q : Parser MultiPeek) × ((next_token x p ≡ ok tt q) × IsAtEnd q)
  unfolding next_token pull
  next_token-IsAtEnd p h =
      let (pos, (s, (e, n))) = next_token-EndsLexing h.source h.no_input in
      (
        set_peek x (lexing s) pos Token.eof (swap_tokens x p),
        (
          rw (h.from_source, pull, e),
          record {
            source = s;
            from_source = refl;
            no_input = n;
            cur_eof = h.peek_eof;
            peek_eof = refl;
          },
        ),
      )

  -- With any functions for what the lexer takes from other crates, where the lexer has no input left and
  -- the current and the next token are `EOF`, no number of rounds is enough for the loop of `parse_grpent`
  -- that reads up to a next token `>`.
  pub skip_to_angle-endless :
      (n : ℕ) (p : Parser MultiPeek) → IsAtEnd p → skip_to_angle x n p ≡ out_of_fuel
  unfolding skip_to_angle discriminant
  skip_to_angle-endless zero p h = refl
  skip_to_angle-endless (suc n) p h =
      let (q, (e, k)) = next_token-IsAtEnd p h in
      ap (λ b. if b then ok tt p else and_then (next_token x p) (λ u. skip_to_angle x n))
        (ap (λ t. discriminant t == discriminant Token.r_angle_bracket) h.peek_eof)
      ∙ ap (λ r. and_then r (λ u. skip_to_angle x n)) e
      ∙ skip_to_angle-endless n q k

-- ===== src/Lexer/Next/First.antt =====
-- src/lexer.rs: `next_token` at the start of a text whose first character is no whitespace.
use cddl.Prelude.{ℕ, if◌then◌else◌, length, false, ◌∷◌, ◌≡◌, ap, ◌∙◌, ◌+◌, Text, ◌==◌}
use cddl.Token.{Token}
use cddl.Lexer.Chars.{char_indices, utf8_len}
use cddl.Lexer.State.{
  Externals, Lexer, Position, Step, ok, err, panic, out_of_fuel, skip_whitespace, skip_loop,
  lexer_new, read_char, pass_char, ◌>>◌,
}
use cddl.Lexer.Next.{next_token, lex_char, finish}

module _ (x : Externals) where
  open x use {MultiPeek, is_whitespace, multipeek, multipeek_next}

  -- The state behind the first character.
  abbrev pub behind : ℕ → Text → Lexer MultiPeek
  behind c r = record {
    str_input = c ∷ r;
    input = char_indices (0 + utf8_len c) r;
    multipeek = multipeek_next (multipeek ((0, c) ∷ char_indices (0 + utf8_len c) r));
    position = pass_char (record { line = 1; column = 1; range = (0, 0); index = 0 }) 0 c;
  }

  -- The first token of a text, and what is left of the text behind it.
  abbrev pub Lexes : Text → Token → Text → Type 0
  Lexes input token left =
      (p : Position) × (s : Lexer MultiPeek) × (k : ℕ) × (next_token x (lexer_new x input)
        ≡ ok (p, token) s)
      × (s.input ≡ char_indices k left)

  module _ (c : ℕ) (r : Text) (n : (c == b'\n') ≡ false) (w : is_whitespace c ≡ false) where
    nothing_skipped : skip_whitespace x (lexer_new x (c ∷ r)) ≡ ok tt (lexer_new x (c ∷ r))
    unfolding lexer_new skip_whitespace skip_loop
    nothing_skipped =
        ap
          (λ b.
            if b
            then ok tt (lexer_new x (c ∷ r))
            else if is_whitespace c
            then (read_char x >> skip_loop x (length (char_indices 0 (c ∷ r))))
                (lexer_new x (c ∷ r))
            else ok tt (lexer_new x (c ∷ r)))
          n
        ∙ ap
            (λ b.
              if b
              then (read_char x >> skip_loop x (length (char_indices 0 (c ∷ r))))
                  (lexer_new x (c ∷ r))
              else ok tt (lexer_new x (c ∷ r)))
            w

    -- The first character is read, and decides the token.
    pub next_token-first : next_token x (lexer_new x (c ∷ r)) ≡ lex_char x 0 (0, c) (behind c r)
    unfolding next_token lexer_new read_char
    next_token-first =
        ap
          (λ q. elim q as (λ v. Step MultiPeek (Position × Token)) [
            | ok a t ↦ elim (read_char x t) [
              | ok item u ↦ lex_char x t.position.index item u
              | err e p u ↦ finish x t.position.index Token.eof u
              | panic ↦ panic
              | out_of_fuel ↦ out_of_fuel
            ]
            | err e p t ↦ err e p t
            | panic ↦ panic
            | out_of_fuel ↦ out_of_fuel
          ])
          nothing_skipped

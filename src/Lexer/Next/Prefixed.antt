-- ===== src/Lexer/Next/Prefixed.antt =====
-- src/lexer.rs: `next_token` where the prefix of a byte string is begun but not completed.
use cddl.Prelude.{ℕ, true, false, none, ◌∷◌, ◌≡◌, ◌++◌, refl, ap, ◌∙◌, Text, codes, ◌==◌, arith}
use cddl.Token.{Token, ByteValue}
use cddl.Token.Lookup.{lookup_ident}
use cddl.Lexer.Chars.{char_indices, slice}
use cddl.Lexer.State.{
  Externals, Lexer, Position, Step, ok, err, panic, out_of_fuel, read_char, pass_char, get_slice,
  set_range, base64,
}
use cddl.Lexer.Strings.{is_ealpha, is_identifier_char, read_identifier, identifier_loop}
use cddl.Lexer.Next.{
  Lexing, lex_char, lex_longer, lex_other, lex_b, lex_ident, lex_encoded, if_next, next_is, finish,
}
use cddl.Lexer.Next.First.{behind, Lexes, next_token-first}

module _ (x : Externals) where
  open x use {MultiPeek, is_whitespace, is_alphabetic, base64url_decode, multipeek, multipeek_next}

  if_next-other :
      (d : ℕ) (found other : Lexing x) (s : Lexer MultiPeek)
      → next_is x d s ≡ false
      → if_next x d found other s ≡ other s
  unfolding if_next
  if_next-other d found other s h = rw h refl

  module _ (c : ℕ) (r : Text) (w : is_whitespace b'b' ≡ false) (a : is_alphabetic b'b' ≡ true)
      (stops : is_identifier_char x c ≡ false) where
    abbrev behind_six : Lexer MultiPeek
    behind_six = record {
      str_input = b'b' ∷ b'6' ∷ c ∷ r;
      input = char_indices 2 (c ∷ r);
      multipeek = multipeek_next (behind x b'b' (b'6' ∷ c ∷ r)).multipeek;
      position = pass_char (behind x b'b' (b'6' ∷ c ∷ r)).position 1 b'6';
    }

    at_b :
        lex_char x 0 (0, b'b') (behind x b'b' (b'6' ∷ c ∷ r))
        ≡ lex_b x 0 0 (behind x b'b' (b'6' ∷ c ∷ r))
    unfolding lex_char lex_longer lex_other is_ealpha
    at_b = rw (a, lex_other) refl

    four : (b'4' == c) ≡ false
    unfolding is_ealpha
    four = ground (arith, stops)

    at_six : lex_b x 0 0 (behind x b'b' (b'6' ∷ c ∷ r)) ≡ lex_ident x 0 0 behind_six
    unfolding lex_b if_next read_char
    at_six =
        if_next-other b'4'
          (if_next x b'\'' (lex_encoded x 0 base64url_decode base64 ByteValue.b64)
            (lex_ident x 0 0))
          (lex_ident x 0 0) behind_six four

    identifier_b : read_identifier x 0 behind_six ≡ ok (codes "b") behind_six
    unfolding read_identifier identifier_loop get_slice slice
    identifier_b = rw stops refl

    named_b : lex_ident x 0 0 behind_six ≡ finish x 0 (lookup_ident (codes "b")) behind_six
    unfolding lex_ident
    named_b =
        ap
          (λ q. elim q as (λ v. Step MultiPeek (Position × Token)) [
            | ok name t ↦ finish x 0 (lookup_ident name) t
            | err e p t ↦ err e p t
            | panic ↦ panic
            | out_of_fuel ↦ out_of_fuel
          ])
          identifier_b

    -- Where `b6` begins a text and no identifier character is behind it, the token is the identifier `b`,
    -- and the `6` is lost. The classes of characters are such that `b` is a letter and no whitespace.
    pub next_token-b6 : Lexes x (codes "b6" ++ c ∷ r) (Token.ident (codes "b") none) (c ∷ r)
    unfolding lookup_ident
    next_token-b6 = (
      (set_range 0 behind_six).position,
      set_range 0 behind_six,
      2,
      next_token-first x b'b' (b'6' ∷ c ∷ r) refl w ∙ at_b ∙ at_six ∙ named_b,
      refl,
    )

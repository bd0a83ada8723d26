-- ===== src/Lexer/Next/Quoted.antt =====
-- src/lexer.rs: `next_token` on the printed form of a text string.
use cddl.Prelude.{
  ◌+◌, true, false, Option, some, ◌∷◌, ◌++◌, ◌≡◌, refl, sym, ◌∙◌, ap, subst, append_assoc, Text,
  all, codes,
}
use cddl.Token.{F64, Bytes, Value, Token}
use cddl.Token.Display.{display_value}
use cddl.Lexer.Chars.{byte_len, is_schar}
use cddl.Lexer.State.{Externals, Position, Step, ok, err, panic, out_of_fuel, set_range}
use cddl.Lexer.Strings.Quoted.{read_text_value-quoted}
use cddl.Lexer.Next.{lex_char, lex_longer, finish}
use cddl.Lexer.Next.First.{behind, Lexes, next_token-first}

module _ (x : Externals) where
  open x use {MultiPeek, is_whitespace, multipeek, multipeek_next}

  Lexes-quoted :
      (u r : Text)
      → is_whitespace b'"' ≡ false
      → all is_schar u ≡ true
      → Lexes x (b'"' ∷ u ++ b'"' ∷ r) (Token.value (Value.text u)) r
  unfolding lex_char lex_longer
  Lexes-quoted u r w h =
      let (t, run, left) =
        read_text_value-quoted x u r (behind x b'"' (u ++ b'"' ∷ r)) refl refl h in
      (
        (set_range 0 t).position,
        set_range 0 t,
        byte_len u + 2,
        next_token-first x b'"' (u ++ b'"' ∷ r) refl w
            ∙ ap
                (λ q. elim q as (λ v. Step MultiPeek (Position × Token)) [
                  | ok a t ↦ finish x 0 (Token.value (Value.text a)) t
                  | err e p t ↦ err e p t
                  | panic ↦ panic
                  | out_of_fuel ↦ out_of_fuel
                ])
                run,
        left,
      )

  -- With a whitespace test that the quote fails, the printed form of a text string of characters that
  -- need no escape, whatever stands behind it, is read as that string, up to the closing quote.
  pub next_token-display_value :
      (show_f64 : F64 → Text) (from_utf8 : Bytes → Option Text) (u printed r : Text)
      → is_whitespace b'"' ≡ false
      → all is_schar u ≡ true
      → display_value show_f64 from_utf8 (Value.text u) ≡ some printed
      → Lexes x (printed ++ r) (Token.value (Value.text u)) r
  unfolding display_value
  next_token-display_value show_f64 from_utf8 u printed r w h e =
      subst (λ t. Lexes x (t ++ r) (Token.value (Value.text u)) r)
        {x = codes "\"" ++ (u ++ codes "\"")} {y = printed} (cc)
        (subst (λ t. Lexes x (b'"' ∷ t) (Token.value (Value.text u)) r)
          (sym (append_assoc u (codes "\"") r)) (Lexes-quoted u r w h))

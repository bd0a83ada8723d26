-- ===== src/Lexer/Next/Single.antt =====
-- src/lexer.rs: `next_token` on the characters that are a token by themselves.
use cddl.Prelude.{ℕ, false, Option, none, some, [], ◌∷◌, ◌≡◌, refl, ap, ◌∙◌, ◌+◌, Text, ◌==◌, arith}
use cddl.Token.{F64, Bytes, Token}
use cddl.Token.Display.{display_token}
use cddl.Lexer.Chars.{utf8_len}
use cddl.Lexer.State.{Externals, set_range}
use cddl.Lexer.Next.{lex_char, lex_longer, single_token, finish, Lexing}
use cddl.Lexer.Next.First.{behind, Lexes, next_token-first}

module _ (x : Externals) (show_f64 : F64 → Text) (from_utf8 : Bytes → Option Text) where
  open x use {MultiPeek, is_whitespace}

  -- The arms as a table: a newline and `~` are printed as nothing.
  single_token-display :
      (c : ℕ) (t : Token)
      → single_token x c ≡ some t
      → (c == b'\n') ≡ false
      → (c == b'~') ≡ false
      → display_token show_f64 from_utf8 t ≡ some (c ∷ [])
  unfolding display_token
  single_token-display c t h n u = ground (arith, h, n, u)

  -- A character other than a newline and `~` that is a token by itself and no whitespace is that token's
  -- printed form, and a text that begins with it, whatever stands behind it, is read as that token.
  pub next_token-single_token :
      (c : ℕ) (t : Token) (r : Text)
      → single_token x c ≡ some t
      → (c == b'\n') ≡ false
      → (c == b'~') ≡ false
      → is_whitespace c ≡ false
      → (display_token show_f64 from_utf8 t ≡ some (c ∷ [])) × Lexes x (c ∷ r) t r
  unfolding lex_char
  next_token-single_token c t r h n u w = (
    single_token-display c t h n u,
    (
      (set_range 0 (behind x c r)).position,
      set_range 0 (behind x c r),
      0 + utf8_len c,
      next_token-first x c r n w
          ∙ ap
              (λ o.
                (elim o as (λ v. Lexing x) [ some t ↦ finish x 0 t | none ↦ lex_longer x 0 0 c ])
                  (behind x c r))
              h,
      refl,
    ),
  )

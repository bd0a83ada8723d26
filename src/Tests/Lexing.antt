-- ===== src/Tests/Lexing.antt =====
-- The lexer on concrete inputs, with the other crates' functions given for ASCII.
use cddl.Prelude.{
  ℕ, zero, suc, ◌+◌, Bool, true, false, ◌||◌, Option, none, some, List, [], ◌∷◌, ◌≡◌, refl, String,
  codes, within, get_elem?, if◌then◌else◌,
}
use cddl.Prelude.Int.{pos}
use cddl.Token.{Token, Value}
use cddl.Lexer.Chars.{is_ascii_whitespace}
use cddl.Lexer.State.{Externals, decoded, Lexer, ok, lexer_new, get_slice}
use cddl.Lexer.Chars.{slice}
use cddl.Token.Lookup.{lookup_ident}
use cddl.Prelude.Decimal.{parse_usize}
use cddl.Lexer.Strings.{is_ealpha}
use cddl.Token.Display.{display_value, display_token}
use cddl.Lexer.Next.Single.{next_token-single_token}
use cddl.Lexer.Next.First.{Lexes}
use cddl.Lexer.Next.Quoted.{next_token-display_value}
use cddl.Lexer.Next.Prefixed.{next_token-b6}
use cddl.Lexer.Next.{next_token}
use cddl.Lexer.Next.Tokens.{Progresses, next_token-Progresses}

-- A cursor over the characters; the floats are not read.
abbrev pub ascii : Externals
ascii = record {
  MultiPeek = List (ℕ × ℕ) × ℕ;
  multipeek = λ cs. (cs, 0);
  multipeek_next = λ (cs, n). elim cs [ [] ↦ ([], 0) | c ∷ ds ↦ (ds, 0) ];
  multipeek_peek = λ (cs, n). (get_elem? cs n, (cs, n + 1));
  parse_f64 = λ t. none;
  parse_hexf64 = λ t. none;
  f64_as_isize = λ v. pos 0;
  f64_as_usize = λ v. 0;
  base16_decode = λ b. decoded;
  base64url_decode = λ b. decoded;
  is_alphabetic = λ c. within b'a' b'z' c || within b'A' b'Z' c;
  is_whitespace = is_ascii_whitespace;
}

-- The tokens of a text, up to the end of the input or an error.
abbrev push : Token → Option (List Token) → Option (List Token)
push t none = none
push t (some ts) = some (t ∷ ts)

abbrev is_eof : Token → Bool
is_eof Token.eof = true
is_eof _ = false

tokens : ℕ → Lexer (List (ℕ × ℕ) × ℕ) → Option (List Token)
tokens zero s = none
tokens (suc f) s = elim (next_token ascii s) [
  | ok (p, t) s' ↦ let rest = tokens f s' in if is_eof t then some [] else push t rest
  | _ ↦ none
]

lex : String → Option (List Token)
unfolding tokens next_token lexer_new
lex s = tokens 100 (lexer_new ascii (codes s))

-- Tokens of a rule.
lex_rule :
    lex "foo = 10"
    ≡ some (Token.ident (codes "foo") none ∷ Token.assign ∷ Token.value (Value.uint 10) ∷ [])
unfolding lex tokens next_token lexer_new get_slice slice lookup_ident parse_usize
lex_rule = refl

-- The prefix characters that are read before the identifier are lost.
lex_b6 :
    lex "b6 = 1"
    ≡ some (Token.ident (codes "b") none ∷ Token.assign ∷ Token.value (Value.uint 1) ∷ [])
unfolding lex tokens next_token lexer_new get_slice slice lookup_ident parse_usize
lex_b6 = refl

abbrev start : Lexer (List (ℕ × ℕ) × ℕ)
start = lexer_new ascii (codes "foo = 10")

next_token-Progresses_example : Progresses ascii start (next_token ascii start)
next_token-Progresses_example = next_token-Progresses ascii start

next_token-display_value_example :
    Lexes ascii (codes "\"a b\" x") (Token.value (Value.text (codes "a b"))) (codes " x")
unfolding display_value
next_token-display_value_example =
    next_token-display_value ascii (λ v. []) (λ b. none) (codes "a b") (codes "\"a b\"")
      (codes " x") refl refl refl

next_token-b6_example : Lexes ascii (codes "b6 = 1") (Token.ident (codes "b") none) (codes " = 1")
unfolding is_ealpha
next_token-b6_example = next_token-b6 ascii b' ' (codes "= 1") refl refl refl

next_token-single_token_example :
    (display_token (λ v. []) (λ b. none) Token.comma ≡ some (codes ","))
    × Lexes ascii (codes ", x") Token.comma (codes " x")
next_token-single_token_example =
    next_token-single_token ascii (λ v. []) (λ b. none) b',' Token.comma (codes " x") refl refl refl
      refl

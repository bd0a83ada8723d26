-- ===== src/Parser/Occur/RoundTrip.antt =====
-- src/parser.rs: `parse_occur` reads the indicator that src/ast/mod.rs displays.
use cddl.Prelude.{
  ℕ, suc, ◌+◌, Bool, false, Option, none, some, List, [], ◌∷◌, ◌++◌, ◌≡◌, refl, ◌∙◌, ap, ◌≢◌, Text,
  codes, append-nil, arith, ◌==◌, if◌then◌else◌,
}
use cddl.Prelude.Decimal.{show_ℕ}
use cddl.Token.{Token, Value, F64}
use cddl.Token.Display.{display_token, display_value}
use cddl.Lexer.State.{Externals, Position}
use cddl.Ast
use cddl.Ast.{Occur}
use cddl.Ast.Display.{display_occur}
use cddl.Parser.State.{
  Parser, Parsed, ok, items, ◌>>◌, pure, cur_token_is, remaining, next_token, pull, and_then,
}
use cddl.Parser.Discriminant.{discriminant}
use cddl.Parser.Comments.{comment_loop, newline_loop, collect_rounds, collect_comments, push_all}
use cddl.Parser.MemberKeys.{is_comment}
use cddl.Parser.Occur
use cddl.Parser.Occur.{uint_value, take_uint, parse_occur}

-- The tokens of an indicator.
abbrev pub occur_tokens : Occur → List Token
occur_tokens Ast.zero_or_more = Token.asterisk ∷ []
occur_tokens (Ast.exact (some l) (some u)) =
    Token.value (Value.uint l) ∷ Token.asterisk ∷ Token.value (Value.uint u) ∷ []
occur_tokens (Ast.exact (some l) none) = Token.value (Value.uint l) ∷ Token.asterisk ∷ []
occur_tokens (Ast.exact none (some u)) = Token.asterisk ∷ Token.value (Value.uint u) ∷ []
occur_tokens (Ast.exact none none) = Token.asterisk ∷ []
occur_tokens Ast.one_or_more = Token.one_or_more ∷ []
occur_tokens Ast.optional = Token.optional ∷ []

-- What the tokens display as.
abbrev add_text : Option Text → Option Text → Option Text
add_text (some s) (some t) = some (s ++ t)
add_text _ _ = none

unfoldable pub display_tokens : (F64 → Text) → (List ℕ → Option Text) → List Token → Option Text
unfolding display_token
display_tokens show_f64 from_utf8 [] = some []
display_tokens show_f64 from_utf8 (t ∷ ts) =
    add_text (display_token show_f64 from_utf8 t) (display_tokens show_f64 from_utf8 ts)

-- A token that neither belongs to an indicator nor is read over.
abbrev pub IsPlain : Token → Type 0
IsPlain t =
    (is_comment t ≡ false)
    × (((discriminant t == discriminant Token.newline) ≡ false) × (uint_value t ≡ none))

rounds_suc : (n : ℕ) → n + 3 ≡ suc (n + 2)
rounds_suc n = omega arith

display_tokens-occur_tokens :
    (show_f64 : F64 → Text) (from_utf8 : List ℕ → Option Text) (o : Occur)
    → display_tokens show_f64 from_utf8 (occur_tokens o) ≡ some (display_occur o)
unfolding display_tokens display_token display_value display_occur
display_tokens-occur_tokens show_f64 from_utf8 Ast.zero_or_more = refl
display_tokens-occur_tokens show_f64 from_utf8 (Ast.exact (some l) (some u)) =
    ap (λ s. some (show_ℕ l ++ (codes "*" ++ s))) (append-nil (show_ℕ u))
display_tokens-occur_tokens show_f64 from_utf8 (Ast.exact (some l) none) = refl
display_tokens-occur_tokens show_f64 from_utf8 (Ast.exact none (some u)) =
    ap (λ s. some (codes "*" ++ s)) (append-nil (show_ℕ u))
display_tokens-occur_tokens show_f64 from_utf8 (Ast.exact none none) = refl
display_tokens-occur_tokens show_f64 from_utf8 Ast.one_or_more = refl
display_tokens-occur_tokens show_f64 from_utf8 Ast.optional = refl

module _ (x : Externals) where
  open x use {MultiPeek}

  -- A parser before the given tokens, of which there are two at least.
  abbrev pub before :
      Position × Token
      → Position × Token
      → List (Position × Token)
      → Parser MultiPeek
      → Parser MultiPeek
  before (a, s) (b, t) ts p = record p {
    tokens = items ts;
    cur_token = s;
    lexer_position = a;
    peek_token = t;
    peek_lexer_position = b;
  }

  uncommented :
      {A : Type 0} (t : Token) (k : Text → Parsed MultiPeek A) (m : Parsed MultiPeek A)
      → is_comment t ≡ false
      → (elim t as (λ v. Parsed MultiPeek A) [ Token.comment c ↦ k c | _ ↦ m ]) ≡ m
  uncommented (Token.comment c) k m h = cc
  uncommented _ k m h = refl

  comment_loop-plain :
      (n : ℕ) (p : Parser MultiPeek)
      → is_comment p.cur_token ≡ false
      → comment_loop x (suc n) none p ≡ ok none p
  unfolding comment_loop
  comment_loop-plain n p h = uncommented p.cur_token _ _ h

  newline_loop-plain :
      (n : ℕ) (p : Parser MultiPeek)
      → cur_token_is Token.newline p ≡ false
      → newline_loop x (suc n) p ≡ ok tt p
  unfolding newline_loop
  newline_loop-plain n p k = ap (λ b. if b then (next_token x >> newline_loop x n) p else ok tt p) k

  collect_rounds-plain :
      (n : ℕ) (p : Parser MultiPeek)
      → is_comment p.cur_token ≡ false
      → cur_token_is Token.newline p ≡ false
      → collect_rounds x (suc (suc n)) p ≡ ok none p
  unfolding collect_rounds
  collect_rounds-plain n p h k =
      rw (comment_loop-plain n p h, newline_loop-plain n p k)
        (uncommented p.cur_token
          (λ c. and_then (collect_rounds x (suc n) p) (λ more. pure (push_all none more)))
          (ok none p) h)

  collect_comments-plain :
      (p : Parser MultiPeek)
      → is_comment p.cur_token ≡ false
      → cur_token_is Token.newline p ≡ false
      → collect_comments x p ≡ ok none p
  unfolding collect_comments
  collect_comments-plain p h k =
      ap (λ n. collect_rounds x (suc n) p) (rounds_suc (remaining p.tokens))
      ∙ collect_rounds-plain (remaining p.tokens + 2) p h k

  -- Behind the indicator.
  occurrence-plain :
      (o : Occur) (p : Parser MultiPeek)
      → IsPlain p.cur_token
      → Occur.occurrence x o p ≡ ok (some o) p
  occurrence-plain o p (h, (k, l)) =
      ap (λ r. and_then r (λ u. pure (some o))) (collect_comments-plain p h k)

  take_uint-plain :
      (p : Parser MultiPeek) → uint_value p.cur_token ≡ none → take_uint x p ≡ ok none p
  unfolding take_uint
  take_uint-plain p l = rw (take_uint, l)

  -- The parser before the tokens of an indicator and two tokens more, at any positions.
  abbrev pub before_occur :
      Occur
      → (ℕ → Position)
      → Position × Token
      → Position × Token
      → List (Position × Token)
      → Parser MultiPeek
      → Parser MultiPeek
  before_occur o at t u ts p = elim (occur_tokens o) [
    | [] ↦ before t u ts p
    | a ∷ [] ↦ before (at 0, a) t (u ∷ ts) p
    | a ∷ b ∷ [] ↦ before (at 0, a) (at 1, b) (t ∷ u ∷ ts) p
    | a ∷ b ∷ c ∷ rest ↦ before (at 0, a) (at 1, b) ((at 2, c) ∷ t ∷ u ∷ ts) p
  ]

  parse_occur-before_occur :
      (o : Occur) (is_optional : Bool) (at : ℕ → Position) (t u : Position × Token)
      (ts : List (Position × Token)) (p : Parser MultiPeek)
      → o ≢ Ast.exact none none
      → IsPlain t.1
      → parse_occur x is_optional (before_occur o at t u ts p) ≡ ok (some o) (before t u ts p)
  unfolding parse_occur next_token pull take_uint discriminant
  parse_occur-before_occur Ast.zero_or_more is_optional at t u ts p n h =
      rw (h.1.1) (occurrence-plain Ast.zero_or_more (before t u ts p) h)
  parse_occur-before_occur (Ast.exact (some l) (some v)) is_optional at t u ts p n h =
      occurrence-plain (Ast.exact (some l) (some v)) (before t u ts p) h
  parse_occur-before_occur (Ast.exact (some l) none) is_optional at t u ts p n h =
      rw (h.1.1) (occurrence-plain (Ast.exact (some l) none) (before t u ts p) h)
  parse_occur-before_occur (Ast.exact none (some v)) is_optional at t u ts p n h =
      occurrence-plain (Ast.exact none (some v)) (before t u ts p) h
  parse_occur-before_occur (Ast.exact none none) is_optional at t u ts p n h = absurd (n refl)
  parse_occur-before_occur Ast.one_or_more is_optional at t u ts p n h =
      occurrence-plain Ast.one_or_more (before t u ts p) h
  parse_occur-before_occur Ast.optional is_optional at t u ts p n h =
      occurrence-plain Ast.optional (before t u ts p) h

  -- The tokens of an occurrence indicator display as the indicator does. Before them, at any positions,
  -- and two tokens more of which the first is no comment, no newline and no unsigned number, `parse_occur`
  -- returns the indicator and stands before these two tokens, whether an indicator is optional or not. The
  -- indicator is not the one with neither bound, which displays as `*` does.
  pub parse_occur-display_occur :
      (show_f64 : F64 → Text) (from_utf8 : List ℕ → Option Text) (o : Occur) (is_optional : Bool)
      (at : ℕ → Position) (t u : Position × Token) (ts : List (Position × Token))
      (p : Parser MultiPeek)
      → o ≢ Ast.exact none none
      → IsPlain t.1
      → (display_tokens show_f64 from_utf8 (occur_tokens o) ≡ some (display_occur o))
        × (parse_occur x is_optional (before_occur o at t u ts p) ≡ ok (some o) (before t u ts p))
  parse_occur-display_occur show_f64 from_utf8 o is_optional at t u ts p n h = (
    display_tokens-occur_tokens show_f64 from_utf8 o,
    parse_occur-before_occur o is_optional at t u ts p n h,
  )

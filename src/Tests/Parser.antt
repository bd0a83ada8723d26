-- ===== src/Tests/Parser.antt =====
-- Instances of the theorems on the parser.
use cddl.Prelude.{ℕ, none, some, List, [], ◌∷◌, ◌≡◌, ◌≢◌, refl, codes, Text, true, false, ◌+◌}
use cddl.Token.{Token, SocketPlug, Value}
use cddl.Lexer.State.{Position, Lexer, lexer_new}
use cddl.Ast
use cddl.Ast.{Rule, Occur}
use cddl.Ast.Display.{display_occur}
use cddl.Parser.State.{Parser, ok, out_of_fuel, lexing, items, blank_parser}
use cddl.Parser.Discriminant.{discriminant}
use cddl.Parser.Comments.{collect_comments}
use cddl.Parser.Occur.{parse_occur}
use cddl.Parser.Occur.RoundTrip.{
  occur_tokens, display_tokens, before, before_occur, IsPlain, parse_occur-display_occur,
}
use cddl.Parser.Entries.{skip_to_angle}
use cddl.Parser.Endless.{skip_to_angle-endless}
use cddl.Parser.Grammar.{calls}
use cddl.Parser.Rules.{parse_rule}
use cddl.Parser.Yields.{Yields}
use cddl.Parser.WellFormed.{WellFormed, parse_rule-WellFormed}
use cddl.Parser.Progress.{Ends}
use cddl.Parser.Progress.Loops.{
  IsCollected, IsNextRule, collect_comments-Ends, advance_to_next_rule-Ends,
}
use cddl.Parser.Cddl
use cddl.Parser.Cddl.{cddl_from_str, advance_to_next_rule}
use cddl.Parser.Reports.Explains.{Explains}
use cddl.Parser.Reports.Cddl.{IsParsed, cddl_from_str-Explains}
use cddl.Parser.Placed.{Distinct}
use cddl.Parser.Placed.Loops.{rule_loop-Distinct, resolve_loop-insert_all}
use cddl.Tests.Lexing.{ascii}

abbrev M : Type 0
M = List (ℕ × ℕ) × ℕ

abbrev at : ℕ → Position
at n = record { line = 1; column = 1; range = (n, n + 1); index = n }

cddl_from_str-Explains_example :
    Explains
      (IsParsed ascii 20 (codes "b = [* a]\na = int"))
      (cddl_from_str ascii 20 (codes "b = [* a]\na = int"))
cddl_from_str-Explains_example = cddl_from_str-Explains ascii 20 (codes "b = [* a]\na = int")

-- Before `$x /= int`.
abbrev socket_rule : Parser M
socket_rule =
    record (blank_parser ascii []
      (items ((at 2, Token.int) ∷ (at 3, Token.eof) ∷ (at 4, Token.eof) ∷ []))) {
        cur_token = Token.ident (codes "x") (some SocketPlug.type);
        peek_token = Token.t_choice_alt;
      }

parse_rule-WellFormed_example :
    Yields WellFormed (parse_rule ascii (calls ascii 8) false socket_rule)
parse_rule-WellFormed_example = parse_rule-WellFormed ascii 8 false socket_rule

-- At a newline in front of a comment and a rule.
abbrev commented : Parser M
commented = record (blank_parser ascii [] (lexing (lexer_new ascii (codes "; c\n\na = int")))) {
  cur_token = Token.newline;
  peek_token = Token.newline;
}

collect_comments-Ends_example :
    Ends (IsCollected ascii) commented (collect_comments ascii commented)
collect_comments-Ends_example = collect_comments-Ends ascii commented tt

advance_to_next_rule-Ends_example :
    Ends (IsNextRule ascii) commented (advance_to_next_rule ascii commented)
advance_to_next_rule-Ends_example = advance_to_next_rule-Ends ascii commented tt

-- Behind the last token.
abbrev finished : Parser M
finished = blank_parser ascii [] (lexing (lexer_new ascii []))

skip_to_angle-endless_example : skip_to_angle ascii 100 finished ≡ out_of_fuel
unfolding lexer_new
skip_to_angle-endless_example = skip_to_angle-endless ascii 100 finished (record {
  source = lexer_new ascii [];
  from_source = refl;
  no_input = refl;
  cur_eof = refl;
  peek_eof = refl;
})

abbrev bounds : Occur
bounds = Ast.exact (some 2) (some 5)

int-IsPlain : IsPlain Token.int
unfolding discriminant
int-IsPlain = (refl, (refl, refl))

parse_occur-display_occur_example :
    (display_tokens (λ v. []) (λ b. none) (occur_tokens bounds) ≡ some (display_occur bounds))
    × (parse_occur ascii true
          (before_occur ascii bounds at (at 3, Token.int) (at 4, Token.comma) [] finished)
        ≡ ok (some bounds) (before ascii (at 3, Token.int) (at 4, Token.comma) [] finished))
unfolding discriminant
parse_occur-display_occur_example =
    parse_occur-display_occur ascii (λ v. []) (λ b. none) bounds true at (at 3, Token.int)
      (at 4, Token.comma) [] finished (cc) int-IsPlain

-- The rule `b = ` and a name.
abbrev rule_of : Text → Rule
rule_of s = Rule.type (record {
  name = record { ident = codes "b"; socket = none };
  generic_params = none;
  is_type_choice_alternate = false;
  value =
      Ast.type_choice
        (Ast.type1 (Ast.typename (record { ident = s; socket = none }) Ast.no_generic_args)
          Ast.no_operator)
        Ast.no_type_choices;
})

-- Before the tokens of a rule and the end of its text.
abbrev at_rule : Token → Parser M
at_rule t =
    record (blank_parser ascii []
      (items ((at 4, t) ∷ (at 4, Token.eof) ∷ (at 4, Token.eof) ∷ (at 4, Token.eof) ∷ []))) {
        cur_token = Token.ident (codes "b") none;
        lexer_position = at 0;
        peek_token = Token.assign;
      }

rule_loop-Distinct_example : Distinct (rule_of (codes "int") ∷ [])
unfolding discriminant Cddl.rule_loop calls cddl.Token.Lookup.in_standard_prelude
    cddl.Parser.Type2.finish_arm
rule_loop-Distinct_example =
    rule_loop-Distinct ascii (calls ascii 8) 5 (at_rule Token.int) _ (rule_of (codes "int") ∷ []) []
      refl

-- A parser that knows `a`.
abbrev knowing : Parser M
knowing = record (blank_parser ascii (codes "b = a") (items [])) { typenames = codes "a" ∷ [] }

resolve_loop-insert_all_example :
    Cddl.insert_all (Cddl.sort_known ((0, rule_of (codes "a")) ∷ [])) [] ≢ none
unfolding discriminant Cddl.rule_loop calls cddl.Parser.Type2.finish_arm Cddl.resolve_loop
    cddl.Lexer.State.get_slice cddl.Token.Lookup.lookup_ident
resolve_loop-insert_all_example =
    resolve_loop-insert_all ascii (calls ascii 8) 5 5 (at_rule (Token.ident (codes "a") none)) _
      knowing _ [] _ ((0, rule_of (codes "a")) ∷ []) [] refl refl

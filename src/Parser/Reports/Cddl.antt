-- ===== src/Parser/Reports/Cddl.antt =====
-- src/parser.rs: what the parse of a whole text comes to.
use cddl.Prelude.{
  ℕ, suc, Bool, true, false, Option, none, some, List, [], ◌∷◌, ◌++◌, ◌≡◌, refl, Text, is_empty,
  if◌then◌else◌, length, length-append, arith, ◌+◌, In, sym, ◌∙◌,
}
use cddl.Lexer.State.{Externals, lexer_new}
use cddl.Ast
use cddl.Ast.{Rule}
use cddl.Parser.State.{
  Parser, Parsed, ok, err, panic, out_of_fuel, Error, parser, lexer, incremental, Tokens, lexing,
  fail, no_rules_defined, next_token, blank_parser, parser_new,
}
use cddl.Parser.Comments.{Comments, collect_comments}
use cddl.Parser.Grammar.{calls}
use cddl.Parser.Cddl
use cddl.Parser.Cddl.{UnknownRule, Resolution, resolved, unresolved, Pass, register_rule}
use cddl.Parser.Reports.{NonEmpty, push_error-Fails, next_token-Reports}
use cddl.Parser.Reports.Parts.{then_next-Reports, collect_comments-Reports}
use cddl.Parser.Reports.Explains.{
  Explains, Anything, Fails-NonEmpty, Reports-Explains, bind-Explains, sooner_empty, later_empty,
}
use cddl.Parser.Reports.Rules.{calls-CallsReport}
use cddl.Parser.Reports.Inserts.{insert_all-In, length-insert_all, length-sort_known}
use cddl.Parser.Reports.Collects.{Collects, IsClean, rule_loop-IsClean}
use cddl.Parser.Reports.Resolve.{IsResolved, resolve_loop-Explains}

-- The parser of a text, behind the comments that the text begins with.
abbrev pub Begins : (x : Externals) → Text → Parser x.MultiPeek → Type 0
Begins x input p =
    (q : Parser x.MultiPeek) × (parser_new x input (lexing (lexer_new x input)) ≡ ok tt q)
    × ((cs : Comments) × (collect_comments x q ≡ ok cs p))

-- Rounds from the begin of a text to its end, which collect these rules and put off the unknown ones.
abbrev pub Rounds : (x : Externals) → ℕ → Text → List Rule → List UnknownRule → Type 0
Rounds x n input rules unknown =
    (p : Parser x.MultiPeek) × (t : Parser x.MultiPeek) × Begins x input p
    × Collects x (calls x n) (rules, unknown) t [] [] p

-- A grammar with a rule from a parser without errors. It has the rules of rounds that go through the
-- whole text and of which none fails, and as many more as the rounds put off.
pub record IsParsed (x : Externals) (n : ℕ) (input : Text) (c : Ast.Cddl) (p : Parser x.MultiPeek)
    : Type 0 where
  pub no_errors : p.errors ≡ []
  pub has_rule : is_empty c.rules ≡ false
  pub rules : List Rule
  pub unknown : List UnknownRule
  pub rounds : Rounds x n input rules unknown
  pub kept : (r : Rule) → In r rules → In r c.rules
  pub complete : length c.rules ≡ length rules + length unknown

empty_errors : (es : List Error) → is_empty es ≡ true → es ≡ []
empty_errors [] h = refl
empty_errors (e ∷ es) h = cc

some_errors : (es : List Error) → is_empty es ≡ false → NonEmpty es
some_errors [] h = cc
some_errors (e ∷ es) h = tt

length-reverse : (us : List UnknownRule) → length (Cddl.reverse us) ≡ length us
length-reverse [] = refl
length-reverse (u ∷ us) = omega (arith, length-append (Cddl.reverse us) (u ∷ []), length-reverse us)

-- The rules with the known ones inserted have all of them.
abbrev Inserted : List (ℕ × Rule) → List Rule → List Rule → Type 0
Inserted known rules rs =
    ((r : Rule) → In r rules → In r rs) × (length rs ≡ length known + length rules)

insert_all-Inserted :
    (known : List (ℕ × Rule)) (rules rs : List Rule)
    → Cddl.insert_all (Cddl.sort_known known) rules ≡ some rs
    → Inserted known rules rs
insert_all-Inserted known rules rs e = (
  insert_all-In (Cddl.sort_known known) rules rs e,
  omega (arith, length-insert_all (Cddl.sort_known known) rules rs e, length-sort_known known),
)

module _ (x : Externals) (n : ℕ) (input : Text) where
  open x use {MultiPeek}

  new-Explains : (ts : Tokens MultiPeek) → Explains Anything (parser_new x input ts)
  unfolding parser_new
  new-Explains ts =
      Reports-Explains (blank_parser x input ts) _
        (then_next-Reports x (next_token x) (next_token-Reports x) (blank_parser x input ts))

  placed-Explains :
      (o : Option (List Rule)) (b : Bool) (rules : List Rule) (unknown : List UnknownRule)
      (known : List (ℕ × Rule)) (p : Parser MultiPeek)
      → is_empty p.errors ≡ b
      → ((rs : List Rule) → o ≡ some rs → Inserted known rules rs)
      → (p.errors ≡ [] → Rounds x n input rules unknown × (length known ≡ length unknown))
      → Explains (IsParsed x n input) (elim o as (λ v. Parsed MultiPeek Ast.Cddl) [
        | none ↦ panic
        | some rs ↦
            if b
            then (if is_empty rs then fail no_rules_defined p else ok (record { rules = rs }) p)
            else err incremental p
      ])
  placed-Explains none b rules unknown known p e k h = tt
  placed-Explains (some []) true rules unknown known p e k h =
      Fails-NonEmpty p _ (push_error-Fails no_rules_defined p)
  placed-Explains (some (r ∷ rs)) true rules unknown known p e k h = record {
    no_errors = empty_errors p.errors e;
    has_rule = refl;
    rules = rules;
    unknown = unknown;
    rounds = (h (empty_errors p.errors e)).0;
    kept = (k (r ∷ rs) refl).0;
    complete = omega (arith, (k (r ∷ rs) refl).1, (h (empty_errors p.errors e)).1);
  }
  placed-Explains (some rs) false rules unknown known p e k h = some_errors p.errors e

  finish_rules-Explains :
      (rules : List Rule) (unknown : List UnknownRule) (known : List (ℕ × Rule))
      (p : Parser MultiPeek)
      → (p.errors ≡ [] → Rounds x n input rules unknown × (length known ≡ length unknown))
      → Explains (IsParsed x n input) (Cddl.finish_rules x rules known p)
  unfolding Cddl.finish_rules
  finish_rules-Explains rules unknown known p =
      placed-Explains (Cddl.insert_all (Cddl.sort_known known) rules) (is_empty p.errors) rules
        unknown known p refl (λ rs e. insert_all-Inserted known rules rs e)

  commented :
      (p : Parser MultiPeek) (r : Parsed MultiPeek Comments)
      → collect_comments x p ≡ r
      → Explains Anything r
      → Explains (λ cs q. collect_comments x p ≡ ok cs q) r
  commented p (ok u q) e h = e
  commented p (err incremental q) e h = h
  commented p (err (parser msg) q) e h = tt
  commented p (err (lexer l) q) e h = tt
  commented p panic e h = tt
  commented p out_of_fuel e h = tt

  parse_cddl-Explains :
      (p : Parser MultiPeek)
      → parser_new x input (lexing (lexer_new x input)) ≡ ok tt p
      → Explains (IsParsed x n input) (Cddl.parse_cddl x n p)
  unfolding Cddl.parse_cddl
  parse_cddl-Explains p new =
      bind-Explains (λ cs q. collect_comments x p ≡ ok cs q) (IsParsed x n input)
        (collect_comments x p) _
        (commented p (collect_comments x p) refl
          (Reports-Explains p (collect_comments x p) (collect_comments-Reports x p)))
        (λ cs q e begun.
          bind-Explains (IsClean x (calls x n) [] [] q) (IsParsed x n input)
            (Cddl.rule_loop x (calls x n) n [] [] q) _
            (rule_loop-IsClean x (calls x n) (calls-CallsReport x n) n [] [] q)
            (λ (rules, unknown) r e clean.
              bind-Explains (IsResolved (Cddl.reverse unknown) [] r) (IsParsed x n input)
                (Cddl.resolve_loop x (calls x n) (suc (length unknown)) (Cddl.reverse unknown) [] r)
                _
                (resolve_loop-Explains x (calls x n) (suc (length unknown)) (Cddl.reverse unknown)
                  [] r)
                (λ (known, errors) s e (same, all).
                  finish_rules-Explains rules unknown known
                    (record s { errors = s.errors ++ errors })
                    (λ h. (
                      (
                        q,
                        r,
                        (p, new, (cs, begun)),
                        (clean (sym same ∙ sooner_empty s.errors errors h)).1,
                      ),
                      omega (arith, all (later_empty s.errors errors h), length-reverse unknown),
                    )))))

  started :
      (r : Parsed MultiPeek (Unit {0}))
      → parser_new x input (lexing (lexer_new x input)) ≡ r
      → Explains Anything r
      → Explains (IsParsed x n input) (elim r as (λ v. Parsed MultiPeek Ast.Cddl) [
        | ok u p ↦ Cddl.parse_cddl x n p
        | err e p ↦ err e p
        | panic ↦ panic
        | out_of_fuel ↦ out_of_fuel
      ])
  started (ok u p) new h = parse_cddl-Explains p new
  started (err incremental p) new h = h
  started (err (parser msg) p) new h = tt
  started (err (lexer e) p) new h = tt
  started panic new h = tt
  started out_of_fuel new h = tt

-- With any functions for what the lexer takes from other crates, at any fuel and on any text: a parse
-- that returns a grammar has reported no error, and has gone through the text, from behind its first
-- comments up to its end, in rounds. In each round `parse_rule` returned a rule, which was collected or
-- put off, and which, unless it is a choice alternate, repeats no name of the rules collected before. The rules that the rounds
-- collected, and did not put off, are in the grammar, and it has as many further rules as the rounds put
-- off; it has a rule. A parse that ends with the error `INCREMENTAL` has reported at least one error.
pub cddl_from_str-Explains :
    (x : Externals) (n : ℕ) (input : Text)
    → Explains (IsParsed x n input) (Cddl.cddl_from_str x n input)
unfolding Cddl.cddl_from_str
cddl_from_str-Explains x n input =
    started x n input (parser_new x input (lexing (lexer_new x input))) refl
      (new-Explains x n input (lexing (lexer_new x input)))

-- ===== src/Parser/Cddl.antt =====
-- src/parser.rs: `parse_cddl`, with `advance_to_next_rule`, `register_rule` and `resolve_rule`, and
-- `cddl_from_str` without the text of its errors.
use cddl.Prelude.{
  ℕ, zero, suc, ◌+◌, Bool, true, false, not, ◌&&◌, Option, none, some, List, [], ◌∷◌, ◌++◌, Text,
  text_eq, any, map, leb, is_empty, if◌then◌else◌, length,
}
use cddl.Token.{Token}
use cddl.Lexer.Chars.{slice}
use cddl.Lexer.State.{Externals, lexer_new}
use cddl.Ast.{Rule, Cddl, display_identifier}
use cddl.Ast.Convert.{rule_name, is_choice_alternate}
use cddl.Parser.State.{
  Parser, Parsed, ok, err, panic, out_of_fuel, Error, parser, incremental, lexing, ◌>>=◌, ◌>>◌,
  pure, fail, push_error, cur_token_is, if_cur, remaining, Cmd, next_token, parser_new,
  duplicate_rule_identifier, missing_definition_for_rule, no_rules_defined,
}
use cddl.Parser.Comments.{collect_comments}
use cddl.Parser.Calls.{Calls}
use cddl.Parser.Groups.{is_ident}
use cddl.Parser.Rules.{parse_rule}
use cddl.Parser.Grammar.{calls}

unfoldable pub register_rule : {M : Type 0} → Rule → Parser M → Parser M
register_rule (Rule.type r) p = record p { typenames = r.name.ident ∷ p.typenames }
register_rule (Rule.group r) p = record p { groupnames = r.name.ident ∷ p.groupnames }

-- A rule that uses names not known yet: its place among the rules, and its text.
pub record UnknownRule : Type 0 where
  pub rule : Rule
  pub index : ℕ
  pub range : ℕ × ℕ

-- What a second parse of a rule comes to.
pub data Resolution : Type 0 where
  resolved : Rule → Resolution
  unresolved : List Error → Resolution

-- One pass over the unknown rules.
pub record Pass : Type 0 where
  pub resolved_rules : List (ℕ × Rule)
  pub pass_errors : List Error
  pub unresolved_rules : List UnknownRule

abbrev pub peeks_assignment : Token → Bool
peeks_assignment Token.assign = true
peeks_assignment Token.t_choice_alt = true
peeks_assignment Token.g_choice_alt = true
peeks_assignment _ = false

-- `known_rules.sort_by(|(a, _), (b, _)| b.partial_cmp(a).unwrap())`, a stable sort.
abbrev pub insert_known : ℕ × Rule → List (ℕ × Rule) → List (ℕ × Rule)
insert_known a [] = a ∷ []
insert_known a (b ∷ bs) = if leb b.0 a.0 then a ∷ b ∷ bs else b ∷ insert_known a bs

abbrev pub sort_known : List (ℕ × Rule) → List (ℕ × Rule)
sort_known [] = []
sort_known (a ∷ as') = insert_known a (sort_known as')

-- `Vec::insert`, which panics behind the end.
abbrev pub vec_insert : ℕ → Rule → List Rule → Option (List Rule)
vec_insert zero r rs = some (r ∷ rs)
vec_insert (suc i) r [] = none
vec_insert (suc i) r (s ∷ rs) = elim (vec_insert i r rs) [ none ↦ none | some ts ↦ some (s ∷ ts) ]

abbrev pub insert_all : List (ℕ × Rule) → List Rule → Option (List Rule)
insert_all [] rs = some rs
insert_all ((i, r) ∷ known) rs = elim (vec_insert i r rs) [
  | none ↦ none
  | some ts ↦ insert_all known ts
]

-- Whether a rule repeats the name of one of the rules.
unfoldable pub rule_exists : List Rule → Rule → Bool
unfolding rule_name is_choice_alternate
rule_exists rules r =
    not (is_choice_alternate r)
    && any (λ existing. text_eq (rule_name r) (rule_name existing)) rules

abbrev pub missing_definitions : List Text → List Error
missing_definitions idents = map (λ i. parser (missing_definition_for_rule i)) idents

abbrev pub pass_resolved : UnknownRule → Rule → Pass → Pass
pass_resolved u r s = record s { resolved_rules = (u.index, r) ∷ s.resolved_rules }

abbrev pub pass_unresolved : UnknownRule → List Error → Pass → Pass
pass_unresolved u es s = record s {
  pass_errors = es ++ s.pass_errors;
  unresolved_rules = u ∷ s.unresolved_rules;
}

abbrev pub reverse : List UnknownRule → List UnknownRule
reverse [] = []
reverse (u ∷ us) = reverse us ++ (u ∷ [])

module _ (x : Externals) where
  open x use {MultiPeek}

  unfoldable pub register_all : List (ℕ × Rule) → Parser MultiPeek → Parser MultiPeek
  unfolding register_rule
  register_all [] p = p
  register_all ((i, r) ∷ rs) p = register_all rs (register_rule r p)

  unfoldable pub advance_loop : ℕ → Cmd x (Unit {0})
  unfolding next_token
  advance_loop zero p = out_of_fuel
  advance_loop (suc n) p =
      (next_token x >> (λ q.
          if is_ident q.cur_token && peeks_assignment q.peek_token
          then ok tt q
          else if_cur Token.eof (pure tt) (advance_loop n) q))
        p

  unfoldable pub advance_to_next_rule : Cmd x (Unit {0})
  unfolding advance_loop
  advance_to_next_rule p = advance_loop (remaining p.tokens + 4) p

  abbrev pub clear_unknown : Parser MultiPeek → Parser MultiPeek
  clear_unknown p = record p { unknown_rule_idents = []; is_guaranteed = false }

  -- A rule that was parsed, from the begin of its text on: the rules and the unknown rules with it.
  unfoldable pub add_rule :
      ℕ → Rule → List Rule → List UnknownRule → Cmd x (List Rule × List UnknownRule)
  unfolding rule_exists register_rule
  add_rule begin r rules unknown p =
      if rule_exists rules r
      then ok (rules, unknown) (push_error duplicate_rule_identifier p)
      else if is_empty p.unknown_rule_idents
      then ok (rules ++ (r ∷ []), unknown) (record (register_rule r p) { is_guaranteed = false })
      else ok
          (
            rules,
            unknown
                ++ (record {
                  rule = r;
                  index = length rules;
                  range = (begin, p.lexer_position.range.1);
                }
                    ∷ []),
          )
          (clear_unknown (if p.is_guaranteed then register_rule r p else p))

  -- `while self.cur_token != Token::EOF`.
  unfoldable pub rule_loop :
      Calls x → ℕ → List Rule → List UnknownRule → Cmd x (List Rule × List UnknownRule)
  unfolding parse_rule add_rule advance_to_next_rule
  rule_loop c zero rules unknown p = out_of_fuel
  rule_loop c (suc n) rules unknown p =
      if cur_token_is Token.eof p then ok (rules, unknown) p else elim (parse_rule x c false p) [
        | ok r q ↦
            (do
              (rules', unknown') ← add_rule p.lexer_position.range.0 r rules unknown
              rule_loop c n rules' unknown')
              q
        | err incremental q ↦
            (if_cur Token.eof (pure tt) (advance_to_next_rule) >> rule_loop c n rules unknown) q
        | err e q ↦ err e q
        | panic ↦ panic
        | out_of_fuel ↦ out_of_fuel
      ]

  -- The rule in a new parser that knows the names known so far; the state stays.
  unfoldable pub resolve_rule : Calls x → ℕ × ℕ → Bool → Cmd x Resolution
  unfolding slice lexer_new parser_new parse_rule
  resolve_rule c (begin, end) parse_group_rule p = elim (slice p.str_input begin end) [
    | none ↦ panic
    | some s ↦ elim (parser_new x p.str_input (lexing (lexer_new x s))) [
      | ok u q ↦
          elim (parse_rule x c parse_group_rule
            (record q { groupnames = p.groupnames; typenames = p.typenames })) [
              | ok rule r ↦
                  ok
                    (if is_empty r.unknown_rule_idents
                      then resolved rule
                      else unresolved (missing_definitions r.unknown_rule_idents))
                    p
              | err e r ↦ ok (unresolved (e ∷ [])) p
              | panic ↦ panic
              | out_of_fuel ↦ out_of_fuel
            ]
      | err e q ↦ ok (unresolved (e ∷ [])) p
      | panic ↦ panic
      | out_of_fuel ↦ out_of_fuel
    ]
  ]

  -- `for unknown_rule in unknown_rules`: first as it stands, then as the rule of a group.
  unfoldable pub resolve_pass : Calls x → List UnknownRule → Cmd x Pass
  unfolding resolve_rule
  resolve_pass c [] = pure (record { resolved_rules = []; pass_errors = []; unresolved_rules = [] })
  resolve_pass c (u ∷ us) = do
    first ← resolve_rule c u.range false
    last ← elim first [
      | resolved r ↦ pure (resolved r)
      | unresolved es ↦ resolve_rule c u.range true
    ]
    rest ← resolve_pass c us
    pure (elim last [
      | resolved r ↦ pass_resolved u r rest
      | unresolved es ↦ pass_unresolved u es rest
    ])

  -- Passes until one resolves nothing: the rules resolved, and the errors of the last pass.
  unfoldable pub resolve_loop :
      Calls x → ℕ → List UnknownRule → List (ℕ × Rule) → Cmd x (List (ℕ × Rule) × List Error)
  unfolding resolve_pass
  resolve_loop c zero unknown known p = out_of_fuel
  resolve_loop c (suc n) unknown known p =
      (do
        pass ← resolve_pass c unknown
        if is_empty pass.resolved_rules then pure (known, pass.pass_errors) else (λ q.
            resolve_loop c n pass.unresolved_rules (known ++ pass.resolved_rules)
              (register_all pass.resolved_rules q)))
        p

  -- The rules in their places, unless there are errors or no rules.
  unfoldable pub finish_rules : List Rule → List (ℕ × Rule) → Cmd x Cddl
  finish_rules rules known p = elim (insert_all (sort_known known) rules) [
    | none ↦ panic
    | some rs ↦
        if is_empty p.errors
        then (if is_empty rs then fail no_rules_defined p else ok (record { rules = rs }) p)
        else err incremental p
  ]

  unfoldable pub parse_cddl : ℕ → Cmd x Cddl
  unfolding collect_comments rule_loop calls resolve_loop finish_rules
  parse_cddl n = do
    collect_comments x
    (rules, unknown) ← rule_loop (calls x n) n [] []
    (known, errors) ← resolve_loop (calls x n) (suc (length unknown)) (reverse unknown) []
    λ p. finish_rules rules known (record p { errors = p.errors ++ errors })

  unfoldable pub cddl_from_str : ℕ → Text → Parsed MultiPeek Cddl
  unfolding parser_new lexer_new parse_cddl
  cddl_from_str n input = elim (parser_new x input (lexing (lexer_new x input))) [
    | ok u p ↦ parse_cddl n p
    | err e p ↦ err e p
    | panic ↦ panic
    | out_of_fuel ↦ out_of_fuel
  ]

-- `root_type_name_from_cddl_str`: the first type rule without generic parameters.
unfoldable pub root_type_name : List Rule → Option Text
unfolding display_identifier
root_type_name [] = none
root_type_name (Rule.type r ∷ rs) = elim r.generic_params [
  | none ↦ some (display_identifier r.name)
  | some ps ↦ root_type_name rs
]
root_type_name (Rule.group r ∷ rs) = root_type_name rs

-- ===== src/Parser/Reports/Collects.antt =====
-- src/parser.rs: the loop of `parse_cddl` over the rules of a text, and what its rounds parse.
use cddl.Prelude.{
  ℕ, zero, suc, ◌+◌, Bool, true, false, ◌&&◌, List, [], ◌∷◌, ◌++◌, is_empty, if◌then◌else◌, ◌≡◌,
  refl, sym, ◌∙◌, ◌⊎◌, inl, inr,
}
use cddl.Token.{Token}
use cddl.Lexer.State.{Externals}
use cddl.Ast.{Rule}
use cddl.Parser.State.{
  Parser, Parsed, ok, err, panic, out_of_fuel, parser, lexer, incremental, ◌>>=◌, ◌>>◌, pure,
  if_cur, cur_token_is, remaining, duplicate_rule_identifier, push_error,
}
use cddl.Parser.Calls.{Calls}
use cddl.Parser.Groups.{is_ident}
use cddl.Parser.Rules.{parse_rule}
use cddl.Parser.Cddl
use cddl.Parser.Cddl.{UnknownRule, register_rule}
use cddl.Parser.Reports.{Reports, AllReports, Extends-refl, if_at-Reports, push_error-Fails}
use cddl.Parser.Reports.Parts.{then_next-Reports}
use cddl.Parser.Reports.Types.{CallsReport}
use cddl.Parser.Reports.Explains.{
  Explains, Explains-weaken, bind-Explains, Extends-empty, Fails-empty, Fails-NonEmpty,
}
use cddl.Parser.Reports.Rules.{parse_rule-Reports}

-- The rule is added behind the rules, or put off behind the unknown rules.
abbrev pub IsGiven : Rule → List Rule → List UnknownRule → List Rule × List UnknownRule → Type 0
IsGiven r rules unknown (rules', unknown') =
    ((rules' ≡ rules ++ (r ∷ [])) × (unknown' ≡ unknown))
    ⊎ ((rules' ≡ rules) × ((u : UnknownRule) × (u.rule ≡ r) × (unknown' ≡ unknown ++ (u ∷ []))))

-- The rounds up to the end of the tokens: each one parses a rule that repeats no name, and either keeps
-- it or puts it off, and the next one begins where it ends. No round fails.
pub data Collects (x : Externals) (c : Calls x) (out : List Rule × List UnknownRule)
    (t : Parser x.MultiPeek) : List Rule → List UnknownRule → Parser x.MultiPeek → Type 0 where
  at_end : cur_token_is Token.eof t ≡ true → Collects x c out t out.0 out.1 t
  round :
      {rules : List Rule} {unknown : List UnknownRule} {p : Parser x.MultiPeek} (r : Rule)
      (q : Parser x.MultiPeek) (rules' : List Rule) (unknown' : List UnknownRule)
      (s : Parser x.MultiPeek)
      → cur_token_is Token.eof p ≡ false
      → parse_rule x c false p ≡ ok r q
      → Cddl.rule_exists rules r ≡ false
      → IsGiven r rules unknown (rules', unknown')
      → Cddl.add_rule x p.lexer_position.range.0 r rules unknown q ≡ ok (rules', unknown') s
      → Collects x c out t rules' unknown' s
      → Collects x c out t rules unknown p

module _ (x : Externals) where
  open x use {MultiPeek}

  advance_loop-Reports : (n : ℕ) → AllReports (Cddl.advance_loop x n)
  unfolding Cddl.advance_loop
  advance_loop-Reports zero p = tt
  advance_loop-Reports (suc n) p =
      then_next-Reports x _
        (λ q.
          if_at-Reports (is_ident q.cur_token && Cddl.peeks_assignment q.peek_token) q _ _
            (Extends-refl q)
            (if_at-Reports (cur_token_is Token.eof q) q _ _ (Extends-refl q)
              (advance_loop-Reports n q)))
        p

  advance_to_next_rule-Reports : AllReports (Cddl.advance_to_next_rule x)
  unfolding Cddl.advance_to_next_rule
  advance_to_next_rule-Reports p = advance_loop-Reports (remaining p.tokens + 4) p

  register_rule-errors : (r : Rule) (p : Parser MultiPeek) → (register_rule r p).errors ≡ p.errors
  unfolding register_rule
  register_rule-errors (Rule.type r) p = refl
  register_rule-errors (Rule.group r) p = refl

  module _ (begin : ℕ) (r : Rule) (rules : List Rule) (unknown : List UnknownRule)
      (p : Parser MultiPeek) where
    -- Where no error is left, there was none before, the rule repeats no name, and it is not lost.
    abbrev IsNew : List Rule × List UnknownRule → Parser MultiPeek → Type 0
    IsNew out s =
        s.errors ≡ []
        → (p.errors ≡ []) × (Cddl.rule_exists rules r ≡ false) × IsGiven r rules unknown out

    added-IsNew :
        (a b g : Bool) (u : UnknownRule)
        → Cddl.rule_exists rules r ≡ a
        → u.rule ≡ r
        → Explains IsNew (
            if a
            then ok (rules, unknown) (push_error duplicate_rule_identifier p)
            else if b
            then ok
                (rules ++ (r ∷ []), unknown)
                (record (register_rule r p) { is_guaranteed = false })
            else ok
                (rules, unknown ++ (u ∷ []))
                (Cddl.clear_unknown x (if g then register_rule r p else p)))
    added-IsNew true b g u e i =
        λ h. absurd (Fails-empty p _ (push_error-Fails duplicate_rule_identifier p) h)
    added-IsNew false true g u e i = λ h. (sym (register_rule-errors r p) ∙ h, e, inl (refl, refl))
    added-IsNew false false true u e i =
        λ h. (sym (register_rule-errors r p) ∙ h, e, inr (refl, (u, i, refl)))
    added-IsNew false false false u e i = λ h. (h, e, inr (refl, (u, i, refl)))

    add_rule-IsNew : Explains IsNew (Cddl.add_rule x begin r rules unknown p)
    unfolding Cddl.add_rule
    add_rule-IsNew =
        added-IsNew (Cddl.rule_exists rules r) (is_empty p.unknown_rule_idents) p.is_guaranteed _
          refl refl

module _ (x : Externals) (c : Calls x) where
  open x use {MultiPeek}

  -- An outcome without errors comes from rounds that do not fail, and from a parser without errors.
  abbrev pub IsClean :
      List Rule
      → List UnknownRule
      → Parser MultiPeek
      → List Rule × List UnknownRule
      → Parser MultiPeek
      → Type 0
  IsClean rules unknown p out t =
      t.errors ≡ [] → (p.errors ≡ []) × Collects x c out t rules unknown p

  module _ (h : CallsReport x c) (n : ℕ)
      (loop : (rules : List Rule) (unknown : List UnknownRule) (p : Parser MultiPeek)
        → Explains (IsClean rules unknown p) (Cddl.rule_loop x c n rules unknown p))
      (rules : List Rule) (unknown : List UnknownRule) (p : Parser MultiPeek)
      (more : cur_token_is Token.eof p ≡ false) where
    -- What follows the parse of a rule.
    rule-IsClean :
        (r : Parsed MultiPeek Rule)
        → parse_rule x c false p ≡ r
        → Reports p r
        → Explains
            (IsClean rules unknown p)
            (elim r as (λ v. Parsed MultiPeek (List Rule × List UnknownRule)) [
              | ok r q ↦
                  (do
                    (rules', unknown') ← Cddl.add_rule x p.lexer_position.range.0 r rules unknown
                    Cddl.rule_loop x c n rules' unknown')
                    q
              | err incremental q ↦
                  (if_cur Token.eof (pure tt) (Cddl.advance_to_next_rule x)
                      >> Cddl.rule_loop x c n rules unknown)
                    q
              | err e q ↦ err e q
              | panic ↦ panic
              | out_of_fuel ↦ out_of_fuel
            ])
    rule-IsClean (ok r q) parsed k =
        bind-Explains (IsNew x p.lexer_position.range.0 r rules unknown q) (IsClean rules unknown p)
          (Cddl.add_rule x p.lexer_position.range.0 r rules unknown q) _
          (add_rule-IsNew x p.lexer_position.range.0 r rules unknown q)
          (λ (rules', unknown') s e new.
            Explains-weaken (IsClean rules' unknown' s) (IsClean rules unknown p) _
              (λ out t k' none.
                let (clean, rest) = k' none in
                let (before, fresh, given) = new clean in
                (
                  Extends-empty p q k before,
                  round r q rules' unknown' s more parsed fresh given e rest,
                ))
              (loop rules' unknown' s))
    rule-IsClean (err incremental q) parsed k =
        bind-Explains (λ u s. s.errors ≡ [] → q.errors ≡ []) (IsClean rules unknown p) _ _
          (skipped (if_cur Token.eof (pure tt) (Cddl.advance_to_next_rule x) q) (
            if_at-Reports (cur_token_is Token.eof q) q _ _ (Extends-refl q)
              (advance_to_next_rule-Reports x q)))
          (λ u s e before.
            Explains-weaken (IsClean rules unknown s) (IsClean rules unknown p) _
              (λ out t k' none. absurd (Fails-empty p q k (before ((k' none).0))))
              (loop rules unknown s))
      where
        skipped :
            (r : Parsed MultiPeek (Unit {0}))
            → Reports q r
            → Explains (λ u s. s.errors ≡ [] → q.errors ≡ []) r
        skipped (ok u s) l = Extends-empty q s l
        skipped (err incremental s) l = Fails-NonEmpty q s l
        skipped (err (parser msg) s) l = tt
        skipped (err (lexer e) s) l = tt
        skipped panic l = tt
        skipped out_of_fuel l = tt
    rule-IsClean (err (parser msg) q) parsed k = tt
    rule-IsClean (err (lexer e) q) parsed k = tt
    rule-IsClean panic parsed k = tt
    rule-IsClean out_of_fuel parsed k = tt

  looped-IsClean :
      (b : Bool) (rules : List Rule) (unknown : List UnknownRule) (p : Parser MultiPeek)
      (r : Parsed MultiPeek (List Rule × List UnknownRule))
      → cur_token_is Token.eof p ≡ b
      → (cur_token_is Token.eof p ≡ false → Explains (IsClean rules unknown p) r)
      → Explains (IsClean rules unknown p) (if b then ok (rules, unknown) p else r)
  looped-IsClean true rules unknown p r e h = λ none. (none, at_end e)
  looped-IsClean false rules unknown p r e h = h e

  pub rule_loop-IsClean :
      CallsReport x c
      → (n : ℕ) (rules : List Rule) (unknown : List UnknownRule) (p : Parser MultiPeek)
      → Explains (IsClean rules unknown p) (Cddl.rule_loop x c n rules unknown p)
  unfolding Cddl.rule_loop
  rule_loop-IsClean h zero rules unknown p = tt
  rule_loop-IsClean h (suc n) rules unknown p =
      looped-IsClean (cur_token_is Token.eof p) rules unknown p _ refl (λ more.
        rule-IsClean h n (rule_loop-IsClean h n) rules unknown p more (parse_rule x c false p) refl
          (parse_rule-Reports x c h false p))

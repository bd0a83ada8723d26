-- ===== src/Parser/Placed/Loops.antt =====
-- src/parser.rs: what the loops of `parse_cddl` keep of the rules and of their places.
use cddl.Prelude.{
  ℕ, zero, suc, ◌≤◌, Bool, true, false, none, List, [], ◌∷◌, ◌++◌, ◌≡◌, ◌≢◌, refl, arith, is_empty,
  length, length-append, if◌then◌else◌,
}
use cddl.Token.{Token}
use cddl.Lexer.State.{Externals}
use cddl.Ast.{Rule}
use cddl.Parser.State.{
  Parser, Parsed, ok, err, panic, out_of_fuel, Error, parser, lexer, incremental, ◌>>=◌, ◌>>◌, pure,
  cur_token_is, if_cur, Cmd,
}
use cddl.Parser.Calls.{Calls}
use cddl.Parser.Rules.{parse_rule}
use cddl.Parser.Cddl
use cddl.Parser.Cddl.{
  UnknownRule, Resolution, resolved, unresolved, Pass, rule_exists, register_rule,
}
use cddl.Parser.Yields.{Yields, Yields-ok, bind-Yields, after-Yields, if-Yields}
use cddl.Parser.Placed.{
  Distinct, no_rules, one_more, rule_exists-IsNew, KnownWithin, UnknownWithin, UnknownWithin-weaken,
  UnknownWithin-append, UnknownWithin-reverse, KnownWithin-append, KnownWithin-sort_known,
  insert_all-total,
}

-- The rules and the unknown rules that were collected.
abbrev IsGathered : List Rule × List UnknownRule → Type 0
IsGathered (rules, unknown) = Distinct rules × UnknownWithin (length rules) unknown

module _ (x : Externals) where
  open x use {MultiPeek}

  added :
      (a b : Bool) (begin : ℕ) (r : Rule) (rules : List Rule) (unknown : List UnknownRule)
      (p q s : Parser MultiPeek) (end : ℕ)
      → rule_exists rules r ≡ a
      → IsGathered (rules, unknown)
      → Yields IsGathered (
          if a
          then ok (rules, unknown) p
          else (if b
              then ok (rules ++ (r ∷ []), unknown) q
              else ok
                  (
                    rules,
                    unknown
                        ++ (record { rule = r; index = length rules; range = (begin, end) } ∷ []),
                  )
                  s))
  added true b begin r rules unknown p q s end e h = h
  added false true begin r rules unknown p q s end e (d, u) = (
    one_more rules r d (rule_exists-IsNew rules r e),
    UnknownWithin-weaken (length rules) (length (rules ++ (r ∷ []))) unknown
        (omega (arith, length-append rules (r ∷ []))) u,
  )
  added false false begin r rules unknown p q s end e (d, u) =
      (d, UnknownWithin-append (length rules) unknown (_ ∷ []) u (omega arith, tt))

  add_rule-IsGathered :
      (begin : ℕ) (r : Rule) (rules : List Rule) (unknown : List UnknownRule) (p : Parser MultiPeek)
      → IsGathered (rules, unknown)
      → Yields IsGathered (Cddl.add_rule x begin r rules unknown p)
  unfolding Cddl.add_rule
  add_rule-IsGathered begin r rules unknown p h =
      added (rule_exists rules r) (is_empty p.unknown_rule_idents) begin r rules unknown _ _ _
        p.lexer_position.range.1 refl h

module _ (x : Externals) (c : Calls x) where
  open x use {MultiPeek}

  parsed-IsGathered :
      (n begin : ℕ) (rules : List Rule) (unknown : List UnknownRule) (r : Parsed MultiPeek Rule)
      → IsGathered (rules, unknown)
      → ((rules : List Rule) (unknown : List UnknownRule) (q : Parser MultiPeek)
          → IsGathered (rules, unknown)
          → Yields IsGathered (Cddl.rule_loop x c n rules unknown q))
      → Yields IsGathered (elim r as (λ v. Parsed MultiPeek (List Rule × List UnknownRule)) [
        | ok r q ↦
            (do
              (rules', unknown') ← Cddl.add_rule x begin r rules unknown
              Cddl.rule_loop x c n rules' unknown')
              q
        | err incremental q ↦
            (if_cur Token.eof (pure tt) (Cddl.advance_to_next_rule x)
                >> Cddl.rule_loop x c n rules unknown)
              q
        | err e q ↦ err e q
        | panic ↦ panic
        | out_of_fuel ↦ out_of_fuel
      ])
  parsed-IsGathered n begin rules unknown (ok r q) h f =
      bind-Yields IsGathered IsGathered (Cddl.add_rule x begin r rules unknown q) _
        (add_rule-IsGathered x begin r rules unknown q h)
        (λ (rules', unknown') k s. f rules' unknown' s k)
  parsed-IsGathered n begin rules unknown (err incremental q) h f =
      after-Yields IsGathered (if_cur Token.eof (pure tt) (Cddl.advance_to_next_rule x) q) _
        (λ u s. f rules unknown s h)
  parsed-IsGathered n begin rules unknown (err (parser msg) q) h f = tt
  parsed-IsGathered n begin rules unknown (err (lexer e) q) h f = tt
  parsed-IsGathered n begin rules unknown panic h f = tt
  parsed-IsGathered n begin rules unknown out_of_fuel h f = tt

  rule_loop-IsGathered :
      (n : ℕ) (rules : List Rule) (unknown : List UnknownRule) (p : Parser MultiPeek)
      → IsGathered (rules, unknown)
      → Yields IsGathered (Cddl.rule_loop x c n rules unknown p)
  unfolding Cddl.rule_loop
  rule_loop-IsGathered zero rules unknown p h = tt
  rule_loop-IsGathered (suc n) rules unknown p h =
      if-Yields IsGathered (cur_token_is Token.eof p) _ _ h (
        parsed-IsGathered n p.lexer_position.range.0 rules unknown (parse_rule x c false p) h
          (rule_loop-IsGathered n))

  -- The second attempt, where the first did not succeed.
  abbrev retry : UnknownRule → Resolution → Cmd x Resolution
  retry u first = elim first [
    | resolved r ↦ pure (resolved r)
    | unresolved es ↦ Cddl.resolve_rule x c u.range true
  ]

  -- A pass keeps to the places of the rules that it is given.
  abbrev PassWithin : ℕ → Pass → Type 0
  PassWithin m s = KnownWithin m s.resolved_rules × UnknownWithin m s.unresolved_rules

  passed :
      (m : ℕ) (u : UnknownRule) (last : Resolution) (rest : Pass)
      → u.index ≤ m
      → PassWithin m rest
      → PassWithin m (elim last [
        | resolved r ↦ Cddl.pass_resolved u r rest
        | unresolved es ↦ Cddl.pass_unresolved u es rest
      ])
  passed m u (resolved r) rest a (k, h) = ((a, k), h)
  passed m u (unresolved es) rest a (k, h) = (k, (a, h))

  resolve_pass-PassWithin :
      (m : ℕ) (us : List UnknownRule) (p : Parser MultiPeek)
      → UnknownWithin m us
      → Yields (PassWithin m) (Cddl.resolve_pass x c us p)
  unfolding Cddl.resolve_pass
  resolve_pass-PassWithin m [] p h = (tt, tt)
  resolve_pass-PassWithin m (u ∷ us) p (a, h) =
      after-Yields (PassWithin m) (Cddl.resolve_rule x c u.range false p) _ (λ first q.
        after-Yields (PassWithin m) (retry u first q) _ (λ last r.
          bind-Yields (PassWithin m) (PassWithin m) (Cddl.resolve_pass x c us r) _
            (resolve_pass-PassWithin m us r h) (λ rest k s. passed m u last rest a k)))

  abbrev ResolvedWithin : ℕ → List (ℕ × Rule) × List Error → Type 0
  ResolvedWithin m (known, errors) = KnownWithin m known

  looped-ResolvedWithin :
      (m n : ℕ) (b : Bool) (pass : Pass) (known : List (ℕ × Rule)) (q : Parser MultiPeek)
      → KnownWithin m known
      → Yields (ResolvedWithin m) (
          Cddl.resolve_loop x c n pass.unresolved_rules
            (known ++ pass.resolved_rules)
            (Cddl.register_all x pass.resolved_rules q))
      → Yields (ResolvedWithin m) (
          (if b then pure (known, pass.pass_errors) else (λ q.
              Cddl.resolve_loop x c n pass.unresolved_rules
                (known ++ pass.resolved_rules)
                (Cddl.register_all x pass.resolved_rules q)))
            q)
  looped-ResolvedWithin m n true pass known q k h = k
  looped-ResolvedWithin m n false pass known q k h = h

  resolve_loop-ResolvedWithin :
      (m n : ℕ) (us : List UnknownRule) (known : List (ℕ × Rule)) (p : Parser MultiPeek)
      → UnknownWithin m us
      → KnownWithin m known
      → Yields (ResolvedWithin m) (Cddl.resolve_loop x c n us known p)
  unfolding Cddl.resolve_loop
  resolve_loop-ResolvedWithin m zero us known p h k = tt
  resolve_loop-ResolvedWithin m (suc n) us known p h k =
      bind-Yields (PassWithin m) (ResolvedWithin m) (Cddl.resolve_pass x c us p) _
        (resolve_pass-PassWithin m us p h)
        (λ pass (a, b) q. looped-ResolvedWithin m n (is_empty pass.resolved_rules) pass known q k (
          resolve_loop-ResolvedWithin m n pass.unresolved_rules (known ++ pass.resolved_rules)
            (Cddl.register_all x pass.resolved_rules q) b
            (KnownWithin-append m known pass.resolved_rules k a)))

  -- With any calls for the parts of a rule and at any fuel, of the rules that the loop of `parse_cddl`
  -- collects, and does not put off as unknown, each one that is no alternate has another name than the
  -- rules in front of it.
  pub rule_loop-Distinct :
      (n : ℕ) (p q : Parser MultiPeek) (rules : List Rule) (unknown : List UnknownRule)
      → Cddl.rule_loop x c n [] [] p ≡ ok (rules, unknown) q
      → Distinct rules
  rule_loop-Distinct n p q rules unknown e =
      (Yields-ok IsGathered (Cddl.rule_loop x c n [] [] p) (rules, unknown) q
        (rule_loop-IsGathered n [] [] p (no_rules, tt)) e).0

  -- With any calls for the parts of a rule and at any fuel, where the loop of `parse_cddl` returns rules
  -- and unknown rules, and the passes over these in reverse return the rules that they resolved, all of
  -- these have a place: the insertions in the order of their places are not out of range.
  pub resolve_loop-insert_all :
      (n m : ℕ) (p q r s : Parser MultiPeek) (rules : List Rule) (unknown : List UnknownRule)
      (known : List (ℕ × Rule)) (errors : List Error)
      → Cddl.rule_loop x c n [] [] p ≡ ok (rules, unknown) q
      → Cddl.resolve_loop x c m (Cddl.reverse unknown) [] r ≡ ok (known, errors) s
      → Cddl.insert_all (Cddl.sort_known known) rules ≢ none
  resolve_loop-insert_all n m p q r s rules unknown known errors e d =
      let (distinct, within) =
        Yields-ok IsGathered (Cddl.rule_loop x c n [] [] p) (rules, unknown) q
          (rule_loop-IsGathered n [] [] p (no_rules, tt)) e in
      insert_all-total (Cddl.sort_known known) rules (
        KnownWithin-sort_known (length rules) known (
          Yields-ok (ResolvedWithin (length rules))
            (Cddl.resolve_loop x c m (Cddl.reverse unknown) [] r) (known, errors) s
            (resolve_loop-ResolvedWithin (length rules) m (Cddl.reverse unknown) [] r
              (UnknownWithin-reverse (length rules) unknown within) tt)
            d))

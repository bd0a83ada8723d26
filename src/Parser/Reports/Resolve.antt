-- ===== src/Parser/Reports/Resolve.antt =====
-- src/parser.rs: the loop of `parse_cddl` that parses rules again keeps the errors of the parser, and
-- gives an error for every rule that it does not resolve.
use cddl.Prelude.{
  ℕ, zero, suc, Bool, true, false, Option, none, some, List, [], ◌∷◌, ◌++◌, Text, is_empty,
  if◌then◌else◌, ◌≡◌, refl, ◌∙◌, ◌+◌, length, length-append, arith, ap,
}
use cddl.Lexer.Chars.{slice}
use cddl.Lexer.State.{Externals, lexer_new}
use cddl.Ast.{Rule}
use cddl.Parser.State.{
  Parser, Parsed, ok, err, panic, out_of_fuel, lexing, pure, Cmd, parser_new, Error,
}
use cddl.Parser.Calls.{Calls}
use cddl.Parser.Rules.{parse_rule}
use cddl.Parser.Cddl
use cddl.Parser.Cddl.{UnknownRule, Resolution, resolved, unresolved, Pass, register_rule}
use cddl.Parser.Reports.{NonEmpty}
use cddl.Parser.Reports.Explains.{Explains, Explains-weaken, bind-Explains}

-- A second parse keeps the errors, and what it does not resolve has a reason.
abbrev IsAttempt : {M : Type 0} → Parser M → Resolution → Parser M → Type 0
IsAttempt p (resolved r) q = q.errors ≡ p.errors
IsAttempt p (unresolved es) q = (q.errors ≡ p.errors) × NonEmpty es

-- A pass over the rules `us` keeps the errors, and sorts the rules into those resolved and the others,
-- of which there are none where there are no errors.
abbrev IsPass : {M : Type 0} → List UnknownRule → Parser M → Pass → Parser M → Type 0
IsPass us p s q =
    (q.errors ≡ p.errors)
    × (length s.resolved_rules + length s.unresolved_rules ≡ length us)
    × (s.pass_errors ≡ [] → s.unresolved_rules ≡ [])

-- The passes keep the errors, and where they end without an error all the rules are resolved.
abbrev pub IsResolved :
    {M : Type 0}
    → List UnknownRule
    → List (ℕ × Rule)
    → Parser M
    → List (ℕ × Rule) × List Error
    → Parser M
    → Type 0
IsResolved us known p (known', es) q =
    (q.errors ≡ p.errors) × (es ≡ [] → length known' ≡ length known + length us)

IsPass-resolved :
    {M : Type 0} (u : UnknownRule) (r : Rule) (us : List UnknownRule) (p q t : Parser M)
    (rest : Pass)
    → q.errors ≡ p.errors
    → IsPass us q rest t
    → IsPass (u ∷ us) p (Cddl.pass_resolved u r rest) t
IsPass-resolved u r us p q t rest h (k, n, e) = (k ∙ h, omega (arith, n), e)

IsPass-unresolved :
    {M : Type 0} (u : UnknownRule) (es : List Error) (us : List UnknownRule) (p q t : Parser M)
    (rest : Pass)
    → (q.errors ≡ p.errors) × NonEmpty es
    → IsPass us q rest t
    → IsPass (u ∷ us) p (Cddl.pass_unresolved u es rest) t
IsPass-unresolved u [] us p q t rest (h, m) k = absurd m
IsPass-unresolved u (e ∷ es) us p q t rest (h, m) (k, n, i) = (k ∙ h, omega (arith, n), λ a. cc)

module _ (x : Externals) (c : Calls x) where
  open x use {MultiPeek}

  -- A call that does not end in an error.
  reparsed-Explains :
      (r : Parsed MultiPeek Rule) (p : Parser MultiPeek)
      → Explains (IsAttempt p) (elim r as (λ v. Parsed MultiPeek Resolution) [
        | ok rule r ↦
            ok
              (if is_empty r.unknown_rule_idents
                then resolved rule
                else unresolved (Cddl.missing_definitions r.unknown_rule_idents))
              p
        | err e r ↦ ok (unresolved (e ∷ [])) p
        | panic ↦ panic
        | out_of_fuel ↦ out_of_fuel
      ])
  reparsed-Explains (ok rule r) p = judged r.unknown_rule_idents
    where
      judged :
          (is : List Text)
          → Explains (IsAttempt p) (
              ok
                (if is_empty is then resolved rule else unresolved (Cddl.missing_definitions is))
                p)
      judged [] = refl
      judged (i ∷ is) = (refl, tt)
  reparsed-Explains (err e r) p = (refl, tt)
  reparsed-Explains panic p = tt
  reparsed-Explains out_of_fuel p = tt

  started-Explains :
      (r : Parsed MultiPeek (Unit {0})) (b : Bool) (p : Parser MultiPeek)
      → Explains (IsAttempt p) (elim r as (λ v. Parsed MultiPeek Resolution) [
        | ok u q ↦
            elim (parse_rule x c b
              (record q { groupnames = p.groupnames; typenames = p.typenames })) [
                | ok rule r ↦
                    ok
                      (if is_empty r.unknown_rule_idents
                        then resolved rule
                        else unresolved (Cddl.missing_definitions r.unknown_rule_idents))
                      p
                | err e r ↦ ok (unresolved (e ∷ [])) p
                | panic ↦ panic
                | out_of_fuel ↦ out_of_fuel
              ]
        | err e q ↦ ok (unresolved (e ∷ [])) p
        | panic ↦ panic
        | out_of_fuel ↦ out_of_fuel
      ])
  started-Explains (ok u q) b p =
      reparsed-Explains
        (parse_rule x c b (record q { groupnames = p.groupnames; typenames = p.typenames })) p
  started-Explains (err e q) b p = (refl, tt)
  started-Explains panic b p = tt
  started-Explains out_of_fuel b p = tt

  sliced-Explains :
      (o : Option Text) (b : Bool) (p : Parser MultiPeek)
      → Explains (IsAttempt p) (elim o as (λ v. Parsed MultiPeek Resolution) [
        | none ↦ panic
        | some s ↦ elim (parser_new x p.str_input (lexing (lexer_new x s))) [
          | ok u q ↦
              elim (parse_rule x c b
                (record q { groupnames = p.groupnames; typenames = p.typenames })) [
                  | ok rule r ↦
                      ok
                        (if is_empty r.unknown_rule_idents
                          then resolved rule
                          else unresolved (Cddl.missing_definitions r.unknown_rule_idents))
                        p
                  | err e r ↦ ok (unresolved (e ∷ [])) p
                  | panic ↦ panic
                  | out_of_fuel ↦ out_of_fuel
                ]
          | err e q ↦ ok (unresolved (e ∷ [])) p
          | panic ↦ panic
          | out_of_fuel ↦ out_of_fuel
        ]
      ])
  sliced-Explains none b p = tt
  sliced-Explains (some s) b p =
      started-Explains (parser_new x p.str_input (lexing (lexer_new x s))) b p

  resolve_rule-Explains :
      (range : ℕ × ℕ) (b : Bool) (p : Parser MultiPeek)
      → Explains (IsAttempt p) (Cddl.resolve_rule x c range b p)
  unfolding Cddl.resolve_rule
  resolve_rule-Explains (begin, end) b p = sliced-Explains (slice p.str_input begin end) b p

  -- The second attempt, where the first did not succeed.
  retried-Explains :
      (u : UnknownRule) (first : Resolution) (p : Parser MultiPeek)
      → Explains (IsAttempt p) (
          (elim first as (λ v. Cmd x Resolution) [
            | resolved r ↦ pure (resolved r)
            | unresolved es ↦ Cddl.resolve_rule x c u.range true
          ])
            p)
  retried-Explains u (resolved r) p = refl
  retried-Explains u (unresolved es) p = resolve_rule-Explains u.range true p

  resolve_pass-Explains :
      (us : List UnknownRule) (p : Parser MultiPeek)
      → Explains (IsPass us p) (Cddl.resolve_pass x c us p)
  unfolding Cddl.resolve_pass
  resolve_pass-Explains [] p = (refl, refl, λ h. refl)
  resolve_pass-Explains (u ∷ us) p =
      bind-Explains (IsAttempt p) (IsPass (u ∷ us) p) (Cddl.resolve_rule x c u.range false p) _
        (resolve_rule-Explains u.range false p)
        (λ first q e h.
          bind-Explains (IsAttempt q) (IsPass (u ∷ us) p) _ _ (retried-Explains u first q)
            (λ last r d k.
              bind-Explains (IsPass us r) (IsPass (u ∷ us) p) (Cddl.resolve_pass x c us r) _
                (resolve_pass-Explains us r)
                (λ rest s b l. sorted last q r rest s (attempted first q p h) k l)))
    where
      attempted :
          (res : Resolution) (q p : Parser MultiPeek) → IsAttempt p res q → q.errors ≡ p.errors
      attempted (resolved r) q p h = h
      attempted (unresolved es) q p (h, n) = h

      sorted :
          (last : Resolution) (q r : Parser MultiPeek) (rest : Pass) (s : Parser MultiPeek)
          → q.errors ≡ p.errors
          → IsAttempt q last r
          → IsPass us r rest s
          → IsPass
              (u ∷ us)
              p
              (elim last as (λ v. Pass) [
                | resolved r ↦ Cddl.pass_resolved u r rest
                | unresolved es ↦ Cddl.pass_unresolved u es rest
              ])
              s
      sorted (resolved a) q r rest s h k l = IsPass-resolved u a us p r s rest (k ∙ h) l
      sorted (unresolved es) q r rest s h (k, n) l =
          IsPass-unresolved u es us p r s rest (k ∙ h, n) l

  register_all-errors :
      (rs : List (ℕ × Rule)) (p : Parser MultiPeek) → (Cddl.register_all x rs p).errors ≡ p.errors
  unfolding Cddl.register_all register_rule
  register_all-errors [] p = refl
  register_all-errors ((i, Rule.type r) ∷ rs) p = register_all-errors rs _
  register_all-errors ((i, Rule.group r) ∷ rs) p = register_all-errors rs _

  pub resolve_loop-Explains :
      (n : ℕ) (us : List UnknownRule) (known : List (ℕ × Rule)) (p : Parser MultiPeek)
      → Explains (IsResolved us known p) (Cddl.resolve_loop x c n us known p)
  unfolding Cddl.resolve_loop
  resolve_loop-Explains zero us known p = tt
  resolve_loop-Explains (suc n) us known p =
      bind-Explains (IsPass us p) (IsResolved us known p) (Cddl.resolve_pass x c us p) _
        (resolve_pass-Explains us p)
        (λ pass q e h. once pass.resolved_rules pass.pass_errors pass.unresolved_rules q h (
          resolve_loop-Explains n pass.unresolved_rules (known ++ pass.resolved_rules)
            (Cddl.register_all x pass.resolved_rules q)))
    where
      once :
          (rs : List (ℕ × Rule)) (es : List Error) (vs : List UnknownRule) (q : Parser MultiPeek)
          → IsPass us p (record { resolved_rules = rs; pass_errors = es; unresolved_rules = vs }) q
          → Explains
              (IsResolved vs (known ++ rs) (Cddl.register_all x rs q))
              (Cddl.resolve_loop x c n vs (known ++ rs) (Cddl.register_all x rs q))
          → Explains (IsResolved us known p) (
              (if is_empty rs
                  then pure (known, es)
                  else (λ q. Cddl.resolve_loop x c n vs (known ++ rs) (Cddl.register_all x rs q)))
                q)
      once [] es vs q (h, k, i) l = (h, λ none. omega (arith, k, ap length (i none)))
      once (r ∷ rs) es vs q (h, k, i) l =
          Explains-weaken (IsResolved vs (known ++ r ∷ rs) (Cddl.register_all x (r ∷ rs) q))
            (IsResolved us known p) _
            (λ (ks, fs) s (m, j). (
              m ∙ (register_all-errors (r ∷ rs) q ∙ h),
              λ none. omega (arith, k, j none, length-append known (r ∷ rs)),
            ))
            l

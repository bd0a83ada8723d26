-- ===== src/Tests/Cycle.antt =====
-- The grammar  a = a.
use cddl.Prelude.{true, List, [], ◌∷◌, ◌≡◌, ◌≢◌, refl, subst, sym, In, first, codes}
use cddl.Prelude.Fuel.{out_of_fuel}
use cddl.Token.Lookup.{lookup_ident}
use cddl.Ast.{
  Identifier, identifier_eq, display_identifier, type1, typename, no_generic_args, no_operator,
  no_type_choices, type_choice, type_choices, TypeRule, Rule,
}
use cddl.Validator.DataTypes.{ident_has_type, is_uint_token}
use cddl.Validator.DataTypes.Refers.{Refers, Reaches, here, via}
use cddl.Validator.DataTypes.Search.{ident_has_type_diverges}
use cddl.Tests.Grammar.{name, refer, type_rule, In-one}

abbrev rule_self : TypeRule
rule_self = type_rule "a" (type_choice (refer "a") no_type_choices)

abbrev cycle : List Rule
cycle = Rule.type rule_self ∷ []

abbrev IsA : Identifier → Type 0
IsA j = j ≡ name "a"

Refers-IsA : (j k : Identifier) → Refers cycle j k → IsA k
Refers-IsA j k r = choice_a r.rule (cc (In-one r.listed)) r.choice
  where
    choice_a :
        (q : TypeRule)
        → q ≡ rule_self
        → In (type1 (typename k r.args) r.op) (type_choices q.value)
        → IsA k
    choice_a q e m = cc (
        In-one (
          subst (λ q. In (type1 (typename k r.args) r.op) (type_choices (q.value))) {x = q}
            {y = rule_self} e m))

self : (j : Identifier) → IsA j → (k : Identifier) × Refers cycle j k × IsA k
unfolding identifier_eq display_identifier
self j e = (
  name "a",
  subst (λ i. Refers cycle i (name "a")) (sym e)
      (record {
        rule = rule_self;
        args = no_generic_args;
        op = no_operator;
        listed = first;
        named = refl;
        choice = first;
      }),
  refl,
)

a_test : is_uint_token (lookup_ident (codes "a")) ≢ true
unfolding lookup_ident
a_test = cc

never : (j : Identifier) → IsA j → ¬ (Reaches is_uint_token cycle j)
never j e (here h) =
    a_test (subst (λ i. is_uint_token (lookup_ident (i.ident)) ≡ true) {x = j} {y = name "a"} e h)
never j e (via {j = k} r q) = never k (Refers-IsA j k r) q

ident_has_type_diverges_example : ident_has_type is_uint_token cycle 1000 (name "a") ≡ out_of_fuel
ident_has_type_diverges_example =
    ident_has_type_diverges is_uint_token cycle IsA 1000 (name "a") refl self never

-- ===== src/Validator/Control/Named.antt =====
-- src/validator/control.rs: the literals behind the name of an operand.
use cddl.Prelude.{
  ℕ, is_empty, if◌then◌else◌, ◌<◌, Bool, true, Option, none, some, List, [], ◌∷◌, ◌≡◌, first, subst,
  sym, head?,
}
use cddl.Prelude.Fuel.{Run, done}
use cddl.Prelude.Reply.{refused, run, gather, ◌>>=◌}
use cddl.Prelude.Reply.Laws.{Concludes, Concludes-bind, Each, gather-Concludes}
use cddl.Ast.{Identifier, Type2, Rule}
use cddl.Validator.DataTypes.Refers.{IsRanked}
use cddl.Validator.Literals.{
  is_string_literal, is_number, string_literals_from_ident, numeric_values_from_ident,
}
use cddl.Validator.Literals.Laws.{HasLiteral, own, referred, Collects, literals_from_ident-Collects}
use cddl.Validator.Control.{ControlError, Literals, or_refuse, each_named}

pub or_refuse-Concludes :
    {A : Type 0} (Q : Type 0) (e : ControlError) (o : Option A)
    → Concludes Q (λ a. Unit {0}) (or_refuse e o)
or_refuse-Concludes Q e none = tt
or_refuse-Concludes Q e (some a) = tt

HasLiteral-kept :
    {keep : Type2 → Bool} {rules : List Rule} {t : Type2} {i : Identifier}
    → HasLiteral keep rules t i
    → keep t ≡ true
HasLiteral-kept (own a b c k) = k
HasLiteral-kept (referred r h) = HasLiteral-kept h

run-Concludes :
    {keep : Type2 → Bool} {rules : List Rule} {i : Identifier} (Q : Type 0) (r : Run (List Type2))
    → Collects r (λ t. HasLiteral keep rules t i)
    → Concludes {E = ControlError} Q (Each (λ t. keep t ≡ true)) (run r)
run-Concludes {keep = keep} Q r (ts, e, k) =
    subst (λ r. Concludes {E = ControlError} Q (Each (λ t. keep t ≡ true)) (run r)) {x = done ts}
      {y = r} (sym e) (λ t m. HasLiteral-kept ((k t).0 m))

module _ (Q : Type 0) (rules : List Rule) (rank : Identifier → ℕ) (ranked : IsRanked rules rank)
    (f : ℕ) (i : Identifier) (low : rank i < f) where
  pub string_literals-Concludes :
      Concludes {E = ControlError} Q
        (Each (λ t. is_string_literal t ≡ true))
        (run (string_literals_from_ident rules f i))
  string_literals-Concludes =
      run-Concludes Q (string_literals_from_ident rules f i)
        (literals_from_ident-Collects rules rank f i ranked low).0

  pub numeric_values-Concludes :
      Concludes {E = ControlError} Q
        (Each (λ t. is_number t ≡ true))
        (run (numeric_values_from_ident rules f i))
  numeric_values-Concludes =
      run-Concludes Q (numeric_values_from_ident rules f i)
        (literals_from_ident-Collects rules rank f i ranked low).1

module _ (Q : Type 0) (P R : Type2 → Type 0) (f : Type2 → Literals)
    (k : (t : Type2) → P t → Concludes Q (Each R) (f t)) where
  -- A loop over the literals behind a controller's name.
  pub each_named-Concludes :
      (e : ControlError) (r : Run (List Type2))
      → Concludes {E = ControlError} Q (Each P) (run r)
      → Concludes Q (Each R) (each_named e f r)
  each_named-Concludes e r h = Concludes-bind Q (Each P) (Each R) (run r) _ h (λ ts a. listed ts a)
    where
      listed :
          (ts : List Type2)
          → Each P ts
          → Concludes Q (Each R) (if is_empty ts then refused e else gather f ts)
      listed [] a = tt
      listed (t ∷ ts) a = gather-Concludes Q R f (t ∷ ts) (λ u m. k u (a u m))

  -- The first literal behind a target's name.
  pub first_named-Concludes :
      (e : ControlError) (r : Run (List Type2))
      → Concludes {E = ControlError} Q (Each P) (run r)
      → Concludes Q (Each R) (run r >>= (λ ts. elim (head? ts) [ some t ↦ f t | none ↦ refused e ]))
  first_named-Concludes e r h = Concludes-bind Q (Each P) (Each R) (run r) _ h (λ ts a. listed ts a)
    where
      listed :
          (ts : List Type2)
          → Each P ts
          → Concludes Q (Each R) (elim (head? ts) [ some t ↦ f t | none ↦ refused e ])
      listed [] a = tt
      listed (t ∷ ts) a = k t (a t first)

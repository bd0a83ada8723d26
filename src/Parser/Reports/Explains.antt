-- ===== src/Parser/Reports/Explains.antt =====
-- src/parser.rs: outcomes whose errors are explained by messages.
use cddl.Prelude.{List, [], ◌∷◌, ◌++◌, ◌≡◌, refl, sym, subst, ◌∙◌}
use cddl.Parser.State.{
  Parser, Parsed, ok, err, panic, out_of_fuel, parser, lexer, incremental, and_then, Error,
}
use cddl.Parser.Reports.{NonEmpty, NonEmpty-later, Reports, Extends, Fails}

-- Errors that are none were none before.
pub sooner_empty : (es fs : List Error) → es ++ fs ≡ [] → es ≡ []
sooner_empty [] fs h = refl
sooner_empty (e ∷ es) fs h = cc

pub later_empty : (es fs : List Error) → es ++ fs ≡ [] → fs ≡ []
later_empty [] fs h = h
later_empty (e ∷ es) fs h = cc

module _ {M : Type 0} where
  -- The outcome of a call: an error `INCREMENTAL` has its messages, and a value has the property.
  abbrev pub Explains : {A : Type 0} → (A → Parser M → Type 0) → Parsed M A → Type 0
  Explains P (ok a q) = P a q
  Explains P (err incremental q) = NonEmpty q.errors
  Explains P (err (parser msg) q) = Unit
  Explains P (err (lexer e) q) = Unit
  Explains P panic = Unit
  Explains P out_of_fuel = Unit

  abbrev pub Anything : {A : Type 0} → A → Parser M → Type 0
  Anything a q = Unit

  pub Fails-NonEmpty : (p q : Parser M) → Fails p q → NonEmpty q.errors
  Fails-NonEmpty p q (es, (a, n)) = subst NonEmpty (sym a.appends) (NonEmpty-later p.errors es n)

  module _ {A : Type 0} where
    pub Reports-Explains : (p : Parser M) (r : Parsed M A) → Reports p r → Explains Anything r
    Reports-Explains p (ok a q) h = tt
    Reports-Explains p (err incremental q) h = Fails-NonEmpty p q h
    Reports-Explains p (err (parser msg) q) h = tt
    Reports-Explains p (err (lexer e) q) h = tt
    Reports-Explains p panic h = tt
    Reports-Explains p out_of_fuel h = tt

  module _ {A : Type 0} (P S : A → Parser M → Type 0) where
    pub Explains-weaken :
        (r : Parsed M A) → ((a : A) (q : Parser M) → P a q → S a q) → Explains P r → Explains S r
    Explains-weaken (ok a q) h k = h a q k
    Explains-weaken (err incremental q) h k = k
    Explains-weaken (err (parser msg) q) h k = tt
    Explains-weaken (err (lexer e) q) h k = tt
    Explains-weaken panic h k = tt
    Explains-weaken out_of_fuel h k = tt

  module _ {A B : Type 0} (S : A → Parser M → Type 0) (P : B → Parser M → Type 0) where
    pub bind-Explains :
        (r : Parsed M A) (k : A → Parser M → Parsed M B)
        → Explains S r
        → ((a : A) (q : Parser M) → r ≡ ok a q → S a q → Explains P (k a q))
        → Explains P (and_then r k)
    bind-Explains (ok a q) k h l = l a q refl h
    bind-Explains (err incremental q) k h l = h
    bind-Explains (err (parser msg) q) k h l = tt
    bind-Explains (err (lexer e) q) k h l = tt
    bind-Explains panic k h l = tt
    bind-Explains out_of_fuel k h l = tt

  pub Extends-empty : (p q : Parser M) → Extends p q → q.errors ≡ [] → p.errors ≡ []
  Extends-empty p q (es, a) h = sooner_empty p.errors es (sym a.appends ∙ h)

  pub Fails-empty : (p q : Parser M) → Fails p q → q.errors ≡ [] → ⊥
  Fails-empty p q f h = subst NonEmpty h (Fails-NonEmpty p q f)

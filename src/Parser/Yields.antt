-- ===== src/Parser/Yields.antt =====
-- src/parser.rs: what the calls that return yield.
use cddl.Prelude.{Bool, true, false, ◌≡◌, subst, if◌then◌else◌}
use cddl.Parser.State.{Parser, Parsed, ok, err, panic, out_of_fuel, and_then}

-- What a call that returns yields.
abbrev pub Yields : {M A : Type 0} → (A → Type 0) → Parsed M A → Type 0
Yields P (ok a q) = P a
Yields P (err e q) = Unit
Yields P panic = Unit
Yields P out_of_fuel = Unit

module _ {M A B : Type 0} (P : A → Type 0) (R : B → Type 0) where
  pub bind-Yields :
      (r : Parsed M A) (k : A → Parser M → Parsed M B)
      → Yields P r
      → ((a : A) → P a → (q : Parser M) → Yields R (k a q))
      → Yields R (and_then r k)
  bind-Yields (ok a q) k h l = l a h q
  bind-Yields (err e q) k h l = tt
  bind-Yields panic k h l = tt
  bind-Yields out_of_fuel k h l = tt

abbrev pub Anything : {A : Type 0} → A → Type 0
Anything a = Unit

module _ {M A B : Type 0} (R : B → Type 0) where
  pub any-Yields : (r : Parsed M A) → Yields Anything r
  any-Yields (ok a q) = tt
  any-Yields (err e q) = tt
  any-Yields panic = tt
  any-Yields out_of_fuel = tt

  pub after-Yields :
      (r : Parsed M A) (k : A → Parser M → Parsed M B)
      → ((a : A) (q : Parser M) → Yields R (k a q))
      → Yields R (and_then r k)
  after-Yields r k l = bind-Yields Anything R r k (any-Yields r) (λ a u q. l a q)

module _ {M B : Type 0} (R : B → Type 0) where
  pub if-Yields :
      (b : Bool) (r s : Parsed M B) → Yields R r → Yields R s → Yields R (if b then r else s)
  if-Yields true r s h l = h
  if-Yields false r s h l = l

pub Yields-ok :
    {M A : Type 0} (P : A → Type 0) (r : Parsed M A) (a : A) (q : Parser M)
    → Yields P r
    → r ≡ ok a q
    → P a
Yields-ok P r a q h e = subst (Yields P) e h

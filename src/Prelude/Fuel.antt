-- ===== src/Prelude/Fuel.antt =====
-- Runs of functions that call themselves along the rules of a grammar. `out_of_fuel` stands for a run
-- that is deeper than the fuel; the program itself has no such bound, and overflows its stack where it
-- calls itself without end. The iterator methods stop at the first element that decides them.
pub mod Laws
use cddl.Prelude.{Bool, true, false, Option, none, some, List, [], ◌∷◌, ◌++◌, if◌then◌else◌}

pub data Run {ℓ} (A : Type ℓ) : Type ℓ where
  done : A → Run A
  out_of_fuel : Run A

module _ {ℓ κ} {A : Type ℓ} {B : Type κ} where
  infixl 5 ◌>>=◌
  abbrev pub ◌>>=◌ : Run A → (A → Run B) → Run B
  done a >>= f = f a
  out_of_fuel >>= f = out_of_fuel

  -- `find_map`.
  abbrev pub find_map : (A → Run (Option B)) → List A → Run (Option B)
  find_map f [] = done none
  find_map f (x ∷ xs) = elim (f x) [
    | out_of_fuel ↦ out_of_fuel
    | done (some b) ↦ done (some b)
    | done none ↦ find_map f xs
  ]

  -- A loop that appends what each element yields.
  abbrev pub append_each : (A → Run (List B)) → List A → Run (List B)
  append_each f [] = done []
  append_each f (x ∷ xs) = elim (f x) [
    | out_of_fuel ↦ out_of_fuel
    | done ys ↦ elim (append_each f xs) [ out_of_fuel ↦ out_of_fuel | done zs ↦ done (ys ++ zs) ]
  ]

module _ {ℓ} {A : Type ℓ} where
  -- `any`.
  abbrev pub any_run : (A → Run Bool) → List A → Run Bool
  any_run p [] = done false
  any_run p (x ∷ xs) = elim (p x) [
    | out_of_fuel ↦ out_of_fuel
    | done true ↦ done true
    | done false ↦ any_run p xs
  ]

-- ===== src/Prelude/Words.antt =====
-- Text: a `str` is the list of its code points. `codes` turns a literal into one.
use Prim.Native.Char.{code}
use Prim.Native.Nat.{ℕ}
use Prim.Native.String.{String}
use mathlib.Core.Path.{◌≡◌, refl, ap₂}
use mathlib.Core.Bool.{Bool, true, false, ◌&&◌}
use mathlib.Core.Option.{Option, none, some}
use mathlib.Core.List.{List, [], ◌∷◌}
use native.Mathlib.Omega.{arith}
use cddl.Prelude.Tests.{◌==◌, if◌then◌else◌, eq_of_test, test_refl, and_left, and_right, Bool-cases}
use cddl.Prelude.Lists.{all}
use mathlib.Core.Logic.{inl, inr}

abbrev pub Text : Type 0
Text = List ℕ

abbrev pub codes : String → Text
codes String.[] = []
codes (String.◌∷◌ c s) = code c ∷ codes s

-- `==` of `str`.
abbrev pub text_eq : Text → Text → Bool
text_eq [] [] = true
text_eq [] (d ∷ ds) = false
text_eq (c ∷ cs) [] = false
text_eq (c ∷ cs) (d ∷ ds) = c == d && text_eq cs ds

pub eq_of_text_eq : (s t : Text) → text_eq s t ≡ true → s ≡ t
eq_of_text_eq [] [] h = refl
eq_of_text_eq [] (d ∷ ds) h = cc
eq_of_text_eq (c ∷ cs) [] h = cc
eq_of_text_eq (c ∷ cs) (d ∷ ds) h =
    ap₂ ◌∷◌ (eq_of_test c d (and_left _ _ h)) (eq_of_text_eq cs ds (and_right _ _ h))

pub text_eq_refl : (s : Text) → text_eq s s ≡ true
text_eq_refl [] = refl
text_eq_refl (c ∷ cs) = ground (arith, test_refl c, text_eq_refl cs)

-- The arms of a `match` on a string literal, in order: the first whose literal is the text.
abbrev pub match_str {ℓ} : {A : Type ℓ} → Text → List (Text × A) → Option A
match_str s [] = none
match_str s ((k, a) ∷ arms) = if text_eq k s then some a else match_str s arms

-- What holds of every arm holds of the one taken.
pub match_str-all {ℓ} :
    {A : Type ℓ} (p : Text → A → Bool) (s : Text) (arms : List (Text × A)) {a : A}
    → all (λ e. p e.0 e.1) arms ≡ true
    → match_str s arms ≡ some a
    → p s a ≡ true
match_str-all p s [] h e = cc
match_str-all p s ((k, b) ∷ arms) h e = elim (Bool-cases (text_eq k s)) [
  | inl q ↦ ground (arith, q, eq_of_text_eq k s q)
  | inr q ↦ match_str-all p s arms (and_right _ _ h) (rw q at e)
]

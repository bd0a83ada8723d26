-- ===== src/Prelude/Reply.antt =====
-- Fallible calls of functions that call themselves: an answer, an error, a panic, or a run that is deeper
-- than the fuel.
pub mod Laws
use cddl.Prelude.{List, [], ◌∷◌, ◌++◌}
use cddl.Prelude.Fuel.{Run, done}

pub data Reply (E : Type 0) (A : Type 0) : Type 0 where
  answered : A → Reply E A
  refused : E → Reply E A
  panicked : Reply E A
  out_of_fuel : Reply E A

infixl 5 ◌>>=◌
abbrev pub ◌>>=◌ : {E A B : Type 0} → Reply E A → (A → Reply E B) → Reply E B
answered a >>= f = f a
refused e >>= f = refused e
panicked >>= f = panicked
out_of_fuel >>= f = out_of_fuel

abbrev pub run : {E A : Type 0} → Run A → Reply E A
run (done a) = answered a
run Run.out_of_fuel = out_of_fuel

-- A loop that appends what each element yields, up to the first error.
abbrev pub gather : {E A B : Type 0} → (A → Reply E (List B)) → List A → Reply E (List B)
gather f [] = answered []
gather f (x ∷ xs) = f x >>= (λ ys. gather f xs >>= (λ zs. answered (ys ++ zs)))

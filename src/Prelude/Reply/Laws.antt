-- ===== src/Prelude/Reply/Laws.antt =====
-- What a call that ends comes to.
use cddl.Prelude.{List, [], ◌∷◌, ◌++◌, In, first, later, ◌⊎◌, inl, inr}
use cddl.Prelude.Reply.{Reply, answered, refused, panicked, out_of_fuel, ◌>>=◌, gather}

-- The call ends; what it answers has the property, and it panics only where `Q` allows it.
abbrev pub Concludes : {E A : Type 0} → Type 0 → (A → Type 0) → Reply E A → Type 0
Concludes Q P (answered a) = P a
Concludes Q P (refused e) = Unit
Concludes Q P panicked = Q
Concludes Q P out_of_fuel = ⊥

module _ {E A B : Type 0} (Q : Type 0) where
  pub Concludes-bind :
      (P : A → Type 0) (R : B → Type 0) (m : Reply E A) (f : A → Reply E B)
      → Concludes Q P m
      → ((a : A) → P a → Concludes Q R (f a))
      → Concludes Q R (m >>= f)
  Concludes-bind P R (answered a) f h k = k a h
  Concludes-bind P R (refused e) f h k = tt
  Concludes-bind P R panicked f h k = h
  Concludes-bind P R out_of_fuel f h k = absurd h

abbrev pub Each : {B : Type 0} → (B → Type 0) → List B → Type 0
Each {B = B} R ys = (y : B) → In y ys → R y

In-append : {B : Type 0} {y : B} (xs ys : List B) → In y (xs ++ ys) → In y xs ⊎ In y ys
In-append [] ys m = inr m
In-append (x ∷ xs) ys first = inl first
In-append (x ∷ xs) ys (later m) = elim (In-append xs ys m) [ inl h ↦ inl (later h) | inr h ↦ inr h ]

pub Each-append :
    {B : Type 0} (R : B → Type 0) (xs ys : List B) → Each R xs → Each R ys → Each R (xs ++ ys)
Each-append R xs ys h k y m = elim (In-append xs ys m) [ inl i ↦ h y i | inr i ↦ k y i ]

pub gather-Concludes :
    {E A B : Type 0} (Q : Type 0) (R : B → Type 0) (f : A → Reply E (List B)) (xs : List A)
    → ((x : A) → In x xs → Concludes Q (Each R) (f x))
    → Concludes Q (Each R) (gather f xs)
gather-Concludes Q R f [] h = λ y m. elim m [ ]
gather-Concludes Q R f (x ∷ xs) h =
    Concludes-bind Q (Each R) (Each R) (f x) (λ ys. gather f xs >>= (λ zs. answered (ys ++ zs)))
      (h x first)
      (λ ys a.
        Concludes-bind Q (Each R) (Each R) (gather f xs) (λ zs. answered (ys ++ zs))
          (gather-Concludes Q R f xs (λ z m. h z (later m))) (λ zs b. Each-append R ys zs a b))

module _ {E A B : Type 0} (Q : Type 0) (R : B → Type 0) where
  -- A call whose answer does not matter, and the rest.
  pub Concludes-then :
      (m : Reply E A) (f : A → Reply E B)
      → Concludes Q (λ a. Unit {0}) m
      → ((a : A) → Concludes Q R (f a))
      → Concludes Q R (m >>= f)
  Concludes-then m f h k = Concludes-bind Q (λ a. Unit {0}) R m f h (λ a u. k a)

-- ===== src/Prelude/Fuel/Laws.antt =====
-- What a run of `any` tells about the elements, and when it has enough fuel.
use cddl.Prelude.{
  Bool, true, false, Option, none, some, List, [], ◌∷◌, ◌++◌, ◌≡◌, ◌≢◌, ◌⊎◌, inl, inr, refl, arith,
  sym, subst, In, first, later,
}
use cddl.Prelude.Fuel.{Run, done, out_of_fuel, any_run, append_each, find_map}

pub Run-cases {ℓ} : {A : Type ℓ} (r : Run A) → (r ≡ out_of_fuel) ⊎ ((a : A) × (r ≡ done a))
Run-cases out_of_fuel = inl refl
Run-cases (done a) = inr (a, refl)

module _ {ℓ} {A : Type ℓ} (p : A → Run Bool) where
  -- An `any` that returns true has found an element.
  pub any_run-true :
      (xs : List A) → any_run p xs ≡ done true → (x : A) × In x xs × (p x ≡ done true)
  any_run-true [] e = cc
  any_run-true (x ∷ xs) e = elim (Run-cases (p x)) [
    | inl q ↦ cc (rw (q, any_run) at e)
    | inr (true, q) ↦ (x, first, q)
    | inr (false, q) ↦ let (y, m, h) = any_run-true xs (rw (q, any_run) at e) in (y, later m, h)
  ]

  pub any_run-false : {x : A} {xs : List A} → In x xs → any_run p xs ≡ done false → p x ≡ done false
  any_run-false {x} first e = ground arith
  any_run-false (later {y} m) e = elim (Run-cases (p y)) [
    | inl q ↦ cc (rw (q, any_run) at e)
    | inr (true, q) ↦ cc (rw (q, any_run) at e)
    | inr (false, q) ↦ any_run-false m (rw (q, any_run) at e)
  ]

  pub any_run-ne-out_of_fuel :
      (xs : List A) → ((x : A) → In x xs → p x ≢ out_of_fuel) → any_run p xs ≢ out_of_fuel
  any_run-ne-out_of_fuel [] h e = cc
  any_run-ne-out_of_fuel (x ∷ xs) h e = elim (Run-cases (p x)) [
    | inl q ↦ h x first q
    | inr (true, q) ↦ cc (rw (q, any_run) at e)
    | inr (false, q) ↦ any_run-ne-out_of_fuel xs (λ y m. h y (later m)) (rw (q, any_run) at e)
  ]

module _ {ℓ κ} {A : Type ℓ} {B : Type κ} (f : A → Run (Option B)) where
  -- A `find_map` that returns a value has it from an element.
  pub find_map-some :
      (xs : List A) {b : B}
      → find_map f xs ≡ done (some b)
      → (x : A) × In x xs × (f x ≡ done (some b))
  find_map-some [] e = cc
  find_map-some (x ∷ xs) e = elim (Run-cases (f x)) [
    | inl q ↦ cc (rw (q, find_map) at e)
    | inr (some c, q) ↦ (x, first, cc (q, rw (q, find_map) at e))
    | inr (none, q) ↦ let (y, m, h) = find_map-some xs (rw (q, find_map) at e) in (y, later m, h)
  ]

In-append_left {ℓ} : {A : Type ℓ} {x : A} {xs : List A} (ys : List A) → In x xs → In x (xs ++ ys)
In-append_left ys first = first
In-append_left ys (later m) = later (In-append_left ys m)

In-append_right {ℓ} : {A : Type ℓ} {x : A} (xs : List A) {ys : List A} → In x ys → In x (xs ++ ys)
In-append_right [] m = m
In-append_right (y ∷ xs) m = later (In-append_right xs m)

In-append {ℓ} : {A : Type ℓ} {x : A} (xs ys : List A) → In x (xs ++ ys) → In x xs ⊎ In x ys
In-append [] ys m = inr m
In-append (y ∷ xs) ys first = inl first
In-append (y ∷ xs) ys (later m) = elim (In-append xs ys m) [ inl n ↦ inl (later n) | inr n ↦ inr n ]

-- What a loop of appends has gathered, in parts.
abbrev Gathers {ℓ κ} : {A : Type ℓ} {B : Type κ} → (A → Run (List B)) → A → List A → List B → Type κ
Gathers {B = B} f x xs ys =
    (zs us : List B) × (f x ≡ done zs) × (append_each f xs ≡ done us) × (ys ≡ zs ++ us)

pub not-In_nil {ℓ} : {A : Type ℓ} {x : A} → ¬ (In x [])
not-In_nil m = elim m [ ]

pub done-injective {ℓ} : {A : Type ℓ} {x y : A} → done x ≡ done y → x ≡ y
done-injective e = cc

module _ {ℓ κ} {A : Type ℓ} {B : Type κ} (f : A → Run (List B)) where
  append_each-cons :
      (x : A) (xs : List A) (ys : List B) → append_each f (x ∷ xs) ≡ done ys → Gathers f x xs ys
  append_each-cons x xs ys e = elim (Run-cases (f x)) [
    | inl q ↦ cc (rw (q, append_each) at e)
    | inr (zs, q) ↦ elim (Run-cases (append_each f xs)) [
      | inl r ↦ cc (rw (q, append_each, r) at e)
      | inr (us, r) ↦ (zs, us, q, r, cc (rw (q, append_each, r) at e))
    ]
  ]

  -- Every element gathered comes from an element of the list.
  pub append_each-from :
      (xs : List A) (ys : List B) {y : B}
      → append_each f xs ≡ done ys
      → In y ys
      → (x : A) × (zs : List B) × In x xs × (f x ≡ done zs) × In y zs
  append_each-from [] ys e m = absurd (not-In_nil (subst (In _) (done-injective (sym e)) m))
  append_each-from (x ∷ xs) ys e m =
      let (zs, us, q, r, s) = append_each-cons x xs ys e in
      elim (In-append zs us (subst (In _) s m)) [
        | inl n ↦ (x, zs, first, q, n)
        | inr n ↦ let (w, vs, k, p, l) = append_each-from xs us r n in (w, vs, later k, p, l)
      ]

  -- Every element of the list is run, and what it yields is gathered.
  pub append_each-all :
      {x : A} {xs : List A} (ys : List B)
      → In x xs
      → append_each f xs ≡ done ys
      → (zs : List B) × (f x ≡ done zs) × ((y : B) → In y zs → In y ys)
  append_each-all ys (first {xs}) e =
      let (zs, us, q, r, s) = append_each-cons _ xs ys e in
      (zs, q, λ y m. subst (In y) (sym s) (In-append_left us m))
  append_each-all ys (later {y = w} {xs} m) e =
      let (zs, us, q, r, s) = append_each-cons w xs ys e in
      let (vs, p, h) = append_each-all us m r in
      (vs, p, λ y n. subst (In y) (sym s) (In-append_right zs (h y n)))

module _ {ℓ κ} {A : Type ℓ} {B : Type κ} where
  -- A loop has enough fuel where each of its elements has.
  pub append_each-ne-out_of_fuel :
      (f : A → Run (List B)) (xs : List A)
      → ((x : A) → In x xs → f x ≢ out_of_fuel)
      → append_each f xs ≢ out_of_fuel
  append_each-ne-out_of_fuel f [] h e = cc
  append_each-ne-out_of_fuel f (x ∷ xs) h e = elim (Run-cases (f x)) [
    | inl q ↦ h x first q
    | inr (zs, q) ↦ elim (Run-cases (append_each f xs)) [
      | inl r ↦ append_each-ne-out_of_fuel f xs (λ y m. h y (later m)) r
      | inr (us, r) ↦ cc (rw (q, append_each, r) at e)
    ]
  ]

  pub find_map-ne-out_of_fuel :
      (f : A → Run (Option B)) (xs : List A)
      → ((x : A) → In x xs → f x ≢ out_of_fuel)
      → find_map f xs ≢ out_of_fuel
  find_map-ne-out_of_fuel f [] h e = cc
  find_map-ne-out_of_fuel f (x ∷ xs) h e = elim (Run-cases (f x)) [
    | inl q ↦ h x first q
    | inr (some b, q) ↦ cc (rw (q, find_map) at e)
    | inr (none, q) ↦ find_map-ne-out_of_fuel f xs (λ y m. h y (later m)) (rw (q, find_map) at e)
  ]

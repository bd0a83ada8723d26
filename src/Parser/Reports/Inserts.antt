-- ===== src/Parser/Reports/Inserts.antt =====
-- src/parser.rs: the insertion of the rules that were put off keeps the others, and inserts each of
-- them.
use cddl.Prelude.{
  ℕ, zero, suc, Option, none, some, List, [], ◌∷◌, ◌≡◌, refl, subst, In, first, later, length, ◌+◌,
  arith, ap, sym, leb, Bool, true, false, if◌then◌else◌,
}
use cddl.Ast.{Rule}
use cddl.Parser.Cddl

In-behind :
    (s : Rule) (rs us : List Rule)
    → ((r : Rule) → In r rs → In r us)
    → (r : Rule) → In r (s ∷ rs)
    → In r (s ∷ us)
In-behind s rs us h _ first = first
In-behind s rs us h r (later m) = later (h r m)

some-injective : {A : Type 0} {a b : A} → some a ≡ some b → a ≡ b
some-injective e = cc

vec_insert-In :
    (i : ℕ) (s : Rule) (rs ts : List Rule)
    → Cddl.vec_insert i s rs ≡ some ts
    → (r : Rule) → In r rs
    → In r ts
vec_insert-In zero s rs [] e = cc
vec_insert-In zero s rs (t ∷ ts) e = λ r m. subst (In r) (some-injective e) (later m)
vec_insert-In (suc i) s [] ts e = cc
vec_insert-In (suc i) s (r' ∷ rs) ts e = inserted (Cddl.vec_insert i s rs) (vec_insert-In i s rs) e
  where
    inserted :
        (o : Option (List Rule))
        → ((us : List Rule) → o ≡ some us → (r : Rule) → In r rs → In r us)
        → (elim o as (λ v. Option (List Rule)) [ none ↦ none | some us ↦ some (r' ∷ us) ]) ≡ some ts
        → (r : Rule) → In r (r' ∷ rs)
        → In r ts
    inserted none h e = cc
    inserted (some us) h e =
        λ r m. subst (In r) (some-injective e) (In-behind r' rs us (h us refl) r m)

then_inserted :
    (P : List Rule → List Rule → Type 0) (o : Option (List Rule))
    (f : List Rule → Option (List Rule)) (rs ts : List Rule)
    → ((us : List Rule) → o ≡ some us → P rs us)
    → ((us : List Rule) → f us ≡ some ts → P us ts)
    → ((us : List Rule) → P rs us → P us ts → P rs ts)
    → (elim o as (λ v. Option (List Rule)) [ none ↦ none | some us ↦ f us ]) ≡ some ts
    → P rs ts
then_inserted P none f rs ts h k l e = cc
then_inserted P (some us) f rs ts h k l e = l us (h us refl) (k us e)

pub insert_all-In :
    (known : List (ℕ × Rule)) (rs ts : List Rule)
    → Cddl.insert_all known rs ≡ some ts
    → (r : Rule) → In r rs
    → In r ts
insert_all-In [] rs ts e = λ r m. subst (In r) (some-injective e) m
insert_all-In ((i, s) ∷ known) rs ts e =
    then_inserted (λ us vs. (r : Rule) → In r us → In r vs) (Cddl.vec_insert i s rs)
      (Cddl.insert_all known) rs ts (vec_insert-In i s rs) (λ us e. insert_all-In known us ts e)
      (λ us h k r m. k r (h r m)) e

lengthened :
    (n k : ℕ) (o : Option (List Rule)) (f : List Rule → Option (List Rule)) (ts : List Rule)
    → ((us : List Rule) → o ≡ some us → length us ≡ n)
    → ((us : List Rule) → length us ≡ n → f us ≡ some ts → length ts ≡ k)
    → (elim o as (λ v. Option (List Rule)) [ none ↦ none | some us ↦ f us ]) ≡ some ts
    → length ts ≡ k
lengthened n k none f ts h l e = cc
lengthened n k (some us) f ts h l e = l us (h us refl) e

length-some : (rs ts : List Rule) → some rs ≡ some ts → length ts ≡ length rs
length-some rs ts e = ap length (sym (some-injective e))

length-vec_insert :
    (i : ℕ) (s : Rule) (rs ts : List Rule)
    → Cddl.vec_insert i s rs ≡ some ts
    → length ts ≡ suc (length rs)
length-vec_insert zero s rs ts e = length-some (s ∷ rs) ts e
length-vec_insert (suc i) s [] ts e = cc
length-vec_insert (suc i) s (r ∷ rs) ts e =
    lengthened (suc (length rs)) (suc (suc (length rs))) (Cddl.vec_insert i s rs)
      (λ us. some (r ∷ us)) ts (length-vec_insert i s rs)
      (λ us h e. omega (arith, h, length-some (r ∷ us) ts e)) e

pub length-insert_all :
    (known : List (ℕ × Rule)) (rs ts : List Rule)
    → Cddl.insert_all known rs ≡ some ts
    → length ts ≡ length known + length rs
length-insert_all [] rs ts e = omega (arith, length-some rs ts e)
length-insert_all ((i, s) ∷ known) rs ts e =
    lengthened (suc (length rs)) (suc (length known) + length rs) (Cddl.vec_insert i s rs)
      (Cddl.insert_all known) ts (length-vec_insert i s rs)
      (λ us h e. omega (arith, h, length-insert_all known us ts e)) e

length-insert_known :
    (a : ℕ × Rule) (bs : List (ℕ × Rule)) → length (Cddl.insert_known a bs) ≡ suc (length bs)
length-insert_known a [] = refl
length-insert_known a (b ∷ bs) = placed (leb b.0 a.0) (length-insert_known a bs)
  where
    placed :
        (d : Bool)
        → length (Cddl.insert_known a bs) ≡ suc (length bs)
        → length (if d then a ∷ b ∷ bs else b ∷ Cddl.insert_known a bs) ≡ suc (suc (length bs))
    placed true h = refl
    placed false h = ap suc h

pub length-sort_known : (known : List (ℕ × Rule)) → length (Cddl.sort_known known) ≡ length known
length-sort_known [] = refl
length-sort_known (a ∷ known) =
    omega (arith, length-insert_known a (Cddl.sort_known known), length-sort_known known)

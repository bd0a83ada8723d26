-- ===== src/Parser/Placed.antt =====
-- src/parser.rs: the rules that `parse_cddl` collects, and the places of those it resolves afterwards.
pub mod Loops
use cddl.Prelude.{
  ◌⊎◌, inl, inr, In, first, later, any, not, ◌&&◌, ◌||◌, text_eq, ℕ, zero, suc, ◌+◌, ◌≤◌, Bool,
  true, false, Option, none, some, List, [], ◌∷◌, ◌++◌, ◌≡◌, ◌≢◌, refl, sym, subst, arith, leb,
  is_empty, length, length-append, if◌then◌else◌, Bool-cases, inl, inr,
}
use cddl.Ast.{Rule}
use cddl.Ast.Convert.{rule_name, is_choice_alternate}
use cddl.Parser.Cddl
use cddl.Parser.Cddl.{UnknownRule, rule_exists}

-- An alternate, or a rule with another name than each of the rules.
abbrev pub IsNew : List Rule → Rule → Type 0
IsNew rs r =
    (is_choice_alternate r ≡ true)
    ⊎ ((s : Rule) → In s rs → text_eq (rule_name r) (rule_name s) ≡ false)

or_left : (a b : Bool) → (a || b) ≡ false → a ≡ false
or_left a b h = ground arith

or_right : (a b : Bool) → (a || b) ≡ false → b ≡ false
or_right a b h = ground arith

any-In :
    {A : Type 0} (p : A → Bool) (xs : List A) → any p xs ≡ false → (x : A) → In x xs → p x ≡ false
any-In p [] h y m = elim m [ ]
any-In p (x ∷ xs) h y first = or_left (p x) (any p xs) h
any-In p (x ∷ xs) h y (later m) = any-In p xs (or_right (p x) (any p xs) h) y m

IsNew-alternate :
    (a b : Bool) (rs : List Rule) (r : Rule)
    → is_choice_alternate r ≡ a
    → any (λ s. text_eq (rule_name r) (rule_name s)) rs ≡ b
    → (not a && b) ≡ false
    → IsNew rs r
IsNew-alternate true b rs r d e h = inl d
IsNew-alternate false true rs r d e h = cc
IsNew-alternate false false rs r d e h =
    inr (any-In (λ s. text_eq (rule_name r) (rule_name s)) rs e)

pub rule_exists-IsNew : (rs : List Rule) (r : Rule) → rule_exists rs r ≡ false → IsNew rs r
unfolding rule_exists
rule_exists-IsNew rs r h = IsNew-alternate (is_choice_alternate r) _ rs r refl refl h

-- Each rule is an alternate, or has another name than the rules in front of it.
pub data Distinct : List Rule → Type 0 where
  no_rules : Distinct []
  one_more : (rs : List Rule) (r : Rule) → Distinct rs → IsNew rs r → Distinct (rs ++ (r ∷ []))

-- The places lie within the first `n` rules, or behind them.
abbrev pub KnownWithin : ℕ → List (ℕ × Rule) → Type 0
KnownWithin n [] = Unit
KnownWithin n ((i, r) ∷ ks) = (i ≤ n) × KnownWithin n ks

abbrev pub UnknownWithin : ℕ → List UnknownRule → Type 0
UnknownWithin n [] = Unit
UnknownWithin n (u ∷ us) = (u.index ≤ n) × UnknownWithin n us

pub UnknownWithin-weaken :
    (n m : ℕ) (us : List UnknownRule) → n ≤ m → UnknownWithin n us → UnknownWithin m us
UnknownWithin-weaken n m [] l h = tt
UnknownWithin-weaken n m (u ∷ us) l (a, h) = (omega arith, UnknownWithin-weaken n m us l h)

pub UnknownWithin-append :
    (n : ℕ) (us vs : List UnknownRule)
    → UnknownWithin n us
    → UnknownWithin n vs
    → UnknownWithin n (us ++ vs)
UnknownWithin-append n [] vs h k = k
UnknownWithin-append n (u ∷ us) vs (a, h) k = (a, UnknownWithin-append n us vs h k)

pub UnknownWithin-reverse :
    (n : ℕ) (us : List UnknownRule) → UnknownWithin n us → UnknownWithin n (Cddl.reverse us)
UnknownWithin-reverse n [] h = tt
UnknownWithin-reverse n (u ∷ us) (a, h) =
    UnknownWithin-append n (Cddl.reverse us) (u ∷ []) (UnknownWithin-reverse n us h) (a, tt)

KnownWithin-weaken : (n m : ℕ) (ks : List (ℕ × Rule)) → n ≤ m → KnownWithin n ks → KnownWithin m ks
KnownWithin-weaken n m [] l h = tt
KnownWithin-weaken n m ((i, r) ∷ ks) l (a, h) = (omega arith, KnownWithin-weaken n m ks l h)

pub KnownWithin-append :
    (n : ℕ) (ks ls : List (ℕ × Rule))
    → KnownWithin n ks
    → KnownWithin n ls
    → KnownWithin n (ks ++ ls)
KnownWithin-append n [] ls h k = k
KnownWithin-append n ((i, r) ∷ ks) ls (a, h) k = (a, KnownWithin-append n ks ls h k)

inserted :
    (n : ℕ) (b : Bool) (a c : ℕ × Rule) (ks ls : List (ℕ × Rule))
    → a.0 ≤ n
    → KnownWithin n (c ∷ ks)
    → KnownWithin n ls
    → KnownWithin n (if b then a ∷ c ∷ ks else c ∷ ls)
inserted n true (i, r) c ks ls l h k = (l, h)
inserted n false (i, r) (j, s) ks ls l (d, h) k = (d, k)

KnownWithin-insert_known :
    (n : ℕ) (a : ℕ × Rule) (ks : List (ℕ × Rule))
    → a.0 ≤ n
    → KnownWithin n ks
    → KnownWithin n (Cddl.insert_known a ks)
KnownWithin-insert_known n (i, r) [] l h = (l, tt)
KnownWithin-insert_known n a ((j, s) ∷ ks) l (d, h) =
    inserted n (leb j a.0) a (j, s) ks (Cddl.insert_known a ks) l (d, h)
      (KnownWithin-insert_known n a ks l h)

pub KnownWithin-sort_known :
    (n : ℕ) (ks : List (ℕ × Rule)) → KnownWithin n ks → KnownWithin n (Cddl.sort_known ks)
KnownWithin-sort_known n [] h = tt
KnownWithin-sort_known n ((i, r) ∷ ks) (a, h) =
    KnownWithin-insert_known n (i, r) (Cddl.sort_known ks) a (KnownWithin-sort_known n ks h)

-- The list has one rule more.
Grown : Option (List Rule) → List Rule → Type 0
Grown none rs = ⊥
Grown (some ts) rs = length ts ≡ suc (length rs)

Grown-cons :
    (s : Rule) (rs : List Rule) (o : Option (List Rule))
    → Grown o rs
    → Grown (elim o [ none ↦ none | some ts ↦ some (s ∷ ts) ]) (s ∷ rs)
unfolding Grown
Grown-cons s rs none h = h
Grown-cons s rs (some ts) h = omega (arith, h)

vec_insert-Grown :
    (i : ℕ) (r : Rule) (rs : List Rule) → i ≤ length rs → Grown (Cddl.vec_insert i r rs) rs
unfolding Grown
vec_insert-Grown zero r rs l = refl
vec_insert-Grown (suc i) r [] l = absurd (omega (arith, l))
vec_insert-Grown (suc i) r (s ∷ rs) l =
    Grown-cons s rs (Cddl.vec_insert i r rs) (vec_insert-Grown i r rs (omega arith))

insert_rest :
    (o : Option (List Rule)) (rs : List Rule) (ks : List (ℕ × Rule))
    → Grown o rs
    → ((ts : List Rule) → length ts ≡ suc (length rs) → Cddl.insert_all ks ts ≢ none)
    → elim o as (λ v. Option (List Rule)) [ none ↦ none | some ts ↦ Cddl.insert_all ks ts ] ≢ none
unfolding Grown
insert_rest none rs ks h f = absurd h
insert_rest (some ts) rs ks h f = f ts h

pub insert_all-total :
    (ks : List (ℕ × Rule)) (rs : List Rule)
    → KnownWithin (length rs) ks
    → Cddl.insert_all ks rs ≢ none
insert_all-total [] rs h = cc
insert_all-total ((i, r) ∷ ks) rs (a, h) =
    insert_rest (Cddl.vec_insert i r rs) rs ks (vec_insert-Grown i r rs a) (λ ts e.
      insert_all-total ks ts (KnownWithin-weaken (length rs) (length ts) ks (omega (arith, e)) h))

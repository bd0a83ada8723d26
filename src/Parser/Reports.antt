-- ===== src/Parser/Reports.antt =====
-- src/parser.rs: what every call of the parser keeps. It only adds errors, leaves the text and the
-- known names alone, and adds at least one error where it fails with `INCREMENTAL`.

pub mod Parts
pub mod Types
pub mod Arms
pub mod Type2
pub mod Groups
pub mod MemberKeys
pub mod Rules
pub mod Explains
pub mod Collects
pub mod Inserts
pub mod Resolve
pub mod Cddl
use cddl.Prelude.{
  ℕ, Bool, true, false, List, [], ◌∷◌, ◌++◌, ◌≡◌, refl, sym, ◌∙◌, ap, append_assoc, append-nil,
  if◌then◌else◌,
}
use cddl.Token.{Token}
use cddl.Lexer.State.{Externals, Step, Position}
use cddl.Lexer.Next
use cddl.Parser.State.{
  Parser, Parsed, ok, err, panic, out_of_fuel, Error, parser, lexer, incremental, ErrorMsg, Tokens,
  lexing, items, ◌>>=◌, fail, push_error, Cmd, next_token, pull, swap_tokens, and_then,
}

abbrev pub NonEmpty : List Error → Type 0
NonEmpty [] = ⊥
NonEmpty (e ∷ es) = Unit

NonEmpty-later : (es fs : List Error) → NonEmpty fs → NonEmpty (es ++ fs)
NonEmpty-later [] fs h = h
NonEmpty-later (e ∷ es) fs h = tt

NonEmpty-sooner : (es fs : List Error) → NonEmpty es → NonEmpty (es ++ fs)
NonEmpty-sooner [] fs h = absurd h
NonEmpty-sooner (e ∷ es) fs h = tt

module _ {M : Type 0} where
  -- The errors `es` are added.
  pub record Adds (es : List Error) (p q : Parser M) : Type 0 where
    pub same_text : q.str_input ≡ p.str_input
    pub same_typenames : q.typenames ≡ p.typenames
    pub same_groupnames : q.groupnames ≡ p.groupnames
    pub appends : q.errors ≡ p.errors ++ es

  abbrev pub Extends : Parser M → Parser M → Type 0
  Extends p q = (es : List Error) × Adds es p q

  -- The errors grow by one at least.
  abbrev pub Fails : Parser M → Parser M → Type 0
  Fails p q = (es : List Error) × (Adds es p q × NonEmpty es)

  abbrev pub Reports : {A : Type 0} → Parser M → Parsed M A → Type 0
  Reports p (ok a q) = Extends p q
  Reports p (err incremental q) = Fails p q
  Reports p (err (parser msg) q) = Extends p q
  Reports p (err (lexer e) q) = Extends p q
  Reports p panic = Unit
  Reports p out_of_fuel = Unit

  abbrev pub AllReports : {A : Type 0} → (Parser M → Parsed M A) → Type 0
  AllReports m = (p : Parser M) → Reports p (m p)

  -- A step that adds no error.
  pub Extends-still :
      (p q : Parser M)
      → q.str_input ≡ p.str_input
      → q.typenames ≡ p.typenames
      → q.groupnames ≡ p.groupnames
      → q.errors ≡ p.errors
      → Extends p q
  Extends-still p q a b c d = (
    [],
    record {
      same_text = a;
      same_typenames = b;
      same_groupnames = c;
      appends = d ∙ sym (append-nil p.errors);
    },
  )

  pub Extends-refl : (p : Parser M) → Extends p p
  Extends-refl p = Extends-still p p refl refl refl refl

  pub Adds-trans :
      (p q r : Parser M) (es fs : List Error) → Adds es p q → Adds fs q r → Adds (es ++ fs) p r
  Adds-trans p q r es fs a b = record {
    same_text = b.same_text ∙ a.same_text;
    same_typenames = b.same_typenames ∙ a.same_typenames;
    same_groupnames = b.same_groupnames ∙ a.same_groupnames;
    appends = b.appends ∙ ap (λ q. q ++ fs) a.appends ∙ append_assoc p.errors es fs;
  }

  pub Extends-trans : (p q r : Parser M) → Extends p q → Extends q r → Extends p r
  Extends-trans p q r (es, a) (fs, b) = (es ++ fs, Adds-trans p q r es fs a b)

  pub Fails-trans : (p q r : Parser M) → Extends p q → Fails q r → Fails p r
  Fails-trans p q r (es, a) (fs, (b, n)) =
      (es ++ fs, (Adds-trans p q r es fs a b, NonEmpty-later es fs n))

  pub Fails-then : (p q r : Parser M) → Fails p q → Extends q r → Fails p r
  Fails-then p q r (es, (a, n)) (fs, b) =
      (es ++ fs, (Adds-trans p q r es fs a b, NonEmpty-sooner es fs n))

  pub Fails-Extends : (p q : Parser M) → Fails p q → Extends p q
  Fails-Extends p q (es, (a, n)) = (es, a)

  pub Adds-errors :
      (p : Parser M) (es : List Error) → Adds es p (record p { errors = p.errors ++ es })
  Adds-errors p es = record {
    same_text = refl;
    same_typenames = refl;
    same_groupnames = refl;
    appends = refl;
  }

  -- `fail`.
  pub push_error-Fails : (msg : ErrorMsg) (p : Parser M) → Fails p (push_error msg p)
  push_error-Fails msg p = (parser msg ∷ [], (Adds-errors p (parser msg ∷ []), tt))

  module _ {A : Type 0} where
    pub Reports-trans : (p q : Parser M) (r : Parsed M A) → Extends p q → Reports q r → Reports p r
    Reports-trans p q (ok a s) d h = Extends-trans p q s d h
    Reports-trans p q (err incremental s) d h = Fails-trans p q s d h
    Reports-trans p q (err (parser msg) s) d h = Extends-trans p q s d h
    Reports-trans p q (err (lexer e) s) d h = Extends-trans p q s d h
    Reports-trans p q panic d h = tt
    Reports-trans p q out_of_fuel d h = tt

    pub if-Reports :
        (b : Bool) (m k : Parser M → Parsed M A) (p : Parser M)
        → Reports p (m p)
        → Reports p (k p)
        → Reports p ((if b then m else k) p)
    if-Reports true m k p h l = h
    if-Reports false m k p h l = l

    pub if_at-Reports :
        (b : Bool) (p : Parser M) (r s : Parsed M A)
        → Reports p r
        → Reports p s
        → Reports p (if b then r else s)
    if_at-Reports true p r s h l = h
    if_at-Reports false p r s h l = l

  module _ {A B : Type 0} where
    pub then-Reports :
        (p : Parser M) (r : Parsed M A) (k : A → Parser M → Parsed M B)
        → Reports p r
        → ((a : A) → AllReports (k a))
        → Reports p (and_then r k)
    then-Reports p (ok a q) k h l = Reports-trans p q (k a q) h (l a q)
    then-Reports p (err incremental q) k h l = h
    then-Reports p (err (parser msg) q) k h l = h
    then-Reports p (err (lexer e) q) k h l = h
    then-Reports p panic k h l = tt
    then-Reports p out_of_fuel k h l = tt

    pub bind-Reports :
        (m : Parser M → Parsed M A) (k : A → Parser M → Parsed M B)
        → AllReports m
        → ((a : A) → AllReports (k a))
        → AllReports (m >>= k)
    bind-Reports m k h l p = then-Reports p (m p) k (h p) l

module _ (x : Externals) where
  open x use {MultiPeek}

  lexing-Reports :
      (p : Parser MultiPeek) (r : Step MultiPeek (Position × Token))
      → Reports p (elim r as (λ v. Parsed MultiPeek (Unit {0})) [
        | Step.ok (pos, t) s' ↦
            ok tt (record p { tokens = lexing s'; peek_token = t; peek_lexer_position = pos })
        | Step.err e pos s' ↦ err (lexer e) (record p { tokens = lexing s' })
        | Step.panic ↦ panic
        | Step.out_of_fuel ↦ out_of_fuel
      ])
  lexing-Reports p (Step.ok (pos, t) s) = Extends-still p _ refl refl refl refl
  lexing-Reports p (Step.err e pos s) = Extends-still p _ refl refl refl refl
  lexing-Reports p Step.panic = tt
  lexing-Reports p Step.out_of_fuel = tt

  pull-Reports : (ts : Tokens MultiPeek) → AllReports (pull x ts)
  unfolding pull
  pull-Reports (items []) p = Extends-refl p
  pull-Reports (items ((pos, t) ∷ ts)) p = Extends-still p _ refl refl refl refl
  pull-Reports (lexing s) p = lexing-Reports p (Next.next_token x s)

  pub next_token-Reports : AllReports (next_token x)
  unfolding next_token
  next_token-Reports p =
      Reports-trans p (swap_tokens x p) (pull x p.tokens (swap_tokens x p))
        (Extends-still p (swap_tokens x p) refl refl refl refl)
        (pull-Reports p.tokens (swap_tokens x p))

-- ===== src/Parser/Reports/Arms.antt =====
-- src/parser.rs: the arms of `parse_type2` that make no other calls, and what follows an arm.
use cddl.Prelude.{
  Bool, true, false, not, ◌&&◌, Option, none, some, [], ◌∷◌, ◌++◌, Text, refl, is_none,
  if◌then◌else◌,
}
use cddl.Token.{Token}
use cddl.Token.Lookup.{in_standard_prelude}
use cddl.Lexer.State.{Externals}
use cddl.Ast
use cddl.Ast.{Identifier, MaybeGenericArgs}
use cddl.Parser.State.{
  Parser, Parsed, ok, ◌>>=◌, ◌>>◌, pure, and_then, Cmd, next_token, missing_group_entry_member_key,
  missing_group_entry, invalid_group_entry_syntax, parser, identifier_from_ident_token, err,
  incremental, panic, out_of_fuel, lexer,
}
use cddl.Parser.Comments.{collect_comments}
use cddl.Parser.Calls.{is_generic_param, contains}
use cddl.Parser.Type2
use cddl.Parser.Reports.{
  Reports, AllReports, Extends, Fails, Extends-refl, Extends-still, push_error-Fails,
  next_token-Reports, Extends-trans, Fails-trans, Fails-then, Fails-Extends, Reports-trans,
}
use cddl.Parser.Reports.Parts.{then_next-Reports, collect_comments-Reports}

-- An arm that is an error has added one.
abbrev pub ArmReports : {M : Type 0} → Parser M → Parsed M Type2.Arm → Type 0
ArmReports p (ok Type2.error q) = Fails p q
ArmReports p r = Reports p r

module _ {M : Type 0} where
  abbrev pub AllArms : (Parser M → Parsed M Type2.Arm) → Type 0
  AllArms m = (p : Parser M) → ArmReports p (m p)

  ArmReports-trans :
      (p q : Parser M) (r : Parsed M Type2.Arm) → Extends p q → ArmReports q r → ArmReports p r
  ArmReports-trans p q (ok Type2.error s) d h = Fails-trans p q s d h
  ArmReports-trans p q (ok (Type2.returns t) s) d h = Extends-trans p q s d h
  ArmReports-trans p q (ok (Type2.value t) s) d h = Extends-trans p q s d h
  ArmReports-trans p q (err incremental s) d h = Fails-trans p q s d h
  ArmReports-trans p q (err (parser msg) s) d h = Extends-trans p q s d h
  ArmReports-trans p q (err (lexer e) s) d h = Extends-trans p q s d h
  ArmReports-trans p q panic d h = tt
  ArmReports-trans p q out_of_fuel d h = tt

  then-arm :
      {A : Type 0} (p : Parser M) (r : Parsed M A) (k : A → Parser M → Parsed M Type2.Arm)
      → Reports p r
      → ((a : A) → AllArms (k a))
      → ArmReports p (and_then r k)
  then-arm p (ok a q) k h l = ArmReports-trans p q (k a q) h (l a q)
  then-arm p (err incremental q) k h l = h
  then-arm p (err (parser msg) q) k h l = h
  then-arm p (err (lexer e) q) k h l = h
  then-arm p panic k h l = tt
  then-arm p out_of_fuel k h l = tt

  pub bind-arm :
      {A : Type 0} (m : Parser M → Parsed M A) (k : A → Parser M → Parsed M Type2.Arm)
      → AllReports m
      → ((a : A) → AllArms (k a))
      → AllArms (m >>= k)
  bind-arm m k h l p = then-arm p (m p) k (h p) l

  pub if-arm :
      (b : Bool) (p : Parser M) (r s : Parsed M Type2.Arm)
      → ArmReports p r
      → ArmReports p s
      → ArmReports p (if b then r else s)
  if-arm true p r s h l = h
  if-arm false p r s h l = l

  pub if_run-arm :
      (b : Bool) (m k : Parser M → Parsed M Type2.Arm)
      → AllArms m
      → AllArms k
      → AllArms (if b then m else k)
  if_run-arm true m k h l = h
  if_run-arm false m k h l = l

  noted :
      (b : Bool) (i : Identifier) (p : Parser M)
      → Extends p (
          if b
          then record p { unknown_rule_idents = p.unknown_rule_idents ++ (i.ident ∷ []) }
          else p)
  noted true i p = Extends-still p _ refl refl refl refl
  noted false i p = Extends-refl p

module _ (x : Externals) where
  open x use {MultiPeek}

  note-Reports : (i : Identifier) → AllReports (Type2.note x i)
  note-Reports i p =
      noted
        (is_none i.socket
          && (not (is_generic_param p i.ident) && not (contains p.typenames i.ident)))
        i p

  pub noted-arm :
      (i : Identifier) (a : Type2.Arm)
      → AllArms {M = MultiPeek} (pure a)
      → AllArms (Type2.note x i >> pure a)
  noted-arm i a h = bind-arm (Type2.note x i) (λ u. pure a) (note-Reports i) (λ u. h)

  pub comments-arm : (k : Cmd x Type2.Arm) → AllArms k → AllArms (collect_comments x >> k)
  comments-arm k h = bind-arm (collect_comments x) (λ u. k) (collect_comments-Reports x) (λ u. h)

  pub next-arm : (k : Cmd x Type2.Arm) → AllArms k → AllArms (next_token x >> k)
  next-arm k h = bind-arm (next_token x) (λ u. k) (next_token-Reports x) (λ u. h)

  refuse_arm-Reports : (t : Token) → AllArms (Type2.refuse_arm x t)
  refuse_arm-Reports Token.colon = push_error-Fails missing_group_entry_member_key
  refuse_arm-Reports Token.arrow_map = push_error-Fails missing_group_entry_member_key
  refuse_arm-Reports Token.r_brace = push_error-Fails missing_group_entry
  refuse_arm-Reports Token.r_bracket = push_error-Fails missing_group_entry
  refuse_arm-Reports Token.r_paren = push_error-Fails missing_group_entry
  refuse_arm-Reports _ = push_error-Fails invalid_group_entry_syntax

  prelude-arm :
      (o : Option Text) (t : Token)
      → AllArms (λ p. elim o as (λ v. Parsed MultiPeek Type2.Arm) [
        | some s ↦
            ok
              (Type2.value (Ast.typename (identifier_from_ident_token s none) Ast.no_generic_args))
              p
        | none ↦ Type2.refuse_arm x t p
      ])
  prelude-arm (some s) t = Extends-refl
  prelude-arm none t = refuse_arm-Reports t

  pub other_arm-Reports : AllArms (Type2.other_arm x)
  unfolding Type2.other_arm
  other_arm-Reports =
      comments-arm _ (λ p. prelude-arm (in_standard_prelude p.cur_token) p.cur_token p)

  abbrev again : Cmd x Ast.Type2
  again s = err incremental s

  -- The arm's error stands, with one more token read.
  error-arm :
      (p q : Parser MultiPeek) (r : Parsed MultiPeek (Unit {0}))
      → Fails p q
      → Reports q r
      → Reports p (and_then r (λ u. again))
  error-arm p q (ok u s) d h = Fails-then p q s d h
  error-arm p q (err incremental s) d h = Fails-trans p q s (Fails-Extends p q d) h
  error-arm p q (err (parser msg) s) d h = Extends-trans p q s (Fails-Extends p q d) h
  error-arm p q (err (lexer e) s) d h = Extends-trans p q s (Fails-Extends p q d) h
  error-arm p q panic d h = tt
  error-arm p q out_of_fuel d h = tt

  pub arm-Reports :
      (p q : Parser MultiPeek) (a : Type2.Arm)
      → ArmReports p (ok a q)
      → Reports p (Type2.finish_arm x a q)
  unfolding Type2.finish_arm
  arm-Reports p q (Type2.returns t) h = h
  arm-Reports p q (Type2.value t) h =
      Reports-trans p q (Type2.finish_arm x (Type2.value t) q) h
        (then_next-Reports x (pure t) Extends-refl q)
  arm-Reports p q Type2.error h = error-arm p q (next_token x q) h (next_token-Reports x q)

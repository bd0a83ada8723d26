-- ===== src/Parser/WellFormed.antt =====
-- src/parser.rs: the rules that `parse_rule` returns. Names with a socket are augmented and not defined,
-- and the type of a type rule has a choice.
use cddl.Prelude.{
  ℕ, zero, suc, Bool, true, false, ◌||◌, Option, none, some, ◌≡◌, refl, if◌then◌else◌,
}
use cddl.Token.{Token, SocketPlug}
use cddl.Lexer.State.{Externals}
use cddl.Ast.{
  Type1, Type2, GroupEntry, TypeExpr, no_type_choices, type_choice, Rule, parenthesized_type,
}
use cddl.Parser.State.{
  Parser, Parsed, ok, panic, ◌>>=◌, pure, fail, cur_token_is, Cmd, next_token,
  incomplete_rule_entry,
}
use cddl.Parser.Comments.{Comments, collect_comments, split_comments_after_type}
use cddl.Parser.Calls.{Calls}
use cddl.Parser.Groups.{cur_is_any}
use cddl.Parser.Types
use cddl.Parser.Yields.{Yields, bind-Yields, after-Yields, if-Yields}
use cddl.Parser.Rules
use cddl.Parser.Rules.{Head}
use cddl.Parser.Grammar.{calls, step_calls}

-- A type socket is augmented by `/=`, a group socket by `//=`.
abbrev pub Augments : Option SocketPlug → Bool → Bool → Type 0
Augments none t_alt g_alt = Unit
Augments (some SocketPlug.type) t_alt g_alt = t_alt ≡ true
Augments (some SocketPlug.group) t_alt g_alt = g_alt ≡ true

abbrev pub HasChoice : TypeExpr → Type 0
HasChoice no_type_choices = ⊥
HasChoice (type_choice t ts) = Unit

-- No type rule has the name of a group socket.
abbrev pub WellFormed : Rule → Type 0
WellFormed (Rule.type r) =
    Augments r.name.socket r.is_type_choice_alternate false × HasChoice r.value
WellFormed (Rule.group r) = Augments r.name.socket true r.is_group_choice_alternate

abbrev pub HeadAugments : Head → Type 0
HeadAugments h = Augments h.name.socket h.is_type_choice_alternate h.is_group_choice_alternate

as_group : (s : Option SocketPlug) (t g : Bool) → Augments s t g → Augments s true g
as_group none t g h = tt
as_group (some SocketPlug.type) t g h = refl
as_group (some SocketPlug.group) t g h = h

module _ (x : Externals) where
  open x use {MultiPeek}

  check_socket-Augments :
      (s : Option SocketPlug) (t g : Bool) (p : Parser MultiPeek)
      → Yields (λ u. Augments s t g) (Rules.check_socket x s t g p)
  unfolding Rules.check_socket
  check_socket-Augments none t g p = tt
  check_socket-Augments (some SocketPlug.type) true g p = refl
  check_socket-Augments (some SocketPlug.type) false g p = tt
  check_socket-Augments (some SocketPlug.group) t true p = refl
  check_socket-Augments (some SocketPlug.group) t false p = tt

  parse_head-Augments : (p : Parser MultiPeek) → Yields HeadAugments (Rules.parse_head x p)
  unfolding Rules.parse_head
  parse_head-Augments p = after-Yields HeadAugments (Rules.rule_ident x p) _ (λ ident q.
      after-Yields HeadAugments (Rules.rule_params x q) _ (λ params r.
        after-Yields HeadAugments (collect_comments x r) _ (λ u s.
          after-Yields HeadAugments (Rules.rule_assignment x s) _ (λ u v.
            bind-Yields
              (λ u.
                Augments ident.socket (cur_token_is Token.t_choice_alt v)
                  (cur_token_is Token.g_choice_alt v))
              HeadAugments
              (Rules.check_socket x ident.socket (cur_token_is Token.t_choice_alt v)
                (cur_token_is Token.g_choice_alt v) v)
              _
              (check_socket-Augments ident.socket (cur_token_is Token.t_choice_alt v)
                (cur_token_is Token.g_choice_alt v) v)
              (λ u a w.
                after-Yields HeadAugments (next_token x w) _
                  (λ u y. after-Yields HeadAugments (collect_comments x y) _ (λ u z. a)))))))

  abbrev TypeYields : Parsed MultiPeek (TypeExpr × Comments) → Type 0
  TypeYields r = Yields (λ t. HasChoice t.0) r

  choice_loop-HasChoice :
      (c : Calls x) (n : ℕ) (t : Type1) (comments : Comments) (p : Parser MultiPeek)
      → TypeYields (Types.choice_loop x c n t comments p)
  unfolding Types.choice_loop
  choice_loop-HasChoice c zero t comments p = tt
  choice_loop-HasChoice c (suc n) t comments p =
      if-Yields (λ t. HasChoice t.0) (cur_token_is Token.t_choice p) _ _
        (after-Yields _ (next_token x p) _ (λ u q. after-Yields _ (collect_comments x q) _ (λ u r.
          after-Yields _ (c.parse_type1 none r) _ (λ (t1, cs) s.
            after-Yields _ (collect_comments x s) _
              (λ u v. after-Yields _ (Types.choice_loop x c n t1 cs v) _ (λ (rest, last) w. tt))))))
        tt

  parse_type-HasChoice :
      (n : ℕ) (t : Option Type2) (p : Parser MultiPeek) → TypeYields ((calls x n).parse_type t p)
  unfolding calls step_calls Types.parse_type
  parse_type-HasChoice zero t p = tt
  parse_type-HasChoice (suc n) t p =
      after-Yields (λ t. HasChoice t.0) ((calls x n).parse_type1 t p) _
        (λ (t1, comments) q.
          after-Yields (λ t. HasChoice t.0) (collect_comments x q) _
            (λ u r. choice_loop-HasChoice (calls x n) (calls x n).rounds t1 comments r))

  -- The comments behind a type, unless some were taken.
  abbrev behind : Comments → Cmd x Comments
  behind o = elim o [ some cs ↦ pure none | none ↦ collect_comments x ]

module _ (x : Externals) (n : ℕ) where
  open x use {MultiPeek}

  parse_group_rule-WellFormed :
      (h : Head) (p : Parser MultiPeek)
      → HeadAugments h
      → Yields WellFormed (Rules.parse_group_rule x (calls x n) h p)
  unfolding Rules.parse_group_rule
  parse_group_rule-WellFormed h p a =
      after-Yields WellFormed ((calls x n).parse_grpent true p) _ (λ ge q.
        after-Yields WellFormed (collect_comments x q) _
          (λ u r. as_group h.name.socket h.is_type_choice_alternate h.is_group_choice_alternate a))

  coerced-WellFormed :
      (o : Option TypeExpr) (h : Head) (ge : GroupEntry) (p : Parser MultiPeek)
      → h.is_group_choice_alternate ≡ false
      → HeadAugments h
      → Yields WellFormed (elim o as (λ v. Parsed MultiPeek Rule) [
        | some pt ↦
            (do
              (value, comments) ← (calls x n).parse_type (some (parenthesized_type pt))
              λ q. ok (Rules.type_rule h value) (Rules.set_generic_params none q))
              p
        | none ↦ ok (Rules.group_rule h ge) (Rules.set_generic_params none p)
      ])
  coerced-WellFormed none h ge p e a =
      as_group h.name.socket h.is_type_choice_alternate h.is_group_choice_alternate a
  coerced-WellFormed (some pt) h ge p e a =
      bind-Yields (λ t. HasChoice t.0) WellFormed
        ((calls x n).parse_type (some (parenthesized_type pt)) p) _
        (parse_type-HasChoice x n (some (parenthesized_type pt)) p)
        (λ (value, comments) k q. (rw e at a, k))

  only-WellFormed :
      (o : Option Bool) (h : Head) (t : TypeExpr) (p : Parser MultiPeek)
      → h.is_group_choice_alternate ≡ false
      → HeadAugments h
      → HasChoice t
      → Yields WellFormed (elim o as (λ v. Parsed MultiPeek Rule) [
        | none ↦ panic
        | some b ↦ ok (Rules.type_rule h t) (Rules.guarantee x b (Rules.set_generic_params none p))
      ])
  only-WellFormed none h t p e a k = tt
  only-WellFormed (some b) h t p e a k = (rw e at a, k)

  -- A rule whose head is no augmentation of a group.
  typed-WellFormed :
      (h : Head) (p : Parser MultiPeek)
      → h.is_group_choice_alternate ≡ false
      → HeadAugments h
      → Yields WellFormed (Rules.parse_entry_rule x (calls x n) h p)
        × Yields WellFormed (Rules.parse_type_rule x (calls x n) h p)
  unfolding Rules.parse_entry_rule Rules.parse_type_rule
  typed-WellFormed h p e a = (
    after-Yields WellFormed ((calls x n).parse_grpent true p) _ (λ ge q.
        after-Yields WellFormed (collect_comments x q) _
          (λ u r. coerced-WellFormed (Rules.parenthesized_entry r.cur_token ge) h ge r e a)),
    bind-Yields (λ t. HasChoice t.0) WellFormed ((calls x n).parse_type none p) _
        (parse_type-HasChoice x n none p)
        (λ (t, comments) k q.
          after-Yields WellFormed
            ((if cur_token_is Token.unwrap p then next_token x else pure tt) q) _
            (λ u r.
              after-Yields WellFormed (behind x (split_comments_after_type comments) r) _ (λ u s.
                if-Yields WellFormed (cur_is_any Rules.assignments s) (fail incomplete_rule_entry s)
                  _ tt (only-WellFormed (Rules.only_type t) h t s e a k)))),
  )

  headed-WellFormed :
      (h : Head) (b s e : Bool) (p : Parser MultiPeek)
      → h.is_group_choice_alternate ≡ b
      → HeadAugments h
      → Yields WellFormed (
          if s || (b || e)
          then Rules.parse_group_rule x (calls x n) h p
          else if cur_is_any Rules.entry_tokens p
          then Rules.parse_entry_rule x (calls x n) h p
          else Rules.parse_type_rule x (calls x n) h p)
  headed-WellFormed h true true e p k a = parse_group_rule-WellFormed h p a
  headed-WellFormed h true false e p k a = parse_group_rule-WellFormed h p a
  headed-WellFormed h false s e p k a =
      if-Yields WellFormed (s || (false || e)) _ _ (parse_group_rule-WellFormed h p a) (
        if-Yields WellFormed (cur_is_any Rules.entry_tokens p) _ _ (typed-WellFormed h p k a).0
          (typed-WellFormed h p k a).1)

  -- At any fuel, a rule that `parse_rule` returns augments its socket: a type rule whose name has a type
  -- socket is a `/=` rule, no type rule has a name with a group socket, and a group rule whose name has a
  -- group socket is a `//=` rule. The type of a type rule has at least one choice.
  pub parse_rule-WellFormed :
      (b : Bool) (p : Parser MultiPeek) → Yields WellFormed (Rules.parse_rule x (calls x n) b p)
  unfolding Rules.parse_rule
  parse_rule-WellFormed b p =
      bind-Yields HeadAugments WellFormed (Rules.parse_head x p) _ (parse_head-Augments x p)
        (λ h a q.
          headed-WellFormed h h.is_group_choice_alternate (Rules.is_group_socket q.cur_token) b q
            refl a)

-- ===== src/Token/Lookup/Laws.antt =====
-- The tables of src/token.rs: names and tokens of the standard prelude, names and control operators.
use cddl.Prelude.{
  Text, text_eq, eq_of_text_eq, match_str, match_str-all, Bool, true, false, Option, none, some, [],
  ◌∷◌, ◌≡◌, ◌≢◌, ◌↔◌, ◌⊎◌, refl, arith, ◌==◌, Option-cases, Bool-cases, inl, inr, sym, ◌∙◌,
}
use cddl.Token.{Token, SocketPlug, ControlOperator}
use cddl.Token.Lookup.{
  prelude_arms, lookup_ident, ident_token, in_standard_prelude, control_arms,
  lookup_control_from_str,
}
use cddl.Token.Display.{display_control_operator, display_socket_plug, display_name}

abbrev option_text_eq : Option Text → Text → Bool
option_text_eq none s = false
option_text_eq (some t) s = text_eq t s

eq_of_option_text_eq : (o : Option Text) (s : Text) → option_text_eq o s ≡ true → o ≡ some s
eq_of_option_text_eq none s h = cc
eq_of_option_text_eq (some t) s h = ground (arith, eq_of_text_eq t s h)

-- Every arm of `lookup_ident` gives a token whose prelude name is the arm's literal.
match_prelude-name :
    (s : Text) {t : Token} → match_str s prelude_arms ≡ some t → in_standard_prelude t ≡ some s
unfolding in_standard_prelude
match_prelude-name s {t} e =
    eq_of_option_text_eq (in_standard_prelude t) s
      (match_str-all (λ k u. option_text_eq (in_standard_prelude u) k) s prelude_arms refl e)

-- What `lookup_ident` makes of the name that a token is printed with, if it has one.
abbrev ComesBack : Token → Option Text → Type 0
ComesBack t none = Unit
ComesBack t (some s) = lookup_ident s ≡ t

in_standard_prelude-ComesBack : (t : Token) → ComesBack t (in_standard_prelude t)
unfolding in_standard_prelude lookup_ident
in_standard_prelude-ComesBack Token.any = refl
in_standard_prelude-ComesBack _ = search

lookup_ident-prelude : (t : Token) {s : Text} → in_standard_prelude t ≡ some s → lookup_ident s ≡ t
lookup_ident-prelude t e = rw e at (in_standard_prelude-ComesBack t)

-- The text is read as an identifier, which prints as the text.
abbrev pub IsIdentOf : Text → Token → Type 0
IsIdentOf s t =
    (name : Text) × (socket : Option SocketPlug) × (t ≡ Token.ident name socket)
    × (display_name name socket ≡ s)

ident_token-IsIdentOf : (s : Text) → IsIdentOf s (ident_token s)
unfolding ident_token display_socket_plug
ident_token-IsIdentOf [] = ([], none, refl, refl)
ident_token-IsIdentOf (c ∷ []) = elim (Bool-cases (c == b'$')) [
  | inl q ↦ ([], some SocketPlug.type, ground arith, ground arith)
  | inr q ↦ (c ∷ [], none, rw q, refl)
]
ident_token-IsIdentOf (c ∷ d ∷ s) = elim (Bool-cases (c == b'$')) [
  | inr q ↦ (c ∷ d ∷ s, none, rw q, refl)
  | inl q ↦ elim (Bool-cases (d == b'$')) [
    | inl r ↦ (s, some SocketPlug.group, ground arith, ground arith)
    | inr r ↦ (d ∷ s, some SocketPlug.type, ground arith, ground arith)
  ]
]

-- `lookup_ident` reads a text as the prelude token of that name, or else as an identifier with an
-- optional socket whose printed form is the text again.
pub lookup_ident-display :
    (s : Text) → (in_standard_prelude (lookup_ident s) ≡ some s) ⊎ IsIdentOf s (lookup_ident s)
unfolding lookup_ident
lookup_ident-display s = elim (Option-cases (match_str s prelude_arms)) [
  | inl e ↦ inr (rw e (ident_token-IsIdentOf s))
  | inr (t, e) ↦ inl (rw e (match_prelude-name s e))
]

prelude_of_ident :
    (name : Text) (socket : Option SocketPlug)
    → in_standard_prelude (Token.ident name socket) ≡ none
unfolding in_standard_prelude
prelude_of_ident name socket = refl

-- A token's prelude name is `s` exactly when the token has such a name and `lookup_ident` reads `s` as
-- that token.
pub in_standard_prelude-lookup_ident :
    (t : Token) (s : Text)
    → (in_standard_prelude t ≡ some s) ↔ ((lookup_ident s ≡ t) × (in_standard_prelude t ≢ none))
in_standard_prelude-lookup_ident t s = (
  λ e. (lookup_ident-prelude t e, λ n. cc),
  λ (e, named). elim (lookup_ident-display s) [
    | inl p ↦ rw e at p
    | inr (name, socket, q, _) ↦ absurd (named (rw (sym e ∙ q) (prelude_of_ident name socket)))
  ],
)

display_control_operator-ComesBack :
    (co : ControlOperator) → match_str (display_control_operator co) control_arms ≡ some co
unfolding display_control_operator
display_control_operator-ComesBack ControlOperator.size = refl
display_control_operator-ComesBack _ = refl

match_control-display :
    (s : Text) {co : ControlOperator}
    → match_str s control_arms ≡ some co
    → s ≡ display_control_operator co
unfolding display_control_operator
match_control-display s {co} e =
    eq_of_text_eq s (display_control_operator co)
      (match_str-all (λ k c. text_eq k (display_control_operator c)) s control_arms refl e)

-- `lookup_control_from_str` accepts exactly the printed forms of the control operators.
pub lookup_control_from_str-display :
    (s : Text) (co : ControlOperator)
    → (lookup_control_from_str s ≡ some co) ↔ (s ≡ display_control_operator co)
unfolding lookup_control_from_str
lookup_control_from_str-display s co =
    (match_control-display s, λ e. rw e (display_control_operator-ComesBack co))

-- An identifier token prints as the text that it was read from.
pub lookup_ident-ident :
    (s name : Text) (socket : Option SocketPlug)
    → lookup_ident s ≡ Token.ident name socket
    → display_name name socket ≡ s
lookup_ident-ident s name socket e = elim (lookup_ident-display s) [
  | inl p ↦ cc (rw e at p, prelude_of_ident name socket)
  | inr (n, so, q, d) ↦ cc (sym e ∙ q, d)
]

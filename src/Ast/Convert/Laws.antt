-- ===== src/Ast/Convert/Laws.antt =====
-- The tags of the standard prelude, and identifiers made from strings.
use cddl.Prelude.{
  ℕ, ◌<◌, Bool, true, false, Option, none, some, Text, List, [], ◌∷◌, ◌≡◌, refl, arith, ap, ◌∙◌,
  text_eq, eq_of_text_eq, text_eq_refl, not, length, ◌==◌, Bool-cases, inl, inr, if◌then◌else◌,
}
use cddl.Prelude.Outcome.{Outcome, returned}
use cddl.Token.{Token, SocketPlug}
use cddl.Token.Lookup.{lookup_ident}
use cddl.Token.Lookup.Laws.{lookup_ident-ident}
use cddl.Token.Display.{display_socket_plug, display_name}
use cddl.Ast.{Type2, display_identifier, identifier_eq}
use cddl.Ast.Convert.{identifier_from_str, tag_from_token}

-- The token that has a tag, read off the tag's number.
abbrev token_arms : List (ℕ × Token)
token_arms =
    (0, Token.tdate)
    ∷ (1, Token.time)
    ∷ (2, Token.biguint)
    ∷ (3, Token.bignint)
    ∷ (21, Token.eb64url)
    ∷ (22, Token.eb64legacy)
    ∷ (23, Token.eb16)
    ∷ (24, Token.encoded_cbor)
    ∷ (32, Token.uri)
    ∷ (33, Token.b64url)
    ∷ (34, Token.b64legacy)
    ∷ (35, Token.regexp)
    ∷ (36, Token.mime_message)
    ∷ (55799, Token.cbor_any)
    ∷ []

abbrev token_of : ℕ → List (ℕ × Token) → Option Token
token_of n [] = none
token_of n ((m, t) ∷ arms) = if m == n then some t else token_of n arms

abbrev token_of_type2 : Outcome (Option Type2) → Option Token
token_of_type2 (returned (some (Type2.tagged_data (some n) t))) = token_of n token_arms
token_of_type2 _ = none

abbrev Recovers : Token → Outcome (Option Type2) → Type 0
Recovers t (returned (some x)) = token_of_type2 (returned (some x)) ≡ some t
Recovers t _ = Unit

tag_from_token-Recovers : (t : Token) → Recovers t (tag_from_token t)
unfolding tag_from_token
tag_from_token-Recovers Token.tdate = refl
tag_from_token-Recovers _ = search

-- No two tokens of the standard prelude have the same tagged type.
pub tag_from_token-injective :
    (t u : Token) (x : Type2)
    → tag_from_token t ≡ returned (some x)
    → tag_from_token u ≡ returned (some x)
    → t ≡ u
tag_from_token-injective t u x e f =
    cc (rw e at (tag_from_token-Recovers t), rw f at (tag_from_token-Recovers u))

abbrev pub starts_with_dollar : Text → Bool
starts_with_dollar [] = false
starts_with_dollar (c ∷ s) = c == b'$'

identifier_from_str-longer :
    (s : Text)
    → starts_with_dollar s ≡ true
    → length s < length (display_identifier (identifier_from_str s))
unfolding display_identifier identifier_from_str display_socket_plug
identifier_from_str-longer [] h = cc
identifier_from_str-longer (c ∷ []) h = rw h (omega arith)
identifier_from_str-longer (c ∷ d ∷ s) h = elim (Bool-cases (d == b'$')) [
  | inl q ↦ rw (h, q) (omega arith)
  | inr q ↦ rw (h, q) (omega arith)
]

identifier_from_str-plain :
    (s : Text) → starts_with_dollar s ≡ false → display_identifier (identifier_from_str s) ≡ s
unfolding display_identifier identifier_from_str
identifier_from_str-plain [] h = refl
identifier_from_str-plain (c ∷ []) h = rw h
identifier_from_str-plain (c ∷ d ∷ s) h = rw h

not_eq_of_longer : (s t : Text) → length t < length s → text_eq s t ≡ false
not_eq_of_longer s t h = elim (Bool-cases (text_eq s t)) [
  | inl e ↦ absurd (omega (arith, ap length (eq_of_text_eq s t e)))
  | inr e ↦ e
]

display_of_parts :
    (name : Text) (socket : Option SocketPlug)
    → display_identifier (record { ident = name; socket = socket }) ≡ display_name name socket
unfolding display_identifier
display_of_parts name socket = refl

-- Where `lookup_ident` reads a string as an identifier token, that identifier and the one that
-- `From<&str>` makes of the string are equal exactly when the string does not begin with `$`.
pub identifier_from_str-eq-lookup_ident :
    (s name : Text) (socket : Option SocketPlug)
    → lookup_ident s ≡ Token.ident name socket
    → identifier_eq (identifier_from_str s) (record { ident = name; socket = socket })
      ≡ not (starts_with_dollar s)
unfolding identifier_eq
identifier_from_str-eq-lookup_ident s name socket e =
    let shown = display_of_parts name socket ∙ lookup_ident-ident s name socket e in
    elim (Bool-cases (starts_with_dollar s)) [
      | inl h ↦
          rw (shown, h)
            (not_eq_of_longer (display_identifier (identifier_from_str s)) s
              (identifier_from_str-longer s h))
      | inr h ↦ rw (shown, h, identifier_from_str-plain s h) (text_eq_refl s)
    ]

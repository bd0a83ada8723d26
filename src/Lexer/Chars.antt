-- ===== src/Lexer/Chars.antt =====
-- src/lexer.rs: characters, byte offsets and slices. A `char` is its code point. A slice that does not
-- fall on character boundaries, or whose ends are out of order, panics: `none`.
use cddl.Prelude.{
  ℕ, ◌+◌, ◌-◌, ◌/◌, ◌%◌, Bool, ◌||◌, Option, none, some, List, [], ◌∷◌, ◌++◌, Text, leb, ltb,
  within, ◌==◌, if◌then◌else◌,
}
use cddl.Token.{Bytes}

abbrev pub utf8_len : ℕ → ℕ
utf8_len c = if ltb c 0x80 then 1 else if ltb c 0x800 then 2 else if ltb c 0x10000 then 3 else 4

abbrev pub byte_len : Text → ℕ
byte_len [] = 0
byte_len (c ∷ s) = utf8_len c + byte_len s

abbrev pub char_indices : ℕ → Text → List (ℕ × ℕ)
char_indices i [] = []
char_indices i (c ∷ s) = (i, c) ∷ char_indices (i + utf8_len c) s

-- UTF-8, the bytes of a `str`.
abbrev pub utf8_char : ℕ → Bytes
utf8_char c =
    if ltb c 0x80
    then c ∷ []
    else if ltb c 0x800
    then (0xc0 + c / 0x40) ∷ (0x80 + c % 0x40) ∷ []
    else if ltb c 0x10000
    then (0xe0 + c / 0x1000) ∷ (0x80 + c / 0x40 % 0x40) ∷ (0x80 + c % 0x40) ∷ []
    else (0xf0 + c / 0x40000)
      ∷ (0x80 + c / 0x1000 % 0x40)
      ∷ (0x80 + c / 0x40 % 0x40)
      ∷ (0x80 + c % 0x40)
      ∷ []

abbrev pub as_bytes : Text → Bytes
as_bytes [] = []
as_bytes (c ∷ s) = utf8_char c ++ as_bytes s

-- The text behind the first `n` bytes, and the text of the first `n` bytes.
abbrev pub drop_bytes : Text → ℕ → Option Text
drop_bytes [] n = if n == 0 then some [] else none
drop_bytes (c ∷ s) n =
    if n == 0
    then some (c ∷ s)
    else if leb (utf8_len c) n
    then drop_bytes s (n - utf8_len c)
    else none

abbrev pub cons_text : ℕ → Option Text → Option Text
cons_text c none = none
cons_text c (some s) = some (c ∷ s)

abbrev pub take_bytes : Text → ℕ → Option Text
take_bytes [] n = if n == 0 then some [] else none
take_bytes (c ∷ s) n =
    if n == 0
    then some []
    else if leb (utf8_len c) n
    then cons_text c (take_bytes s (n - utf8_len c))
    else none

-- `&s[a..b]`.
unfoldable pub slice : Text → ℕ → ℕ → Option Text
slice s a b =
    if leb a b then elim (drop_bytes s a) [ none ↦ none | some t ↦ take_bytes t (b - a) ] else none

-- `is_ascii_whitespace`.
abbrev pub is_ascii_whitespace : ℕ → Bool
is_ascii_whitespace c = c == b' ' || c == b'\t' || c == b'\n' || c == 0x0c || c == b'\r'

abbrev pub is_hexdigit : ℕ → Bool
is_hexdigit c = within b'0' b'9' c || within b'a' b'f' c || within b'A' b'F' c

-- The characters of text and byte strings, and of escapes.
abbrev pub is_schar : ℕ → Bool
is_schar c =
    within 0x20 0x21 c || within 0x23 0x5b c || within 0x5d 0x7e c || within 0x80 0x10fffd c

abbrev pub is_bchar : ℕ → Bool
is_bchar c =
    within 0x20 0x26 c || within 0x28 0x5b c || within 0x5d 0x7e c || within 0x80 0x10fffd c

abbrev pub is_escaped : ℕ → Bool
is_escaped c = within 0x20 0x7e c || within 0x80 0x10fffd c

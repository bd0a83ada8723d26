-- ===== src/Validator/Control/Dedent.antt =====
-- src/validator/control.rs: `dedent_str` and `dedent_bytes`, and the trimming of quotes.
pub mod Lines
use cddl.Prelude.{ℕ, Bool, true, false, List, [], ◌∷◌, ◌++◌, Text, ◌==◌, if◌then◌else◌, map}
use cddl.Prelude.Reply.{Reply, answered, ◌>>=◌}
use cddl.Token.{Bytes}
use cddl.Lexer.Chars.{as_bytes}
use cddl.Validator.Control.{Codecs, ControlError, invalid_utf8, or_refuse}

-- `trim_start_matches` and `trim_end_matches`, with a test of characters.
abbrev pub trim_start : (ℕ → Bool) → Text → Text
trim_start p [] = []
trim_start p (c ∷ s) = if p c then trim_start p s else c ∷ s

-- A character in front of a text whose end is trimmed.
abbrev pub cons_trimmed : (ℕ → Bool) → ℕ → Text → Text
cons_trimmed p c [] = if p c then [] else c ∷ []
cons_trimmed p c (d ∷ s) = c ∷ d ∷ s

abbrev pub trim_end : (ℕ → Bool) → Text → Text
trim_end p [] = []
trim_end p (c ∷ s) = cons_trimmed p c (trim_end p s)

unfoldable pub trim_quotes : Text → Text
trim_quotes s = trim_end (λ c. c == b'\'') (trim_start (λ c. c == b'\'') s)

-- A character in front of the first line.
abbrev pub onto_first : ℕ → List Text → List Text
onto_first c [] = (c ∷ []) ∷ []
onto_first c (l ∷ ls) = (c ∷ l) ∷ ls

-- `split('\n')`: one line more than there are newlines.
abbrev pub split_lines : Text → List Text
split_lines [] = [] ∷ []
split_lines (c ∷ s) = if c == b'\n' then [] ∷ split_lines s else onto_first c (split_lines s)

-- `join("\n")`.
abbrev pub join_lines : List Text → Text
join_lines [] = []
join_lines (l ∷ []) = l
join_lines (l ∷ m ∷ ls) = l ++ b'\n' ∷ join_lines (m ∷ ls)

module _ (x : Codecs) where
  open x use {from_utf8, is_whitespace}

  unfoldable pub dedent_str : Text → Text
  dedent_str source = join_lines (map (trim_start is_whitespace) (split_lines source))

  unfoldable pub dedent_bytes : Bytes → Bool → Reply ControlError Bytes
  unfolding dedent_str trim_quotes
  dedent_bytes source is_utf8_byte_string =
      or_refuse invalid_utf8 (from_utf8 source)
      >>= (λ s. answered (as_bytes (dedent_str (if is_utf8_byte_string then trim_quotes s else s))))

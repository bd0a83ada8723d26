-- ===== src/Validator/Control/Cat/Total.antt =====
-- src/validator/control.rs: `cat_operation` ends, and keeps the kind of its target.
use cddl.Prelude.{ℕ, ◌<◌, Bool, true, List, Text, ◌≡◌}
use cddl.Token.{Bytes}
use cddl.Ast.{Identifier, Type2, typename, Rule}
use cddl.Validator.DataTypes.Refers.{IsRanked}
use cddl.Validator.Literals.{is_string_literal}
use cddl.Validator.Control.{Codecs, Literals}
use cddl.Validator.Control.Cat

-- The literals that a target gives: texts for a text and for an unprefixed byte string, base 16 and base
-- 64 strings for their own kind, and any string literal for a name.
abbrev pub SameKind : Type2 → Type2 → Type 0
SameKind (Type2.text_value s) l = (t : Text) × (l ≡ Type2.text_value t)
SameKind (Type2.utf8_byte_string b) l = (t : Text) × (l ≡ Type2.text_value t)
SameKind (Type2.b16_byte_string b) l = (c : Bytes) × (l ≡ Type2.b16_byte_string c)
SameKind (Type2.b64_byte_string b) l = (c : Bytes) × (l ≡ Type2.b64_byte_string c)
SameKind (typename i args) l = is_string_literal l ≡ true
SameKind t l = ⊥

module _ (x : Codecs) (is_dedent : Bool) (rules : List Rule) (rank : Identifier → ℕ) (g : ℕ)
    (ranked : IsRanked rules rank) (low : (i : Identifier) → rank i < g) where
  open x use {from_utf8}

  abbrev others : ℕ → Type2 → Type2 → Literals
  others f t = Cat.cat_other x is_dedent rules f (Cat.cat_operation x is_dedent rules f t)

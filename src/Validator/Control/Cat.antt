-- ===== src/Validator/Control/Cat.antt =====
-- src/validator/control.rs: `cat_operation` and `abnf_from_complex_controller`. `is_dedent` tells `.det`
-- from `.cat`.
pub mod Kinds
pub mod Total
use cddl.Prelude.{
  ℕ, zero, suc, Bool, true, false, Option, none, some, List, [], ◌∷◌, ◌++◌, Text, head?,
  if◌then◌else◌,
}
use cddl.Prelude.Reply.{Reply, answered, refused, out_of_fuel, ◌>>=◌, run, gather}
use cddl.Token.{Bytes, ControlOperator}
use cddl.Lexer.Chars.{as_bytes}
use cddl.Ast.{
  Type1, type1, no_operator, operator, Type2, typename, parenthesized_type, RangeCtlOp, TypeExpr,
  type_choices, Rule,
}
use cddl.Validator.Literals.{string_literals_from_ident}
use cddl.Validator.Control.{
  Codecs, ControlError, not_a_string_literal, invalid_controller, invalid_target, invalid_utf8,
  invalid_base16, invalid_base64, Literals, or_refuse, literal, each_named,
}
use cddl.Validator.Control.Dedent.{dedent_str, dedent_bytes, trim_quotes}

-- A controller's choice with no operator; the others are passed over.
abbrev pub plain_operand : (Type2 → Literals) → Type1 → Literals
plain_operand f (type1 t no_operator) = f t
plain_operand f (type1 t (operator op u)) = answered []

module _ (x : Codecs) (is_dedent : Bool) where
  open x use {from_utf8, base16_decode, base16_encode_lower, base64url_decode, base64url_encode}

  -- Texts and bytes as they are for `.cat`, and without their indentation for `.det`.
  abbrev pub dedented : Text → Text
  dedented s = if is_dedent then dedent_str x s else s

  abbrev pub dedented_bytes : Bytes → Bool → Reply ControlError Bytes
  dedented_bytes b is_utf8 = if is_dedent then dedent_bytes x b is_utf8 else answered b

  abbrev pub text_literal : Text → Text → Literals
  text_literal value controller = literal (Type2.text_value (dedented value ++ dedented controller))

  -- A concatenation of base 16 digits, which must decode.
  abbrev pub b16_literal : Bytes → Literals
  b16_literal concat =
      or_refuse invalid_base16 (base16_decode concat)
      >>= (λ b. literal (Type2.b16_byte_string concat))

  abbrev pub b64_literal : Bytes → Literals
  b64_literal concat = literal (Type2.b64_byte_string (as_bytes (base64url_encode concat)))

  -- The controllers of a text, of base 16 digits, and of a base 64 string. The other controllers are
  -- passed to `other`.
  unfoldable pub cat_text : (Type2 → Literals) → Text → Type2 → Literals
  unfolding dedent_str trim_quotes
  cat_text other value (Type2.text_value c) = text_literal value c
  cat_text other value (Type2.utf8_byte_string c) =
      or_refuse invalid_utf8 (from_utf8 c) >>= (λ c. text_literal value (trim_quotes c))
  cat_text other value (Type2.b16_byte_string c) =
      or_refuse invalid_base16 (base16_decode c)
      >>= (λ c. or_refuse invalid_utf8 (from_utf8 c))
      >>= (λ c. text_literal value c)
  cat_text other value (Type2.b64_byte_string c) =
      or_refuse invalid_base64 (base64url_decode c)
      >>= (λ c. or_refuse invalid_utf8 (from_utf8 c))
      >>= (λ c. text_literal value c)
  cat_text other value c = other c

  unfoldable pub cat_b16 : (Type2 → Literals) → Bytes → Type2 → Literals
  unfolding dedent_str dedent_bytes
  cat_b16 other value (Type2.text_value c) =
      dedented_bytes value false
      >>= (λ v. b16_literal (v ++ as_bytes (base16_encode_lower (as_bytes (dedented c)))))
  cat_b16 other value (Type2.utf8_byte_string c) = dedented_bytes c true >>= (λ c.
      dedented_bytes value false >>= (λ v. b16_literal (v ++ as_bytes (base16_encode_lower c))))
  cat_b16 other value (Type2.b16_byte_string c) =
      dedented_bytes value false >>= (λ v. dedented_bytes c false >>= (λ c. b16_literal (v ++ c)))
  cat_b16 other value (Type2.b64_byte_string c) =
      or_refuse invalid_base64 (base64url_decode c) >>= (λ c.
        dedented_bytes value false
        >>= (λ v. b16_literal (v ++ as_bytes (dedented (base16_encode_lower c)))))
  cat_b16 other value c = other c

  unfoldable pub cat_b64 : (Type2 → Literals) → Bytes → Type2 → Literals
  unfolding dedent_str dedent_bytes
  cat_b64 other value (Type2.text_value c) =
      or_refuse invalid_base64 (base64url_decode value)
      >>= (λ v. dedented_bytes v false >>= (λ v. b64_literal (v ++ as_bytes (dedented c))))
  cat_b64 other value (Type2.utf8_byte_string c) =
      or_refuse invalid_base64 (base64url_decode value) >>= (λ v.
        dedented_bytes v false >>= (λ v. dedented_bytes c true >>= (λ c. b64_literal (v ++ c))))
  cat_b64 other value (Type2.b16_byte_string c) =
      or_refuse invalid_base64 (base64url_decode value) >>= (λ v.
        or_refuse invalid_base16 (base16_decode c) >>= (λ c.
          dedented_bytes v false >>= (λ v. dedented_bytes c false >>= (λ c. b64_literal (v ++ c)))))
  cat_b64 other value (Type2.b64_byte_string c) =
      or_refuse invalid_base64 (base64url_decode value) >>= (λ v.
        or_refuse invalid_base64 (base64url_decode c) >>= (λ c.
          dedented_bytes v false >>= (λ v. dedented_bytes c false >>= (λ c. b64_literal (v ++ c)))))
  cat_b64 other value c = other c

  module _ (rules : List Rule) where
    -- The controllers that are not literals, which all targets treat alike.
    unfoldable pub cat_other : ℕ → (Type2 → Literals) → Type2 → Literals
    cat_other f rec (typename ident args) =
        each_named (not_a_string_literal ident) rec (string_literals_from_ident rules f ident)
    cat_other f rec (parenthesized_type pt) = gather (plain_operand rec) (type_choices pt)
    cat_other f rec c = refused invalid_controller

    -- The first literal behind a target's name is concatenated; a target in parentheses is refused even
    -- after its first choice was concatenated.
    unfoldable pub cat_target : ℕ → (Type2 → Type2 → Literals) → Type2 → Type2 → Literals
    unfolding cat_text cat_b16 cat_b64 cat_other trim_quotes
    cat_target f rec (Type2.text_value value) c =
        cat_text (cat_other f (rec (Type2.text_value value))) value c
    cat_target f rec (typename ident args) c =
        run (string_literals_from_ident rules f ident)
        >>= (λ ts. elim (head? ts) [ some t ↦ rec t c | none ↦ refused invalid_controller ])
    cat_target f rec (parenthesized_type pt) c = elim (type_choices pt) [
      | type1 t no_operator ∷ ts ↦ rec t c >>= (λ ls. refused invalid_target)
      | _ ↦ refused invalid_target
    ]
    cat_target f rec (Type2.utf8_byte_string value) c =
        or_refuse invalid_utf8 (from_utf8 value)
        >>= (λ v. cat_text (cat_other f (rec (Type2.utf8_byte_string value))) (trim_quotes v) c)
    cat_target f rec (Type2.b16_byte_string value) c =
        cat_b16 (cat_other f (rec (Type2.b16_byte_string value))) value c
    cat_target f rec (Type2.b64_byte_string value) c =
        cat_b64 (cat_other f (rec (Type2.b64_byte_string value))) value c
    cat_target f rec t c = refused invalid_target

    unfoldable pub cat_operation : ℕ → Type2 → Type2 → Literals
    unfolding cat_target
    cat_operation zero target controller = out_of_fuel
    cat_operation (suc f) target controller = cat_target f (cat_operation f) target controller

-- The first choice of an `.abnf` controller must itself be a concatenation.
unfoldable pub abnf_from_complex_controller : Codecs → List Rule → ℕ → TypeExpr → Literals
unfolding cat_operation
abnf_from_complex_controller x rules f controller = elim (type_choices controller) [
  | type1 t (operator (RangeCtlOp.ctl_op ControlOperator.cat) u) ∷ ts ↦
      cat_operation x false rules f t u
  | type1 t (operator (RangeCtlOp.ctl_op ControlOperator.det) u) ∷ ts ↦
      cat_operation x true rules f t u
  | _ ↦ refused invalid_controller
]

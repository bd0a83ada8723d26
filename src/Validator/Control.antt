-- ===== src/Validator/Control.antt =====
-- src/validator/control.rs: what the operators `.cat`, `.det` and `.plus` share. The texts of the errors
-- are left out, and the functions of other crates and on floats are the parameters of `Codecs`.
pub mod Dedent
pub mod Cat
pub mod Plus
pub mod Named
pub mod Operands
use cddl.Prelude.{ℕ, Bool, Option, none, some, List, [], ◌∷◌, Text, is_empty, if◌then◌else◌}
use cddl.Prelude.Int.{ℤ}
use cddl.Prelude.Fuel.{Run}
use cddl.Prelude.Reply.{Reply, answered, refused, ◌>>=◌, run, gather}
use cddl.Token.{F64, Bytes}
use cddl.Ast.{Identifier, Type1, type1, no_operator, operator, Type2, TypeExpr, type_choices}

-- `str::from_utf8`, `base16::decode`, `base16::encode_lower`, `BASE64URL.decode` and `.encode`,
-- `char::is_whitespace`, and on floats `+` and the casts from and to `isize`.
pub record Codecs : Type 0 where
  pub from_utf8 : Bytes → Option Text
  pub base16_decode : Bytes → Option Bytes
  pub base16_encode_lower : Bytes → Text
  pub base64url_decode : Bytes → Option Bytes
  pub base64url_encode : Bytes → Text
  pub is_whitespace : ℕ → Bool
  pub f64_add : F64 → F64 → F64
  pub f64_as_isize : F64 → ℤ
  pub isize_as_f64 : ℤ → F64

-- The kinds of messages.
pub data ControlError : Type 0 where
  not_a_string_literal not_a_numeric_value : Identifier → ControlError
  invalid_controller invalid_target nested_operator : ControlError
  invalid_utf8 invalid_base16 invalid_base64 : ControlError

abbrev pub Literals : Type 0
Literals = Reply ControlError (List Type2)

abbrev pub or_refuse : {A : Type 0} → ControlError → Option A → Reply ControlError A
or_refuse e none = refused e
or_refuse e (some a) = answered a

abbrev pub literal : Type2 → Literals
literal t = answered (t ∷ [])

-- The loop over the literals of a controller's name, where there are any.
abbrev pub each_named : ControlError → (Type2 → Literals) → Run (List Type2) → Literals
each_named e f ls = run ls >>= (λ ts. if is_empty ts then refused e else gather f ts)

-- ===== src/Token.antt =====
-- src/token.rs: the types of tokens. A `&str` is the list of its code points, a byte slice the list
-- of its bytes, a `usize` a number below 2 ^ 64, an `isize` an integer, and an `f64` its 64 bits.
-- Features are the default ones (with additional-controls), on a 64-bit target.
pub mod Lookup
pub mod Display
use cddl.Prelude.{ℕ, Bool, Option, Text, List}
use cddl.Prelude.Int.{ℤ}

abbrev pub Usize : Type 0
Usize = ℕ

abbrev pub F64 : Type 0
F64 = ℕ

abbrev pub Bytes : Type 0
Bytes = List ℕ

pub data SocketPlug : Type 0 where
  type group : SocketPlug

pub data ControlOperator : Type 0 where
  size bits regexp cbor cborseq within and lt le gt ge eq ne default pcre : ControlOperator
  cat det plus abnf abnfb feature : ControlOperator

pub data ByteValue : Type 0 where
  utf8 : Bytes → ByteValue
  b16 : Bytes → ByteValue
  b64 : Bytes → ByteValue

pub data Value : Type 0 where
  int : ℤ → Value
  uint : Usize → Value
  float : F64 → Value
  text : Text → Value
  byte : ByteValue → Value

pub data RangeValue : Type 0 where
  ident : Text → Option SocketPlug → RangeValue
  int : ℤ → RangeValue
  uint : Usize → RangeValue
  float : F64 → RangeValue

pub data Token : Type 0 where
  illegal : Text → Token
  eof : Token
  ident : Text → Option SocketPlug → Token
  value : Value → Token
  tag : Option ℕ → Option Usize → Token
  assign optional asterisk one_or_more unwrap comma colon : Token
  comment : Text → Token
  t_choice g_choice t_choice_alt g_choice_alt arrow_map cut : Token
  range_op : Bool → Token
  range : RangeValue → RangeValue → Bool → Token
  l_paren r_paren l_brace r_brace l_bracket r_bracket : Token
  l_angle_bracket r_angle_bracket : Token
  control_operator : ControlOperator → Token
  g_to_choice : Token
  false_literal true_literal bool nil null uint nint int : Token
  float16 float32 float64 float16_32 float32_64 float : Token
  bstr tstr any bytes text tdate time number biguint bignint bigint : Token
  integer unsigned decfrac bigfloat eb64url eb64legacy eb16 encoded_cbor : Token
  uri b64url b64legacy regexp mime_message cbor_any undefined newline : Token

-- ===== src/Token/Display.antt =====
-- src/token.rs: the `Display` instances. `none` is a `fmt::Error`. The decimal text of an `f64` and
-- the UTF-8 decoder are the standard library's, taken as parameters.
use cddl.Prelude.{Text, codes, ℕ, Bool, [], ◌∷◌, ◌++◌, Option, none, some, ◌==◌, if◌then◌else◌}
use cddl.Prelude.Decimal.{show_ℕ, show_ℤ}
use cddl.Token.{F64, Bytes, SocketPlug, ControlOperator, ByteValue, Value, RangeValue, Token}

unfoldable pub display_socket_plug : SocketPlug → Text
display_socket_plug SocketPlug.type = codes "$"
display_socket_plug SocketPlug.group = codes "$$"

unfoldable pub display_control_operator : ControlOperator → Text
display_control_operator ControlOperator.size = codes ".size"
display_control_operator ControlOperator.bits = codes ".bits"
display_control_operator ControlOperator.regexp = codes ".regexp"
display_control_operator ControlOperator.pcre = codes ".pcre"
display_control_operator ControlOperator.cbor = codes ".cbor"
display_control_operator ControlOperator.cborseq = codes ".cborseq"
display_control_operator ControlOperator.within = codes ".within"
display_control_operator ControlOperator.cat = codes ".cat"
display_control_operator ControlOperator.det = codes ".det"
display_control_operator ControlOperator.plus = codes ".plus"
display_control_operator ControlOperator.abnf = codes ".abnf"
display_control_operator ControlOperator.abnfb = codes ".abnfb"
display_control_operator ControlOperator.feature = codes ".feature"
display_control_operator ControlOperator.and = codes ".and"
display_control_operator ControlOperator.lt = codes ".lt"
display_control_operator ControlOperator.le = codes ".le"
display_control_operator ControlOperator.gt = codes ".gt"
display_control_operator ControlOperator.ge = codes ".ge"
display_control_operator ControlOperator.eq = codes ".eq"
display_control_operator ControlOperator.ne = codes ".ne"
display_control_operator ControlOperator.default = codes ".default"

-- `{}{}` of an optional socket and a name.
abbrev pub display_name : Text → Option SocketPlug → Text
display_name s none = s
display_name s (some sp) = display_socket_plug sp ++ s

-- `str::replace(' ', "")`.
abbrev pub drop_spaces : Text → Text
drop_spaces [] = []
drop_spaces (c ∷ s) = if c == b' ' then drop_spaces s else c ∷ drop_spaces s

abbrev pub quoted : Text → Option Text → Option Text
quoted opening none = none
quoted opening (some s) = some (opening ++ (s ++ codes "'"))

abbrev pub map_text : (Text → Text) → Option Text → Option Text
map_text f none = none
map_text f (some s) = some (f s)

abbrev pub display_tag : Option ℕ → Option ℕ → Text
display_tag none t = codes "#"
display_tag (some m) none = codes "#" ++ show_ℕ m
display_tag (some m) (some t) = codes "#" ++ (show_ℕ m ++ (codes "." ++ show_ℕ t))

module _ (show_f64 : F64 → Text) (from_utf8 : Bytes → Option Text) where
  unfoldable pub display_range_value : RangeValue → Text
  display_range_value (RangeValue.ident s socket) = s
  display_range_value (RangeValue.int i) = show_ℤ i
  display_range_value (RangeValue.uint n) = show_ℕ n
  display_range_value (RangeValue.float f) = show_f64 f

  unfoldable pub display_byte_value : ByteValue → Option Text
  display_byte_value (ByteValue.utf8 b) = quoted (codes "'") (from_utf8 b)
  display_byte_value (ByteValue.b16 b) = quoted (codes "h'") (map_text drop_spaces (from_utf8 b))
  display_byte_value (ByteValue.b64 b) = quoted (codes "b64'") (map_text drop_spaces (from_utf8 b))

  unfoldable pub display_value : Value → Option Text
  unfolding display_byte_value
  display_value (Value.text s) = some (codes "\"" ++ (s ++ codes "\""))
  display_value (Value.int i) = some (show_ℤ i)
  display_value (Value.uint n) = some (show_ℕ n)
  display_value (Value.float f) = some (show_f64 f)
  display_value (Value.byte b) = display_byte_value b

  -- A range whose lower bound is an identifier is written with spaces.
  abbrev display_range : RangeValue → RangeValue → Bool → Text
  display_range (RangeValue.ident s socket) u inclusive =
      s ++ ((if inclusive then codes " .. " else codes " ... ") ++ display_range_value u)
  display_range l u inclusive =
      display_range_value l
      ++ ((if inclusive then codes ".." else codes "...") ++ display_range_value u)

  unfoldable pub display_token : Token → Option Text
  unfolding display_range_value display_value display_control_operator display_socket_plug
  display_token (Token.ident s socket) = some (display_name s socket)
  display_token (Token.illegal s) = some (codes "ILLEGAL(" ++ (s ++ codes ")"))
  display_token Token.assign = some (codes "=")
  display_token Token.one_or_more = some (codes "+")
  display_token Token.optional = some (codes "?")
  display_token Token.asterisk = some (codes "*")
  display_token Token.l_paren = some (codes "(")
  display_token Token.r_paren = some (codes ")")
  display_token Token.l_brace = some (codes "{")
  display_token Token.r_brace = some (codes "}")
  display_token Token.l_bracket = some (codes "[")
  display_token Token.r_bracket = some (codes "]")
  display_token Token.t_choice = some (codes "/")
  display_token Token.t_choice_alt = some (codes "/=")
  display_token Token.g_choice_alt = some (codes "//=")
  display_token Token.comma = some (codes ",")
  display_token (Token.comment s) = some (codes ";" ++ s)
  display_token Token.colon = some (codes ":")
  display_token Token.cut = some (codes "^")
  display_token Token.eof = some []
  display_token Token.tstr = some (codes "tstr")
  display_token Token.l_angle_bracket = some (codes "<")
  display_token Token.r_angle_bracket = some (codes ">")
  display_token Token.int = some (codes "int")
  display_token Token.uint = some (codes "uint")
  display_token Token.arrow_map = some (codes "=>")
  display_token (Token.control_operator co) = some (display_control_operator co)
  display_token Token.number = some (codes "number")
  display_token Token.bstr = some (codes "bstr")
  display_token Token.bytes = some (codes "bytes")
  display_token Token.g_choice = some (codes "//")
  display_token Token.true_literal = some (codes "true")
  display_token Token.g_to_choice = some (codes "&")
  display_token (Token.value v) = display_value v
  display_token Token.regexp = some (codes "regexp")
  display_token (Token.range_op inclusive) = some (if inclusive then codes ".." else codes "...")
  display_token (Token.range l u inclusive) = some (display_range l u inclusive)
  display_token (Token.tag m t) = some (display_tag m t)
  display_token _ = some []

-- ===== src/Token/Lookup.antt =====
-- src/token.rs: the literals of tokens, `lookup_ident`, `lookup_control_from_str`,
-- `in_standard_prelude`, `closing_delimiter`, and the socket prefix. The arms of a `match` on string
-- literals are a table in the order of the arms.
pub mod Laws
use cddl.Prelude.{Text, codes, match_str, ℕ, List, [], ◌∷◌, Option, none, some, ◌==◌, if◌then◌else◌}
use cddl.Token.{SocketPlug, ControlOperator, Token, RangeValue, Value}

abbrev pub control_arms : List (Text × ControlOperator)
control_arms =
    (codes ".size", ControlOperator.size)
    ∷ (codes ".bits", ControlOperator.bits)
    ∷ (codes ".regexp", ControlOperator.regexp)
    ∷ (codes ".cbor", ControlOperator.cbor)
    ∷ (codes ".cborseq", ControlOperator.cborseq)
    ∷ (codes ".within", ControlOperator.within)
    ∷ (codes ".and", ControlOperator.and)
    ∷ (codes ".lt", ControlOperator.lt)
    ∷ (codes ".le", ControlOperator.le)
    ∷ (codes ".gt", ControlOperator.gt)
    ∷ (codes ".ge", ControlOperator.ge)
    ∷ (codes ".eq", ControlOperator.eq)
    ∷ (codes ".ne", ControlOperator.ne)
    ∷ (codes ".default", ControlOperator.default)
    ∷ (codes ".pcre", ControlOperator.pcre)
    ∷ (codes ".cat", ControlOperator.cat)
    ∷ (codes ".det", ControlOperator.det)
    ∷ (codes ".plus", ControlOperator.plus)
    ∷ (codes ".abnf", ControlOperator.abnf)
    ∷ (codes ".abnfb", ControlOperator.abnfb)
    ∷ (codes ".feature", ControlOperator.feature)
    ∷ []

unfoldable pub lookup_control_from_str : Text → Option ControlOperator
lookup_control_from_str s = match_str s control_arms

abbrev pub prelude_arms : List (Text × Token)
prelude_arms =
    (codes "false", Token.false_literal)
    ∷ (codes "true", Token.true_literal)
    ∷ (codes "bool", Token.bool)
    ∷ (codes "nil", Token.nil)
    ∷ (codes "null", Token.null)
    ∷ (codes "uint", Token.uint)
    ∷ (codes "nint", Token.nint)
    ∷ (codes "int", Token.int)
    ∷ (codes "float16", Token.float16)
    ∷ (codes "float32", Token.float32)
    ∷ (codes "float64", Token.float64)
    ∷ (codes "float16-32", Token.float16_32)
    ∷ (codes "float32-64", Token.float32_64)
    ∷ (codes "float", Token.float)
    ∷ (codes "bstr", Token.bstr)
    ∷ (codes "tstr", Token.tstr)
    ∷ (codes "any", Token.any)
    ∷ (codes "bytes", Token.bytes)
    ∷ (codes "text", Token.text)
    ∷ (codes "tdate", Token.tdate)
    ∷ (codes "time", Token.time)
    ∷ (codes "number", Token.number)
    ∷ (codes "biguint", Token.biguint)
    ∷ (codes "bignint", Token.bignint)
    ∷ (codes "bigint", Token.bigint)
    ∷ (codes "integer", Token.integer)
    ∷ (codes "unsigned", Token.unsigned)
    ∷ (codes "decfrac", Token.decfrac)
    ∷ (codes "bigfloat", Token.bigfloat)
    ∷ (codes "eb64url", Token.eb64url)
    ∷ (codes "eb64legacy", Token.eb64legacy)
    ∷ (codes "eb16", Token.eb16)
    ∷ (codes "encoded-cbor", Token.encoded_cbor)
    ∷ (codes "uri", Token.uri)
    ∷ (codes "b64url", Token.b64url)
    ∷ (codes "b64legacy", Token.b64legacy)
    ∷ (codes "regexp", Token.regexp)
    ∷ (codes "mime-message", Token.mime_message)
    ∷ (codes "cbor-any", Token.cbor_any)
    ∷ (codes "undefined", Token.undefined)
    ∷ []

-- The catch-all arm: `$` and `$$` are taken off the front.
unfoldable pub ident_token : Text → Token
ident_token [] = Token.ident [] none
ident_token (c ∷ []) =
    if c == b'$' then Token.ident [] (some SocketPlug.type) else Token.ident (c ∷ []) none
ident_token (c ∷ d ∷ s) =
    if c == b'$'
    then (if d == b'$'
        then Token.ident s (some SocketPlug.group)
        else Token.ident (d ∷ s) (some SocketPlug.type))
    else Token.ident (c ∷ d ∷ s) none

unfoldable pub lookup_ident : Text → Token
unfolding ident_token
lookup_ident s = elim (match_str s prelude_arms) [ some t ↦ t | none ↦ ident_token s ]

unfoldable pub in_standard_prelude : Token → Option Text
in_standard_prelude Token.any = some (codes "any")
in_standard_prelude Token.uint = some (codes "uint")
in_standard_prelude Token.nint = some (codes "nint")
in_standard_prelude Token.int = some (codes "int")
in_standard_prelude Token.bstr = some (codes "bstr")
in_standard_prelude Token.bytes = some (codes "bytes")
in_standard_prelude Token.tstr = some (codes "tstr")
in_standard_prelude Token.text = some (codes "text")
in_standard_prelude Token.tdate = some (codes "tdate")
in_standard_prelude Token.time = some (codes "time")
in_standard_prelude Token.number = some (codes "number")
in_standard_prelude Token.biguint = some (codes "biguint")
in_standard_prelude Token.bignint = some (codes "bignint")
in_standard_prelude Token.bigint = some (codes "bigint")
in_standard_prelude Token.integer = some (codes "integer")
in_standard_prelude Token.unsigned = some (codes "unsigned")
in_standard_prelude Token.decfrac = some (codes "decfrac")
in_standard_prelude Token.bigfloat = some (codes "bigfloat")
in_standard_prelude Token.eb64url = some (codes "eb64url")
in_standard_prelude Token.eb64legacy = some (codes "eb64legacy")
in_standard_prelude Token.eb16 = some (codes "eb16")
in_standard_prelude Token.encoded_cbor = some (codes "encoded-cbor")
in_standard_prelude Token.uri = some (codes "uri")
in_standard_prelude Token.b64url = some (codes "b64url")
in_standard_prelude Token.b64legacy = some (codes "b64legacy")
in_standard_prelude Token.regexp = some (codes "regexp")
in_standard_prelude Token.mime_message = some (codes "mime-message")
in_standard_prelude Token.cbor_any = some (codes "cbor-any")
in_standard_prelude Token.float16 = some (codes "float16")
in_standard_prelude Token.float32 = some (codes "float32")
in_standard_prelude Token.float64 = some (codes "float64")
in_standard_prelude Token.float16_32 = some (codes "float16-32")
in_standard_prelude Token.float32_64 = some (codes "float32-64")
in_standard_prelude Token.float = some (codes "float")
in_standard_prelude Token.false_literal = some (codes "false")
in_standard_prelude Token.true_literal = some (codes "true")
in_standard_prelude Token.bool = some (codes "bool")
in_standard_prelude Token.nil = some (codes "nil")
in_standard_prelude Token.null = some (codes "null")
in_standard_prelude Token.undefined = some (codes "undefined")
in_standard_prelude _ = none

-- `SocketPlug::from_str`; `none` is its error.
unfoldable pub socket_plug_from_str : Text → Option SocketPlug
socket_plug_from_str [] = none
socket_plug_from_str (c ∷ []) = if c == b'$' then some SocketPlug.type else none
socket_plug_from_str (c ∷ d ∷ s) =
    if c == b'$' then some (if d == b'$' then SocketPlug.group else SocketPlug.type) else none

-- `RangeValue::try_from`; `none` is its error.
unfoldable pub range_value_try_from : Token → Option RangeValue
range_value_try_from (Token.ident s socket) = some (RangeValue.ident s socket)
range_value_try_from (Token.value (Value.int i)) = some (RangeValue.int i)
range_value_try_from (Token.value (Value.uint n)) = some (RangeValue.uint n)
range_value_try_from (Token.value (Value.float f)) = some (RangeValue.float f)
range_value_try_from _ = none

-- `RangeValue::as_value`.
unfoldable pub as_value : RangeValue → Option Value
as_value (RangeValue.uint n) = some (Value.uint n)
as_value (RangeValue.float f) = some (Value.float f)
as_value _ = none

unfoldable pub closing_delimiter : Token → Option Token
closing_delimiter Token.l_brace = some Token.r_brace
closing_delimiter Token.l_bracket = some Token.r_bracket
closing_delimiter Token.l_paren = some Token.r_paren
closing_delimiter Token.l_angle_bracket = some Token.r_angle_bracket
closing_delimiter _ = none

-- ===== src/Parser/Discriminant.antt =====
-- `mem::discriminant` of a token: the place of its variant in the `enum` of src/token.rs.
use cddl.Prelude.{ℕ}
use cddl.Token.{Token}

unfoldable pub discriminant : Token → ℕ
discriminant (Token.illegal s) = 0
discriminant Token.eof = 1
discriminant (Token.ident s socket) = 2
discriminant (Token.value v) = 3
discriminant (Token.tag mt constraint) = 4
discriminant Token.assign = 5
discriminant Token.optional = 6
discriminant Token.asterisk = 7
discriminant Token.one_or_more = 8
discriminant Token.unwrap = 9
discriminant Token.comma = 10
discriminant Token.colon = 11
discriminant (Token.comment s) = 12
discriminant Token.t_choice = 13
discriminant Token.g_choice = 14
discriminant Token.t_choice_alt = 15
discriminant Token.g_choice_alt = 16
discriminant Token.arrow_map = 17
discriminant Token.cut = 18
discriminant (Token.range_op b) = 19
discriminant (Token.range lower upper b) = 20
discriminant Token.l_paren = 21
discriminant Token.r_paren = 22
discriminant Token.l_brace = 23
discriminant Token.r_brace = 24
discriminant Token.l_bracket = 25
discriminant Token.r_bracket = 26
discriminant Token.l_angle_bracket = 27
discriminant Token.r_angle_bracket = 28
discriminant (Token.control_operator co) = 29
discriminant Token.g_to_choice = 30
discriminant Token.false_literal = 31
discriminant Token.true_literal = 32
discriminant Token.bool = 33
discriminant Token.nil = 34
discriminant Token.null = 35
discriminant Token.uint = 36
discriminant Token.nint = 37
discriminant Token.int = 38
discriminant Token.float16 = 39
discriminant Token.float32 = 40
discriminant Token.float64 = 41
discriminant Token.float16_32 = 42
discriminant Token.float32_64 = 43
discriminant Token.float = 44
discriminant Token.bstr = 45
discriminant Token.tstr = 46
discriminant Token.any = 47
discriminant Token.bytes = 48
discriminant Token.text = 49
discriminant Token.tdate = 50
discriminant Token.time = 51
discriminant Token.number = 52
discriminant Token.biguint = 53
discriminant Token.bignint = 54
discriminant Token.bigint = 55
discriminant Token.integer = 56
discriminant Token.unsigned = 57
discriminant Token.decfrac = 58
discriminant Token.bigfloat = 59
discriminant Token.eb64url = 60
discriminant Token.eb64legacy = 61
discriminant Token.eb16 = 62
discriminant Token.encoded_cbor = 63
discriminant Token.uri = 64
discriminant Token.b64url = 65
discriminant Token.b64legacy = 66
discriminant Token.regexp = 67
discriminant Token.mime_message = 68
discriminant Token.cbor_any = 69
discriminant Token.undefined = 70
discriminant Token.newline = 71

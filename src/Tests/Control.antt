-- ===== src/Tests/Control.antt =====
-- The control operators on concrete operands, with the other crates' functions given for plain text.
use cddl.Prelude.{◌-◌, ◌^◌, ◌<◌, true, some, map, codes, ◌≡◌, refl, arith}
use cddl.Prelude.Int.{pos, negsuc}
use cddl.Prelude.Reply.Laws.{Concludes, Each}
use cddl.Lexer.Chars.{is_ascii_whitespace}
use cddl.Ast.{
  Identifier, type1, operator, RangeCtlOp, Type2, typename, parenthesized_type, no_generic_args,
  TypeExpr, no_type_choices, type_choice,
}
use cddl.Token.{ControlOperator}
use cddl.Validator.Control.{Codecs, literal}
use cddl.Validator.Control.Dedent.{dedent_str, split_lines, trim_start}
use cddl.Validator.Control.Dedent.Lines.{split_lines-dedent_str}
use cddl.Validator.Control.Plus.{plus_operation}
use cddl.Validator.Control.Plus.Bounds.{plus_operation-negative}
use cddl.Validator.Control.Plus.Sums.{SumOf}
use cddl.Validator.Control.Plus.Laws.{plus_operation-SumOf}
use cddl.Tests.Grammar.{name, plain, grammar, rank, grammar-IsRanked}

-- Texts are their bytes, and the encodings leave them alone.
abbrev plain_codecs : Codecs
plain_codecs = record {
  from_utf8 = λ b. some b;
  base16_decode = λ b. some b;
  base16_encode_lower = λ b. b;
  base64url_decode = λ b. some b;
  base64url_encode = λ b. b;
  is_whitespace = is_ascii_whitespace;
  f64_add = λ a b. a;
  f64_as_isize = λ v. pos 0;
  isize_as_f64 = λ z. 0;
}

dedents : dedent_str plain_codecs (codes "  a\n b") ≡ codes "a\nb"
unfolding dedent_str
dedents = refl

split_lines-dedent_str_example :
    (split_lines (dedent_str plain_codecs (codes "  a\n b"))
      ≡ map (trim_start is_ascii_whitespace) (split_lines (codes "  a\n b")))
    × (dedent_str plain_codecs (dedent_str plain_codecs (codes "  a\n b"))
        ≡ dedent_str plain_codecs (codes "  a\n b"))
split_lines-dedent_str_example = split_lines-dedent_str plain_codecs (codes "  a\n b")

-- The rank of every name is below 3.
below_3 : (i : Identifier) → rank i < 3
below_3 i = ground arith

-- ("x" / a)
abbrev choices : TypeExpr
choices =
    type_choice (plain (Type2.text_value (codes "x")))
      (type_choice (plain (typename (name "a") no_generic_args)) no_type_choices)

-- (a / 2 .plus 3)
abbrev sums : TypeExpr
sums = type_choice (plain (typename (name "a") no_generic_args)) (
    type_choice
      (type1 (Type2.uint_value 2)
        (operator (RangeCtlOp.ctl_op ControlOperator.plus) (Type2.uint_value 3)))
      no_type_choices)

plus_operation-SumOf_example :
    Concludes
      (true ≡ true)
      (Each (SumOf grammar (Type2.uint_value 1)))
      (plus_operation plain_codecs true grammar 9 (Type2.uint_value 1) (parenthesized_type sums))
plus_operation-SumOf_example =
    plus_operation-SumOf plain_codecs true grammar rank 3 grammar-IsRanked below_3 9
      (Type2.uint_value 1) (parenthesized_type sums) (omega arith)

plus_operation-negative_example :
    plus_operation plain_codecs true grammar 1 (Type2.uint_value 1) (Type2.int_value (negsuc 2))
    ≡ literal (Type2.uint_value (2 ^ 64 - 2))
plus_operation-negative_example =
    plus_operation-negative plain_codecs true grammar 0 1 2 (omega arith) (omega arith)

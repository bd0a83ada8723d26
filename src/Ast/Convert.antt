-- ===== src/Ast/Convert.antt =====
-- src/ast/mod.rs: the `From` instances, the tags of the standard prelude, and the small queries on
-- the tree.
pub mod Laws
pub mod Values
use cddl.Prelude.{
  ℕ, Bool, true, false, Option, none, some, Text, codes, ◌==◌, if◌then◌else◌, [], ◌∷◌, List,
}
use cddl.Prelude.Int.{ℤ}
use cddl.Prelude.Outcome.{Outcome, returned, panicked}
use cddl.Token.{F64, Usize, SocketPlug, ByteValue, Value, RangeValue, Token}
use cddl.Token.Lookup.{in_standard_prelude}
use cddl.Ast.{
  Identifier, Type1, MaybeOperator, no_operator, Type2, MaybeGenericArgs, no_generic_args, TypeExpr,
  no_type_choices, type_choice, type1, Group, no_group_choices, group_choice, GroupChoice,
  no_group_entries, group_entry, GroupEntry, typename, Rule, display_identifier,
}

-- `From<&str>`: the socket is read off, and the `$` signs stay in the name.
unfoldable pub identifier_from_str : Text → Identifier
identifier_from_str [] = record { ident = []; socket = none }
identifier_from_str (c ∷ []) = record {
  ident = c ∷ [];
  socket = if c == b'$' then some SocketPlug.type else none;
}
identifier_from_str (c ∷ d ∷ s) = record {
  ident = c ∷ d ∷ s;
  socket =
      if c == b'$' then some (if d == b'$' then SocketPlug.group else SocketPlug.type) else none;
}

unfoldable pub identifier_from_token : Token → Identifier
unfolding identifier_from_str
identifier_from_token t = elim (in_standard_prelude t) [
  | some s ↦ identifier_from_str s
  | none ↦ identifier_from_str []
]

unfoldable pub type2_from_value : Value → Type2
type2_from_value (Value.text s) = Type2.text_value s
type2_from_value (Value.int i) = Type2.int_value i
type2_from_value (Value.float f) = Type2.float_value f
type2_from_value (Value.uint n) = Type2.uint_value n
type2_from_value (Value.byte (ByteValue.b16 b)) = Type2.b16_byte_string b
type2_from_value (Value.byte (ByteValue.b64 b)) = Type2.b64_byte_string b
type2_from_value (Value.byte (ByteValue.utf8 b)) = Type2.utf8_byte_string b

unfoldable pub type1_from_value : Value → Type1
unfolding type2_from_value
type1_from_value v = type1 (type2_from_value v) no_operator

unfoldable pub type2_from_range_value : RangeValue → Type2
type2_from_range_value (RangeValue.ident s socket) =
    typename (record { ident = s; socket = socket }) no_generic_args
type2_from_range_value (RangeValue.int i) = Type2.int_value i
type2_from_range_value (RangeValue.uint n) = Type2.uint_value n
type2_from_range_value (RangeValue.float f) = Type2.float_value f

unfoldable pub type2_from_type1 : Type1 → Type2
type2_from_type1 t = Type2.parenthesized_type (type_choice t no_type_choices)

unfoldable pub type2_from_byte_value : ByteValue → Type2
type2_from_byte_value (ByteValue.utf8 b) = Type2.utf8_byte_string b
type2_from_byte_value (ByteValue.b16 b) = Type2.b16_byte_string b
type2_from_byte_value (ByteValue.b64 b) = Type2.b64_byte_string b

unfoldable pub type_from_token : Token → TypeExpr
unfolding identifier_from_token
type_from_token t =
    type_choice (type1 (typename (identifier_from_token t) no_generic_args) no_operator)
      no_type_choices

abbrev tagged : ℕ → Token → Outcome (Option Type2)
tagged n t = returned (some (Type2.tagged_data (some n) (type_from_token t)))

-- `unimplemented!()` panics.
unfoldable pub tag_from_token : Token → Outcome (Option Type2)
tag_from_token Token.tdate = tagged 0 Token.tstr
tag_from_token Token.time = tagged 1 Token.number
tag_from_token Token.biguint = tagged 2 Token.bstr
tag_from_token Token.bignint = tagged 3 Token.bstr
tag_from_token Token.decfrac = panicked
tag_from_token Token.bigfloat = panicked
tag_from_token Token.eb64url = tagged 21 Token.any
tag_from_token Token.eb64legacy = tagged 22 Token.any
tag_from_token Token.eb16 = tagged 23 Token.any
tag_from_token Token.encoded_cbor = tagged 24 Token.bstr
tag_from_token Token.uri = tagged 32 Token.tstr
tag_from_token Token.b64url = tagged 33 Token.tstr
tag_from_token Token.b64legacy = tagged 34 Token.tstr
tag_from_token Token.regexp = tagged 35 Token.tstr
tag_from_token Token.mime_message = tagged 36 Token.tstr
tag_from_token Token.cbor_any = tagged 55799 Token.any
tag_from_token _ = returned none

-- `GroupChoice::new`; a default comma is absent.
unfoldable pub group_choice_new : List GroupEntry → GroupChoice
group_choice_new [] = no_group_entries
group_choice_new (e ∷ es) = group_entry e false (group_choice_new es)

unfoldable pub group_from_group_entry : GroupEntry → Group
unfolding group_choice_new
group_from_group_entry e = group_choice (group_choice_new (e ∷ [])) no_group_choices

-- `Type::groupname_entry`, less the span.
unfoldable pub groupname_entry : TypeExpr → Option (Identifier × MaybeGenericArgs)
groupname_entry (type_choice (type1 (typename i args) no_operator) no_type_choices) = some (i, args)
groupname_entry _ = none

unfoldable pub rule_name : Rule → Text
unfolding display_identifier
rule_name (Rule.type r) = display_identifier r.name
rule_name (Rule.group r) = display_identifier r.name

unfoldable pub is_choice_alternate : Rule → Bool
is_choice_alternate (Rule.type r) = r.is_type_choice_alternate
is_choice_alternate (Rule.group r) = r.is_group_choice_alternate

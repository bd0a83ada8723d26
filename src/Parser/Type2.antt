-- ===== src/Parser/Type2.antt =====
-- src/parser.rs: `parse_type2`. An arm of its `match` returns at once, or comes to a value or an error
-- that is returned after one more token is read.
use cddl.Prelude.{ℕ, Option, none, some, ◌==◌, if◌then◌else◌}
use cddl.Token.{Usize, ByteValue, Value, Token}
use cddl.Token.Lookup.{in_standard_prelude}
use cddl.Lexer.State.{Externals}
use cddl.Ast.{
  Identifier, Type2, int_value, uint_value, float_value, text_value, utf8_byte_string,
  b16_byte_string, b64_byte_string, typename, parenthesized_type, map_type, array, unwrap,
  choice_from_inline_group, choice_from_group, tagged_data, data_major_type, any_type,
  no_generic_args, generic_args,
}
use cddl.Parser.State.{
  ok, err, incremental, ErrorMsg, ◌>>=◌, ◌>>◌, pure, fail, push_error, if_cur, if_peek, Cmd,
  next_token, identifier_from_ident_token, invalid_unwrap_syntax,
  invalid_group_to_choice_enum_syntax, invalid_tag_syntax, missing_group_entry_member_key,
  missing_group_entry, invalid_group_entry_syntax,
}
use cddl.Parser.Comments.{collect_comments}
use cddl.Parser.Calls.{Calls, note_unknown}

-- What an arm comes to.
pub data Arm : Type 0 where
  returns : Type2 → Arm
  value : Type2 → Arm
  error : Arm

abbrev pub literal_type2 : Value → Type2
literal_type2 (Value.text t) = text_value t
literal_type2 (Value.int i) = int_value i
literal_type2 (Value.uint n) = uint_value n
literal_type2 (Value.float f) = float_value f
literal_type2 (Value.byte (ByteValue.utf8 b)) = utf8_byte_string b
literal_type2 (Value.byte (ByteValue.b16 b)) = b16_byte_string b
literal_type2 (Value.byte (ByteValue.b64 b)) = b64_byte_string b

-- The name that `~` stands before.
abbrev pub unwrapped_ident : Token → Option Identifier
unwrapped_ident t = elim (in_standard_prelude t) [
  | some s ↦ some (identifier_from_ident_token s none)
  | none ↦ elim t [ Token.ident s socket ↦ some (identifier_from_ident_token s socket) | _ ↦ none ]
]

module _ (x : Externals) where
  open x use {MultiPeek}

  -- `Err(Error::INCREMENTAL)` as the value of an arm.
  abbrev pub report : ErrorMsg → Cmd x Arm
  report msg p = ok error (push_error msg p)

  abbrev pub note : Identifier → Cmd x (Unit {0})
  note i p = ok tt (note_unknown i p)

  abbrev pub refuse_arm : Token → Cmd x Arm
  refuse_arm Token.colon = fail missing_group_entry_member_key
  refuse_arm Token.arrow_map = fail missing_group_entry_member_key
  refuse_arm Token.r_brace = fail missing_group_entry
  refuse_arm Token.r_bracket = fail missing_group_entry
  refuse_arm Token.r_paren = fail missing_group_entry
  refuse_arm _ = report invalid_group_entry_syntax

  -- Names of the standard prelude, and everything that begins no type.
  unfoldable pub other_arm : Cmd x Arm
  unfolding collect_comments
  other_arm = do
    collect_comments x
    λ p. elim (in_standard_prelude p.cur_token) [
      | some s ↦ ok (value (typename (identifier_from_ident_token s none) no_generic_args)) p
      | none ↦ refuse_arm p.cur_token p
    ]

  unfoldable pub finish_arm : Arm → Cmd x Type2
  unfolding next_token
  finish_arm (returns t) = pure t
  finish_arm (value t) = next_token x >> pure t
  finish_arm error = next_token x >> err incremental

module _ (x : Externals) (c : Calls x) where
  open x use {MultiPeek}

  unfoldable pub ident_arm : Identifier → Cmd x Arm
  ident_arm i =
      if_peek Token.l_angle_bracket
        (do args ← c.parse_genericargs; note x i; pure (returns (typename i (generic_args args))))
        (note x i >> pure (value (typename i no_generic_args)))

  unfoldable pub paren_arm : Cmd x Arm
  unfolding next_token collect_comments
  paren_arm = do
    next_token x
    collect_comments x
    (pt, comments) ← c.parse_type none
    collect_comments x
    pure (value (parenthesized_type pt))

  unfoldable pub unwrap_arm : Cmd x Arm
  unfolding next_token collect_comments
  unwrap_arm = do
    next_token x
    collect_comments x
    λ p. elim (unwrapped_ident p.cur_token) [
      | none ↦ report x invalid_unwrap_syntax p
      | some i ↦
          if_peek Token.l_angle_bracket
            (do
              next_token x
              args ← c.parse_genericargs
              pure (returns (unwrap i (generic_args args))))
            (pure (returns (unwrap i no_generic_args))) p
    ]

  unfoldable pub inline_group_arm : Cmd x Arm
  unfolding next_token collect_comments
  inline_group_arm = do
    next_token x
    collect_comments x
    group ← c.parse_group
    collect_comments x
    pure (value (choice_from_inline_group group))

  unfoldable pub choice_arm : Cmd x Arm
  unfolding next_token collect_comments inline_group_arm
  choice_arm = do
    next_token x
    collect_comments x
    λ p. elim p.cur_token [
      | Token.l_paren ↦ inline_group_arm p
      | Token.ident s socket ↦
          if_peek Token.l_angle_bracket
            (do
              next_token x
              args ← c.parse_genericargs
              pure (
                  returns
                    (choice_from_group (identifier_from_ident_token s socket) (generic_args args))))
            (pure
              (value (choice_from_group (identifier_from_ident_token s socket) no_generic_args)))
            p
      | _ ↦ report x invalid_group_to_choice_enum_syntax p
    ]

  -- `#6.tag(type)`.
  unfoldable pub tagged_arm : Option Usize → Cmd x Arm
  unfolding next_token collect_comments
  tagged_arm tag = do
    next_token x
    if_cur Token.l_paren (pure tt) (fail invalid_tag_syntax)
    next_token x
    collect_comments x
    (t, comments) ← c.parse_type none
    collect_comments x
    if_cur Token.r_paren (pure (value (tagged_data tag t))) (fail invalid_tag_syntax)

  unfoldable pub tag_arm : Option ℕ → Option Usize → Cmd x Arm
  unfolding tagged_arm
  tag_arm none constraint = pure (value any_type)
  tag_arm (some mt) constraint =
      if mt == 6 then tagged_arm constraint else pure (value (data_major_type mt constraint))

  unfoldable pub type2_arm : Token → Cmd x Arm
  unfolding ident_arm paren_arm unwrap_arm choice_arm tag_arm other_arm
  type2_arm (Token.value v) = pure (value (literal_type2 v))
  type2_arm (Token.ident s socket) = ident_arm (identifier_from_ident_token s socket)
  type2_arm Token.l_paren = paren_arm
  type2_arm Token.l_brace = do
    group ← c.parse_group
    collect_comments x
    pure (value (map_type group))
  type2_arm Token.l_bracket = do
    group ← c.parse_group
    collect_comments x
    pure (value (array group))
  type2_arm Token.unwrap = unwrap_arm
  type2_arm Token.g_to_choice = choice_arm
  type2_arm (Token.tag mt constraint) = tag_arm mt constraint
  type2_arm _ = other_arm x

  unfoldable pub parse_type2 : Cmd x Type2
  unfolding type2_arm next_token
  parse_type2 = (λ p. type2_arm p.cur_token p) >>= finish_arm x

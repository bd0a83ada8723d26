-- ===== src/Parser/Rules.antt =====
-- src/parser.rs: `parse_rule`.
use cddl.Prelude.{
  Bool, true, false, ◌||◌, Option, none, some, List, [], ◌∷◌, Text, map, if◌then◌else◌,
}
use cddl.Token.{Token, SocketPlug}
use cddl.Lexer.State.{Externals}
use cddl.Ast.{
  Identifier, type1, no_operator, typename, parenthesized_type, group_choice, no_group_choices,
  group_entry, no_group_entries, GroupEntry, value_member_key, type_groupname, inline_group,
  no_member_key, TypeExpr, type_choice, no_type_choices, Rule,
}
use cddl.Parser.State.{
  Parser, ok, panic, ◌>>=◌, ◌>>◌, pure, fail, cur_token_is, if_peek, Cmd, next_token, expect_peek,
  identifier_from_ident_token, invalid_rule_identifier, missing_assignment_token,
  type_socket_names_must_be_type_augmentations, group_socket_names_must_be_group_augmentations,
  incomplete_rule_entry,
}
use cddl.Parser.Comments.{collect_comments, split_comments_after_type}
use cddl.Parser.Generics.{parse_genericparm}
use cddl.Parser.Calls.{Calls}
use cddl.Parser.Groups.{cur_is_any}

abbrev pub set_generic_params : {M : Type 0} → Option (List Text) → Parser M → Parser M
set_generic_params params p = record p { current_rule_generic_param_idents = params }

-- What a rule has in front of its right side.
pub record Head : Type 0 where
  pub name : Identifier
  pub generic_params : Option (List Identifier)
  pub is_type_choice_alternate : Bool
  pub is_group_choice_alternate : Bool

abbrev pub type_rule : Head → TypeExpr → Rule
type_rule h value = Rule.type (record {
  name = h.name;
  generic_params = h.generic_params;
  is_type_choice_alternate = h.is_type_choice_alternate;
  value = value;
})

abbrev pub group_rule : Head → GroupEntry → Rule
group_rule h entry = Rule.group (record {
  name = h.name;
  generic_params = h.generic_params;
  is_group_choice_alternate = h.is_group_choice_alternate;
  entry = entry;
})

abbrev pub is_group_socket : Token → Bool
is_group_socket (Token.ident s (some SocketPlug.group)) = true
is_group_socket _ = false

abbrev pub is_control_operator : Token → Bool
is_control_operator (Token.control_operator co) = true
is_control_operator _ = false

-- A group that is only a type between parentheses: the type, where the token behind it makes it one.
unfoldable pub parenthesized_entry : Token → GroupEntry → Option TypeExpr
parenthesized_entry cur
      (inline_group none (
        group_choice
          (group_entry (type_groupname none name args) false no_group_entries)
          no_group_choices)) =
    if is_control_operator cur
    then some (type_choice (type1 (typename name args) no_operator) no_type_choices)
    else none
parenthesized_entry cur
      (inline_group none (
        group_choice
          (group_entry (value_member_key none no_member_key t) false no_group_entries)
          no_group_choices)) =
    some t
parenthesized_entry cur _ = none

-- A rule whose type can only be a type; one with no choice is out of the range of the `Vec`.
unfoldable pub only_type : TypeExpr → Option Bool
only_type no_type_choices = none
only_type (type_choice t (type_choice u ts)) = some true
only_type (type_choice (type1 (parenthesized_type pt) op) no_type_choices) = some false
only_type (type_choice (type1 (typename i args) op) no_type_choices) = some false
only_type (type_choice t no_type_choices) = some true

abbrev pub assignments : List Token
assignments = Token.assign ∷ Token.t_choice_alt ∷ Token.g_choice_alt ∷ []

-- Tokens by which the right side of a rule may be a group.
abbrev pub entry_tokens : List Token
entry_tokens = Token.l_paren ∷ Token.asterisk ∷ Token.one_or_more ∷ Token.optional ∷ []

module _ (x : Externals) where
  open x use {MultiPeek}

  unfoldable pub rule_ident : Cmd x Identifier
  rule_ident p = elim p.cur_token [
    | Token.ident s socket ↦ ok (identifier_from_ident_token s socket) p
    | _ ↦ fail invalid_rule_identifier p
  ]

  unfoldable pub rule_params : Cmd x (Option (List Identifier))
  unfolding next_token parse_genericparm
  rule_params =
      if_peek Token.l_angle_bracket
        (do
          next_token x
          params ← parse_genericparm x
          λ p. ok (some params) (set_generic_params (some (map (λ i. i.ident) params)) p))
        (pure none)

  unfoldable pub rule_assignment : Cmd x (Unit {0})
  unfolding expect_peek
  rule_assignment = do
    assign ← expect_peek x Token.assign
    t_alt ← if assign then pure true else expect_peek x Token.t_choice_alt
    g_alt ← if t_alt then pure true else expect_peek x Token.g_choice_alt
    if g_alt then pure tt else fail missing_assignment_token

  -- Sockets are augmented, not defined.
  unfoldable pub check_socket : Option SocketPlug → Bool → Bool → Cmd x (Unit {0})
  check_socket none t_alt g_alt = pure tt
  check_socket (some SocketPlug.type) t_alt g_alt =
      if t_alt then pure tt else fail type_socket_names_must_be_type_augmentations
  check_socket (some SocketPlug.group) t_alt g_alt =
      if g_alt then pure tt else fail group_socket_names_must_be_group_augmentations

  unfoldable pub parse_head : Cmd x Head
  unfolding rule_ident rule_params collect_comments rule_assignment check_socket next_token
  parse_head = do
    ident ← rule_ident
    params ← rule_params
    collect_comments x
    rule_assignment
    λ p.
        (do
          check_socket ident.socket (cur_token_is Token.t_choice_alt p)
              (cur_token_is Token.g_choice_alt p)
          next_token x
          collect_comments x
          pure (record {
            name = ident;
            generic_params = params;
            is_type_choice_alternate = cur_token_is Token.t_choice_alt p;
            is_group_choice_alternate = cur_token_is Token.g_choice_alt p;
          }))
          p

  abbrev pub guarantee : Bool → Parser MultiPeek → Parser MultiPeek
  guarantee b p = if b then record p { is_guaranteed = true } else p

module _ (x : Externals) (c : Calls x) where
  open x use {MultiPeek}

  unfoldable pub parse_group_rule : Head → Cmd x Rule
  unfolding collect_comments
  parse_group_rule h = do
    ge ← c.parse_grpent true
    collect_comments x
    λ p.
        ok (group_rule h ge)
          (record p { current_rule_generic_param_idents = none; is_guaranteed = true })

  -- A group, or a type that begins with parentheses.
  unfoldable pub parse_entry_rule : Head → Cmd x Rule
  unfolding collect_comments parenthesized_entry
  parse_entry_rule h = do
    ge ← c.parse_grpent true
    collect_comments x
    λ p. elim (parenthesized_entry p.cur_token ge) [
      | some pt ↦
          (do
            (value, comments) ← c.parse_type (some (parenthesized_type pt))
            λ q. ok (type_rule h value) (set_generic_params none q))
            p
      | none ↦ ok (group_rule h ge) (set_generic_params none p)
    ]

  unfoldable pub parse_type_rule : Head → Cmd x Rule
  unfolding next_token collect_comments only_type
  parse_type_rule h p =
      (do
        (t, comments) ← c.parse_type none
        if cur_token_is Token.unwrap p then next_token x else pure tt
        elim (split_comments_after_type comments) [
          | some cs ↦ pure none
          | none ↦ collect_comments x
        ]
        λ q. if cur_is_any assignments q then fail incomplete_rule_entry q else elim (only_type t) [
          | none ↦ panic
          | some b ↦ ok (type_rule h t) (guarantee x b (set_generic_params none q))
        ])
        p

  unfoldable pub parse_rule : Bool → Cmd x Rule
  unfolding parse_head parse_group_rule parse_entry_rule parse_type_rule
  parse_rule parse_group = do
    h ← parse_head x
    λ p.
        if is_group_socket p.cur_token || (h.is_group_choice_alternate || parse_group)
        then parse_group_rule h p
        else if cur_is_any entry_tokens p
        then parse_entry_rule h p
        else parse_type_rule h p

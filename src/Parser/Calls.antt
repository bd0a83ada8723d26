-- ===== src/Parser/Calls.antt =====
-- src/parser.rs: the calls by which the parts of a rule refer to each other. A part is defined over
-- them, and Parser/Grammar.antt ties them together. `rounds` bounds the loops of a part.
use cddl.Prelude.{
  ℕ, Bool, true, false, not, ◌&&◌, Option, none, some, List, [], ◌∷◌, ◌++◌, Text, text_eq, any,
  is_none, if◌then◌else◌,
}
use cddl.Token.{Token, SocketPlug}
use cddl.Lexer.State.{Externals}
use cddl.Ast.{
  Identifier, Type1, Type2, GenericArgs, TypeExpr, Group, GroupChoice, GroupEntry, MaybeMemberKey,
}
use cddl.Parser.State.{Parser, Cmd, pure, if_cur, next_token}
use cddl.Parser.Comments.{Comments}

module _ (x : Externals) where
  pub record Calls : Type 0 where
    pub rounds : ℕ
    pub parse_genericargs : Cmd x GenericArgs
    pub parse_type : Option Type2 → Cmd x (TypeExpr × Comments)
    pub parse_type1 : Option Type2 → Cmd x (Type1 × Comments)
    pub parse_type2 : Cmd x Type2
    pub parse_group : Cmd x Group
    pub parse_grpchoice : Cmd x GroupChoice
    pub parse_grpent : Bool → Cmd x GroupEntry
    pub parse_memberkey : Bool → Cmd x MaybeMemberKey

  -- `if let T = self.cur_token { self.next_token()?; }`
  unfoldable pub skip_cur : Token → Cmd x (Unit {0})
  unfolding next_token
  skip_cur t = if_cur t (next_token x) (pure tt)

abbrev pub contains : List Text → Text → Bool
contains names name = any (text_eq name) names

abbrev pub is_generic_param : {M : Type 0} → Parser M → Text → Bool
is_generic_param p name = elim p.current_rule_generic_param_idents [
  | none ↦ false
  | some idents ↦ contains idents name
]

-- A name that is no generic parameter and no known type is noted.
abbrev pub note_unknown : {M : Type 0} → Identifier → Parser M → Parser M
note_unknown i p =
    if is_none i.socket && (not (is_generic_param p i.ident) && not (contains p.typenames i.ident))
    then record p { unknown_rule_idents = p.unknown_rule_idents ++ (i.ident ∷ []) }
    else p

-- `Vec::pop`.
abbrev pub pop : List Text → List Text
pop [] = []
pop (a ∷ []) = []
pop (a ∷ b ∷ as') = a ∷ pop (b ∷ as')

-- Whether a name stands for a group.
abbrev pub is_groupname : {M : Type 0} → Parser M → Identifier → Bool
is_groupname p name =
    if contains p.groupnames name.ident
    then true
    else elim name.socket [ some SocketPlug.group ↦ true | _ ↦ false ]

-- The last name that was noted is the group's own.
abbrev pub forget_groupname : {M : Type 0} → Identifier → Parser M → Parser M
forget_groupname name p =
    if is_none name.socket then record p { unknown_rule_idents = pop p.unknown_rule_idents } else p

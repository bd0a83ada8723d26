-- ===== src/Ast.antt =====
-- src/ast/mod.rs: the syntax tree. Spans and comments are left out: nothing modelled here reads them.
-- A `Type` is its list of choices and a `TypeChoice` its `Type1`; a `Group` is its list of choices, a
-- `GroupChoice` its list of entries, each with the flag of its `OptionalComma`; an `Occurrence` is its
-- `Occur`. An optional part of a recursive type is a type of the block with a constructor for `None`.
pub mod Convert
pub mod Display
pub mod Parent
use cddl.Prelude.{ℕ, Bool, Option, Text, text_eq, List, [], ◌∷◌, true, false}
use cddl.Prelude.Int.{ℤ}
use cddl.Token.{Usize, F64, Bytes, SocketPlug, ControlOperator, Value}
use cddl.Token.Display.{display_name}

pub record Identifier : Type 0 where
  pub ident : Text
  pub socket : Option SocketPlug

-- `to_string` of an identifier, by which `==` compares.
unfoldable pub display_identifier : Identifier → Text
display_identifier i = display_name i.ident i.socket

unfoldable pub identifier_eq : Identifier → Identifier → Bool
identifier_eq i j = text_eq (display_identifier i) (display_identifier j)

pub data Occur : Type 0 where
  exact : Option Usize → Option Usize → Occur
  zero_or_more one_or_more optional : Occur

pub data RangeCtlOp : Type 0 where
  range_op : Bool → RangeCtlOp
  ctl_op : ControlOperator → RangeCtlOp

mutual
  pub data Type1 : Type 0 where
    type1 : Type2 → MaybeOperator → Type1

  pub data MaybeOperator : Type 0 where
    no_operator : MaybeOperator
    operator : RangeCtlOp → Type2 → MaybeOperator

  pub data Type2 : Type 0 where
    int_value : ℤ → Type2
    uint_value : Usize → Type2
    float_value : F64 → Type2
    text_value : Text → Type2
    utf8_byte_string : Bytes → Type2
    b16_byte_string : Bytes → Type2
    b64_byte_string : Bytes → Type2
    typename : Identifier → MaybeGenericArgs → Type2
    parenthesized_type : TypeExpr → Type2
    map_type : Group → Type2
    array : Group → Type2
    unwrap : Identifier → MaybeGenericArgs → Type2
    choice_from_inline_group : Group → Type2
    choice_from_group : Identifier → MaybeGenericArgs → Type2
    tagged_data : Option Usize → TypeExpr → Type2
    data_major_type : ℕ → Option Usize → Type2
    any_type : Type2

  pub data MaybeGenericArgs : Type 0 where
    no_generic_args : MaybeGenericArgs
    generic_args : GenericArgs → MaybeGenericArgs

  pub data GenericArgs : Type 0 where
    no_args : GenericArgs
    generic_arg : Type1 → GenericArgs → GenericArgs

  pub data TypeExpr : Type 0 where
    no_type_choices : TypeExpr
    type_choice : Type1 → TypeExpr → TypeExpr

  pub data Group : Type 0 where
    no_group_choices : Group
    group_choice : GroupChoice → Group → Group

  pub data GroupChoice : Type 0 where
    no_group_entries : GroupChoice
    group_entry : GroupEntry → Bool → GroupChoice → GroupChoice

  pub data GroupEntry : Type 0 where
    value_member_key : Option Occur → MaybeMemberKey → TypeExpr → GroupEntry
    type_groupname : Option Occur → Identifier → MaybeGenericArgs → GroupEntry
    inline_group : Option Occur → Group → GroupEntry

  pub data MaybeMemberKey : Type 0 where
    no_member_key : MaybeMemberKey
    type1_key : Type1 → Bool → MaybeMemberKey
    bareword : Identifier → MaybeMemberKey
    value_key : Value → MaybeMemberKey
    non_member_group : Group → MaybeMemberKey
    non_member_type : TypeExpr → MaybeMemberKey

-- The `Vec`s of the tree as lists, for the iterator methods.
abbrev pub type_choices : TypeExpr → List Type1
type_choices no_type_choices = []
type_choices (type_choice t ts) = t ∷ type_choices ts

abbrev pub group_choices : Group → List GroupChoice
group_choices no_group_choices = []
group_choices (group_choice c g) = c ∷ group_choices g

abbrev pub group_entries : GroupChoice → List GroupEntry
group_entries no_group_entries = []
group_entries (group_entry e comma c) = e ∷ group_entries c

pub record TypeRule : Type 0 where
  pub name : Identifier
  pub generic_params : Option (List Identifier)
  pub is_type_choice_alternate : Bool
  pub value : TypeExpr

pub record GroupRule : Type 0 where
  pub name : Identifier
  pub generic_params : Option (List Identifier)
  pub is_group_choice_alternate : Bool
  pub entry : GroupEntry

pub data Rule : Type 0 where
  type : TypeRule → Rule
  group : GroupRule → Rule

pub record Cddl : Type 0 where
  pub rules : List Rule

-- ===== src/Tests/Parsing.antt =====
-- The parser on concrete grammars.
use cddl.Prelude.{Option, some, List, [], ◌∷◌, ◌≡◌, refl, String, codes, Text, map}
use cddl.Lexer.State.{get_slice}
use cddl.Token.Lookup.{lookup_ident, in_standard_prelude}
use cddl.Ast.Convert.{rule_name}
use cddl.Parser.State
use cddl.Parser.State.{
  ok, err, panic, out_of_fuel, Error, incremental, ErrorMsg, missing_group_entry_member_key,
  invalid_group_entry_syntax, incomplete_rule_entry, duplicate_rule_identifier,
}
use cddl.Parser.Cddl.{cddl_from_str, root_type_name}
use cddl.Tests.Lexing.{ascii}

-- What a parse comes to: the names of the rules and the name of the root type, or the errors.
data Outcome : Type 0 where
  grammar : List Text → Option Text → Outcome
  errors : Error → List Error → Outcome
  panics deeper : Outcome

parse : String → Outcome
unfolding cddl_from_str root_type_name
parse s = elim (cddl_from_str ascii 20 (codes s)) [
  | ok c p ↦ grammar (map rule_name c.rules) (root_type_name c.rules)
  | err e p ↦ errors e p.errors
  | panic ↦ panics
  | out_of_fuel ↦ deeper
]

-- Rules that use each other, the later one first.
-- Rules that use each other, the later one first.
parse_rules : parse "b = [* a]\na = int" ≡ grammar (codes "b" ∷ codes "a" ∷ []) (some (codes "b"))
unfolding parse cddl_from_str get_slice lookup_ident cddl.Parser.Discriminant.discriminant
    in_standard_prelude cddl.Parser.Type2.finish_arm cddl.Parser.Groups.skip_unless_kept
    cddl.Parser.Groups.optional_comma cddl.Parser.Cddl.register_all
parse_rules = refl

-- Rules put off in one place come out of order where a later pass resolves the second: the root is `b`.
parse_order :
    parse "a = x\nb = a\nx = int"
    ≡ grammar (codes "b" ∷ codes "a" ∷ codes "x" ∷ []) (some (codes "b"))
unfolding parse cddl_from_str get_slice lookup_ident cddl.Parser.Discriminant.discriminant
    cddl.Parser.Type2.finish_arm in_standard_prelude cddl.Parser.Cddl.register_all
parse_order = refl

-- A repeated name is refused where the rules are known at once.
parse_twice :
    parse "a = int\na = tstr" ≡ errors incremental (State.parser duplicate_rule_identifier ∷ [])
unfolding parse cddl_from_str get_slice lookup_ident cddl.Parser.Discriminant.discriminant
    in_standard_prelude cddl.Parser.Type2.finish_arm
parse_twice = refl

-- It is not refused where a rule is put off.
parse_twice_unknown :
    parse "a = b\nb = int\na = tstr"
    ≡ grammar (codes "a" ∷ codes "b" ∷ codes "a" ∷ []) (some (codes "a"))
unfolding parse cddl_from_str get_slice lookup_ident cddl.Parser.Discriminant.discriminant
    cddl.Parser.Type2.finish_arm in_standard_prelude cddl.Parser.Cddl.register_all
parse_twice_unknown = refl

-- Behind a type between parentheses, `^ =>` is refused.
parse_cut :
    parse "a = [ (int) ^ => tstr ]"
    ≡ errors incremental (State.parser missing_group_entry_member_key ∷ [])
unfolding parse cddl_from_str get_slice lookup_ident cddl.Parser.Discriminant.discriminant
    in_standard_prelude cddl.Parser.Type2.finish_arm
parse_cut = refl

-- A comment behind `=>` takes the first token of the type with it.
parse_comment :
    parse "a = { x => ; c\n int }"
    ≡ errors incremental (State.parser State.missing_group_entry ∷ [])
unfolding parse cddl_from_str get_slice lookup_ident cddl.Parser.Discriminant.discriminant
    in_standard_prelude
parse_comment = refl

-- A rule behind an unwrapped name with arguments is refused.
parse_unwrap :
    parse "a = ~foo<int>\nb = int" ≡ errors incremental (State.parser incomplete_rule_entry ∷ [])
unfolding parse cddl_from_str get_slice lookup_ident cddl.Parser.Discriminant.discriminant
    in_standard_prelude cddl.Parser.Type2.finish_arm
parse_unwrap = refl

-- A text is taken for the lower bound of an indicator, and lost.
parse_text_bound : parse "a = { \"x\"* int }" ≡ grammar (codes "a" ∷ []) (some (codes "a"))
unfolding parse cddl_from_str get_slice lookup_ident cddl.Parser.Discriminant.discriminant
    in_standard_prelude cddl.Parser.Type2.finish_arm cddl.Parser.Groups.skip_unless_kept
    cddl.Parser.Groups.optional_comma
parse_text_bound = refl

-- The loop for `>` runs on behind the end of the input.
parse_endless : parse "g<t> = (x: t)\nm = {g<int> b<" ≡ deeper
unfolding parse cddl_from_str get_slice lookup_ident cddl.Parser.Discriminant.discriminant
    in_standard_prelude cddl.Parser.Type2.finish_arm cddl.Parser.Groups.skip_unless_kept
    cddl.Parser.Groups.optional_comma
parse_endless = refl

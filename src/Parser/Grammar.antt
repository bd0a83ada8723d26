-- ===== src/Parser/Grammar.antt =====
-- src/parser.rs: the parts of a rule, tied together. The fuel bounds the depth of the calls and the
-- rounds of a loop; the program has no such bound.
use cddl.Prelude.{ℕ, zero, suc}
use cddl.Lexer.State.{Externals}
use cddl.Parser.State.{out_of_fuel}
use cddl.Parser.Calls.{Calls}
use cddl.Parser.Types.{parse_genericargs, parse_type, parse_type1}
use cddl.Parser.Type2.{parse_type2}
use cddl.Parser.Groups.{parse_group, parse_grpchoice}
use cddl.Parser.Entries.{parse_grpent}
use cddl.Parser.MemberKeys.{parse_memberkey}

module _ (x : Externals) where
  abbrev pub no_calls : Calls x
  no_calls = record {
    rounds = 0;
    parse_genericargs = λ p. out_of_fuel;
    parse_type = λ t p. out_of_fuel;
    parse_type1 = λ t p. out_of_fuel;
    parse_type2 = λ p. out_of_fuel;
    parse_group = λ p. out_of_fuel;
    parse_grpchoice = λ p. out_of_fuel;
    parse_grpent = λ b p. out_of_fuel;
    parse_memberkey = λ b p. out_of_fuel;
  }

  unfoldable pub step_calls : ℕ → Calls x → Calls x
  unfolding parse_genericargs parse_type parse_type1 parse_type2 parse_group parse_grpchoice
      parse_grpent parse_memberkey
  step_calls n c = record {
    rounds = n;
    parse_genericargs = parse_genericargs x c;
    parse_type = parse_type x c;
    parse_type1 = parse_type1 x c;
    parse_type2 = parse_type2 x c;
    parse_group = parse_group x c;
    parse_grpchoice = parse_grpchoice x c;
    parse_grpent = parse_grpent x c;
    parse_memberkey = parse_memberkey x c;
  }

  unfoldable pub calls : ℕ → Calls x
  unfolding step_calls
  calls zero = no_calls
  calls (suc n) = step_calls (suc n) (calls n)

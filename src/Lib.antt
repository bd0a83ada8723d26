-- ===== src/Lib.antt =====
-- cddl is a parser and validator for the Concise Data Definition Language (RFC 8610). A text is cut into tokens
-- (src/token.rs, src/lexer.rs), the parser (src/parser.rs) makes a syntax tree of them (src/ast/mod.rs), and the
-- validators walk the tree beside a JSON or CBOR value with the look-ups and tests of src/validator/mod.rs and the operators of
-- src/validator/control.rs.
--
-- Files and sources:
--   Token, Token/Lookup, Token/Display: src/token.rs, the types Token, Value, ByteValue, RangeValue,
--     ControlOperator and SocketPlug; lookup_ident, lookup_control_from_str, in_standard_prelude,
--     closing_delimiter, the conversions; the printed forms. The arms of the two look-ups are tables.
--   Lexer/Chars: characters as code points, char_indices and slices of UTF-8 text.
--   Lexer/State: the struct Lexer and its Position; read_char, peek_char, skip_whitespace. The fields input and
--     multipeek are both kept. A call is a function from a state to a Step: ok with the new state, err with the
--     error and the state left behind, panic, or out_of_fuel.
--   Lexer/Strings, Lexer/Numbers, Lexer/Next: the functions read_* and next_token; each arm of the match in
--     next_token that reads on is a function lex_*.
--   Parser/State: the struct Parser, its errors and messages; new, next_token and expect_peek. The boxed iterator of
--     tokens is a lexer or the tokens of a Vec, which is used up at its end and leaves the tokens swapped. A call
--     is a function from a state to an outcome: ok or err with the state left behind, panic, or out_of_fuel.
--   Parser/Discriminant: the variants of Token by their places, which cur_token_is and peek_token_is compare.
--   Parser/Comments, Parser/Occur, Parser/Generics: collect_comments, parse_occur and parse_genericparm.
--   Parser/Calls: the record of the calls by which the parts of a rule refer to each other. Parser/Types,
--     Parser/Type2, Parser/Groups, Parser/Entries and Parser/MemberKeys define the parts over it: parse_genericargs,
--     parse_type, parse_type1; parse_type2 with a function for each arm; parse_group, parse_grpchoice; parse_grpent;
--     parse_memberkey. Parser/Grammar ties them together.
--   Parser/Rules, Parser/Cddl: parse_rule; parse_cddl with resolve_rule, advance_to_next_rule and register_rule,
--     cddl_from_str and root_type_name_from_cddl_str.
--   Ast, Ast/Convert, Ast/Display: src/ast/mod.rs, the node types, the conversions between them, and the printed
--     forms of occurrence indicators and of range and control operators.
--   Ast/Parent: src/ast/parent.rs, the arena of nodes with node, insert and the look-up of a parent, over any type of
--     values with a test for equality.
--   Validator/Rules: rule_from_ident and the other look-ups of src/validator/mod.rs.
--   Validator/DataTypes: the is_ident_*_data_type functions, each an instance of one recursive search.
--   Validator/Values: text_value_from_ident, unwrap_rule_from_ident, type_choices_from_group_choice.
--   Validator/Counts: entry_counts_from_group, validate_entry_count, validate_array_occurrence.
--   Validator/Literals: string_literals_from_ident and numeric_values_from_ident of src/validator/control.rs.
--   Validator/Control: the operators of src/validator/control.rs, cat_operation and plus_operation, with
--     dedent_str, dedent_bytes and abnf_from_complex_controller. Their fuel must exceed the ranks of all names and
--     the nesting of the operands.
--   Prelude: shared helpers, decimal numbers, outcomes that panic, and runs on fuel.
--   Tests: concrete inputs; Tests/Parsing parses texts; Tests/Grammar, Tests/Nesting and Tests/Cycle are small grammars.
-- The proofs about a file stand in the folder of its name; those about the parser as a whole in Parser/Reports,
-- Parser/WellFormed, Parser/Progress, Parser/Placed and Parser/Endless, over Parser/Yields.
--
-- Bounds and fuel: usize has 64 bits, and parse fails out of range; entry counts are plain numbers. The loops of
-- the lexer take fuel, the number of characters left and one more, which is enough since each round but the last
-- reads a character. The recursions of src/validator/mod.rs through the names of a grammar take fuel as an
-- argument; a grammar whose references go down in some rank needs one more than the rank. The fuel of the parser
-- bounds the depth of its calls and the rounds of the loops of a part; the loops over comments, generic parameters
-- and tokens to skip have a round for each token that is left, and a few more. The names that a BTreeSet holds are a
-- list.
--
-- Parameters: itertools::MultiPeek, lexical_core, hexf_parse, base16, data_encoding, the casts of an f64, and the
-- classes of Unicode characters are fields of Externals in Lexer/State, with no assumption on them. A float is its
-- 64 bits, and its printing is an argument of the printed forms. The codecs and float operations that the control
-- operators call are fields of Codecs in Validator/Control, with no assumption on them.
--
-- Not modelled: src/validator/json.rs, src/validator/cbor.rs, src/visitor.rs, the visits of src/ast/parent.rs, the
-- printers of src/ast/mod.rs that are not named above; validate_abnf, which hands its arguments to other crates;
-- spans and comments of the tree, except for the comments behind a type, which parse_rule asks for; the positions and the texts of errors, with
-- report_errors; the command line, the bindings for other languages, and the targets
-- wasm32.
pub mod Prelude
pub mod Token
pub mod Lexer
pub mod Parser
pub mod Tests
pub mod Ast
pub mod Validator

-- ===== src/Parser.antt =====
-- src/parser.rs: the parser. Its state and its iterator of tokens, the rule's parts, rules, and the
-- whole grammar.
pub mod Discriminant
pub mod State
pub mod Comments
pub mod Occur
pub mod Generics
pub mod Calls
pub mod Types
pub mod Type2
pub mod Groups
pub mod Entries
pub mod MemberKeys
pub mod Rules
pub mod Grammar
pub mod Cddl
pub mod Reports
pub mod WellFormed
pub mod Progress
pub mod Endless
pub mod Yields
pub mod Placed

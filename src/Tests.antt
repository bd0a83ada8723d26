-- ===== src/Tests.antt =====
-- Concrete inputs: what the definitions compute, and instances of the theorems.
pub mod Lexing
pub mod Grammar
pub mod Nesting
pub mod Cycle
pub mod Control
pub mod Witnesses
mod Parsing
mod Parser
mod Nodes

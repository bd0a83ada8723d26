-- ===== src/Validator.antt =====
-- src/validator/mod.rs and src/validator/control.rs: what the JSON and CBOR validators ask of a grammar.
pub mod Rules
pub mod DataTypes
pub mod Values
pub mod Literals
pub mod Counts
pub mod Control

-- ===== src/Routing.antt =====
-- rtRoutingTree.c and rtRoutingTree.h.
-- The work on one tree is in `Forest`, the tokenizer in `Tokens`, the public operations in `Tree`.
pub mod Tokens
pub mod Forest
pub mod Tree
pub mod Removal
pub mod Resolve

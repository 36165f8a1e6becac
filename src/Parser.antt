-- ===== src/Parser.antt =====
-- factorengine/parser.go and expression_parser.go: from the text of an expression to its tree.
pub mod Chars
pub mod Refs
pub mod Tokens
pub mod Grammar

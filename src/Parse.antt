-- ===== src/Parse.antt =====
-- include/parse and src/parse: from the text of an SQL statement to its data, and back to text.
pub mod Words
pub mod Lexer
pub mod Data
pub mod Parser

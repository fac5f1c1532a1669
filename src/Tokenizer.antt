-- ===== src/Tokenizer.antt =====
-- Candi_Compiler/tokenizer.hpp: the text of a file to its tokens.
pub mod Words
pub mod Cursor
pub mod Lexers
pub mod Operators
pub mod Messages
pub mod Run
pub mod Scan
pub mod Sound
pub mod Bounds
pub mod Spelling
pub mod LongestOperator
pub mod Prefixes
pub mod Rules
pub mod Positions
pub mod Columns
pub mod KeywordSyntax
pub mod Sanitize
pub mod Termination

-- ===== src/Legacy.antt =====
-- The older generation of tokens (Candi_Compiler/token.hpp) and what works on them before the parser.
pub mod TokenType
pub mod Token
pub mod Macros
pub mod Expands
pub mod Preprocessor
pub mod Includes

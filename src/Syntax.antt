-- ===== src/Syntax.antt =====
-- Candi_Compiler/cand_syntax.hpp: token and node kinds, their tables, keywords and tokens.
pub mod TokenKind
pub mod NodeKind
pub mod Names
pub mod NodeNames
pub mod TokenNode
pub mod Operators
pub mod OperatorNames
pub mod Kinds
pub mod Keywords
pub mod Token
pub mod Equality
pub mod Tables
pub mod Ast
pub mod AstChildren

-- ===== src/Scopes.antt =====
-- Candi_Compiler/token_iterator.hpp: cursors over a vector of tokens, and the scopes and statements
-- that start at a token.
pub mod Iterator
pub mod IteratorBounds
pub mod Scope
pub mod Find
pub mod Balanced
pub mod FindSound
pub mod FindComplete
pub mod Depths
pub mod Separated
pub mod SeparatedParts
pub mod SeparatedKinds
pub mod SeparatedSound
pub mod SeparatedComplete
pub mod Statement
pub mod StatementLoop
pub mod StatementFound
pub mod OpenStatement
pub mod OpenStatementLoop
pub mod OpenStatementFound

-- ===== src/Expression.antt =====
-- Candi_Compiler/parenthesizer.hpp: expressions are parenthesized by the priorities of their
-- operators, and what is parenthesized is parsed.
pub mod Outcome
pub mod Parse
pub mod Spelling
pub mod ParseSteps
pub mod ParseRoundTrip
pub mod Closure
pub mod ClosureList
pub mod Parenthesizer
pub mod OperatorLevels
pub mod Strip
pub mod Stack
pub mod Resolve
pub mod ResolveLoops
pub mod Actions
pub mod Skipped
pub mod Rounds
pub mod Operands
pub mod Parenthesized
pub mod Precedence
pub mod TwoOperators
pub mod Grouping
pub mod ParseFuel

-- ===== src/Evaluator.antt =====
-- Candi_Compiler/constant_evaluator.hpp: the environments in which constants are evaluated.
pub mod Environment
pub mod Lookup

-- ===== src/Calculator.antt =====
-- Parsers/Calculator/Calculator.cpp: the token stream, the variables and the recursive descent that
-- computes while it reads.
pub mod Double
pub mod Token
pub mod Stream
pub mod Evaluator
pub mod Meaning
pub mod Reading
pub mod Rounds
pub mod Operators
pub mod Correct
pub mod Variables

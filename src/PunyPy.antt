-- ===== src/PunyPy.antt =====
-- Parsers/Punypy-parser: the scanner, the parser, the productions, the world, the analyzer and the
-- interpreter of a small Python.
pub mod Int
pub mod Token
pub mod Scanner
pub mod Syntax
pub mod Parser
pub mod World
pub mod Analyzer
pub mod Interpreter
pub mod Sound
pub mod Reading
pub mod Print
pub mod RoundTrip
pub mod Lexing
pub mod Rounds
pub mod Buffer
pub mod Program
pub mod Variables

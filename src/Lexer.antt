-- ===== src/Lexer.antt =====
-- The lexer, go/internal/engine/internal/lexer/.
pub mod Token
pub mod Spans
pub mod Literals
pub mod Regex
pub mod Next
pub mod Suffix
pub mod Scans
pub mod Progress
pub mod Quoted
pub mod Numerals

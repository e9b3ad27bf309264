-- ===== src/Parser.antt =====
-- The parser of go/internal/engine/internal/parser/: parser.go, ast.go, tailcall.go, process.go and analysis.go.
pub mod Node
pub mod State
pub mod Operators
pub mod Groups
pub mod Prefix
pub mod Expression
pub mod Lambdas
pub mod TailCalls
pub mod FastPaths
pub mod Splits
pub mod Readable
pub mod Process
pub mod Flat
pub mod Flattening
pub mod Settled
pub mod Moves
pub mod LoopMoves
pub mod GroupMoves
pub mod NudMoves
pub mod LedMoves
pub mod Ends
pub mod Ordered
pub mod Good
pub mod Built
pub mod Prefixes
pub mod Infixes
pub mod LedForms
pub mod Leds
pub mod Precedence
pub mod Compiled

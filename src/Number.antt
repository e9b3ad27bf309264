-- ===== src/Number.antt =====
-- The assigned-decimal numbers of go/internal/engine/internal/numeric.
pub mod Grammar
pub mod Parts
pub mod Compare
pub mod Coefficients
pub mod Order
pub mod Format
pub mod Digits
pub mod Decimal
pub mod Token
pub mod Reading
pub mod RoundTrip
pub mod Control
pub mod Integral

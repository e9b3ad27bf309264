-- ===== src/Integers.antt =====
-- Integers in Roman numerals, letters, English words and digits, written and read: of
-- go/internal/engine/functions/string_format_integer.go.
pub mod Roman
pub mod Alphabetic
pub mod Words
pub mod Decimal
pub mod Pictures

-- ===== src/Strings.antt =====
-- The UTF-16 strings of the language inside Go's byte strings.
pub mod Utf8
pub mod Units
pub mod CodeUnits
pub mod RoundTrip
pub mod Scan
pub mod Canonical
pub mod Characters

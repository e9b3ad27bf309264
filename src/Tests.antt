-- ===== src/Tests.antt =====
-- Concrete runs of the engine's definitions, and the theorems at concrete inputs.
mod Numbers
mod Caches
mod Values
mod Signatures
mod Maps
mod Scopes
mod Texts
mod Lookups
mod Functions
mod Controls
mod Tokens
mod Integers
mod Callbacks
mod Parses

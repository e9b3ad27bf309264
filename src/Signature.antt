-- ===== src/Signature.antt =====
-- Function signatures: go/internal/engine/internal/parser/signature.go and
-- go/internal/engine/internal/evaluator/signature.go.
pub mod Spec
pub mod Parse
pub mod Sound
pub mod Call
pub mod Arguments

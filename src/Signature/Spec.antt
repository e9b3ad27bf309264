-- ===== src/Signature/Spec.antt =====
-- `ParamSpec` of go/internal/engine/internal/parser/signature.go, the codes of its errors, and results.
use jsonata.Base.{ℕ, Bool, false, [], ◌∷◌, Bytes, ◌==◌, ◌||◌, ◌≡◌, refl}

-- S0401 and S0402 of the parser, T0410 and T0412 of a call.
pub data SignatureError : Type 0 where
  s0401 s0402 t0410 t0412 : SignatureError

pub data Result {κ} (X : Type κ) : Type κ where
  err : SignatureError → Result X
  ok : X → Result X

infixl 5 ◌>>=◌
abbrev pub ◌>>=◌ {κ μ} : {X : Type κ} {Y : Type μ} → Result X → (X → Result Y) → Result Y
r >>= next = elim r [ err code ↦ err code | ok x ↦ next x ]

-- A content type of 0 stands for none.
pub record ParamSpec : Type 0 where
  pub types : Bytes
  pub content_type : ℕ
  pub optional : Bool
  pub variadic : Bool
  pub context : Bool

-- `slices.Contains` and `sigContainsType`
unfoldable pub contains : Bytes → ℕ → Bool
contains [] c = false
contains (t ∷ types) c = t == c || contains types c

unfoldable pub is_valid_type : ℕ → Bool
is_valid_type c =
    c == b'b'
    || c == b'n'
    || c == b's'
    || c == b'l'
    || c == b'a'
    || c == b'o'
    || c == b'f'
    || c == b'j'
    || c == b'x'
    || c == b'u'

-- A chain succeeds only if its first step does.
pub bind_ok {κ μ} :
    {X : Type κ} {Y : Type μ} (r : Result X) (next : X → Result Y) {y : Y}
    → r >>= next ≡ ok y
    → (x : X) × (r ≡ ok x) × (next x ≡ ok y)
bind_ok (err code) next h = cc
bind_ok (ok x) next h = (x, refl, h)

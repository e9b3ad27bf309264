-- ===== src/OrderedMap/Ops.antt =====
-- `OrderedMap` of go/internal/engine/internal/evaluator/ordered_map.go. The Go map `data` is a function that says what is
-- stored under a key; `admit` is the `InternalizeValue` that `Set` applies. A method that changes the receiver returns
-- the new one.
use jsonata.Base.{
  ℕ, Bool, true, false, List, [], ◌∷◌, ◌++◌, Option, none, some, length, ite, if◌then◌else◌,
}

pub record OrderedMap {ℓ} (K V : Type ℓ) : Type ℓ where
  pub external : Bool
  pub keys : List K
  pub stored : K → Option V

unfoldable pub new_ordered_map {ℓ} : {K V : Type ℓ} → OrderedMap K V
new_ordered_map = record { external = false; keys = []; stored = λ _. none }

module _ {ℓ} {K : Type ℓ} (dec : Discrete K) where
  -- `m[key] = val` and `delete(m, key)` on a Go map.
  unfoldable pub update : {V : Type ℓ} → (K → Option V) → K → Option V → K → Option V
  update f key v k = ite (dec key k) v (f k)

  -- `slices.DeleteFunc` of one key.
  unfoldable pub delete_key : K → List K → List K
  delete_key key [] = []
  delete_key key (k ∷ keys) = ite (dec k key) (delete_key key keys) (k ∷ delete_key key keys)

module _ {ℓ} {K V : Type ℓ} (dec : Discrete K) where
  unfoldable pub get : OrderedMap K V → K → Option V
  get m key = m.stored key

  unfoldable pub has : OrderedMap K V → K → Bool
  has m key = elim (m.stored key) [ some _ ↦ true | none ↦ false ]

  unfoldable pub put : (V → V) → OrderedMap K V → K → V → OrderedMap K V
  unfolding update has
  put admit m key v =
      let val = admit v in
      record m {
        keys = if has m key then m.keys else m.keys ++ key ∷ [];
        stored = update dec m.stored key (some val);
      }

  unfoldable pub delete : OrderedMap K V → K → OrderedMap K V
  unfolding update delete_key has
  delete m key =
      if has m key
      then record m { keys = delete_key dec key m.keys; stored = update dec m.stored key none }
      else m

  abbrev pub len : OrderedMap K V → ℕ
  len m = length m.keys

  -- The loop of `Range` with a callback that keeps a state and says whether to go on.
  unfoldable pub range_keys {κ} :
      {S : Type κ} → (K → Option V) → (S → K → Option V → S × Bool) → S → List K → S
  range_keys stored fn s [] = s
  range_keys stored fn s (k ∷ keys) =
      let (s', more) = fn s k (stored k) in
      let rest = range_keys stored fn s' keys in if more then rest else s'

  unfoldable pub range {κ} : {S : Type κ} → OrderedMap K V → (S → K → Option V → S × Bool) → S → S
  unfolding range_keys
  range m fn s = range_keys m.stored fn s m.keys

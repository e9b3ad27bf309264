-- ===== src/Cache/Ring.antt =====
-- `BoundedCache` of go/internal/engine/bounded_cache.go. A plan pointer is an `Option`, whose `none` is Go's
-- nil. `Set` and `Invalidate` hold the mutex throughout and publish the snapshot in one store, and `Get` loads it
-- once, so each method is one step of the state; the counters are unbounded.
use jsonata.Base.{
  ℕ, zero, suc, ◌+◌, ◌-◌, ◌%◌, Bool, true, false, List, [], ◌∷◌, Option, none, some, length, set,
  replicate, ite, ltb, leb, if◌then◌else◌,
}

-- Reads of a slice inside its bounds.
abbrev pub get_or {ℓ} : {A : Type ℓ} → List A → ℕ → A → A
get_or [] i d = d
get_or (x ∷ xs) zero d = x
get_or (x ∷ xs) (suc i) d = get_or xs i d

module _ {ℓ} (K P : Type ℓ) where
  pub record CacheEntry : Type ℓ where
    pub key : K
    pub plan : Option P

  -- `index` is the Go map, the latest write first.
  pub record CacheSnapshot : Type ℓ where
    pub entries : List CacheEntry
    pub index : List (K × ℕ)

  pub record BoundedCache : Type ℓ where
    pub capacity : ℕ
    pub entries : List CacheEntry
    pub head : ℕ
    pub count : ℕ
    pub snapshot : CacheSnapshot
    pub hits : ℕ
    pub misses : ℕ
    pub evictions : ℕ

-- `StreamStats`
pub record Stats : Type 0 where
  pub hits : ℕ
  pub misses : ℕ
  pub entries : ℕ
  pub evictions : ℕ

-- The copy loop of `Set`: `n` entries from position `base`, modulo the capacity.
unfoldable pub window {ℓ} : {A : Type ℓ} → A → ℕ → List A → ℕ → ℕ → List A
window blank capacity ring base zero = []
window blank capacity ring base (suc n) =
    get_or ring (base % capacity) blank ∷ window blank capacity ring (base + 1) n

-- `snap.index[key]`
unfoldable pub find_index {ℓ} : {K : Type ℓ} → Discrete K → K → List (K × ℕ) → Option ℕ
find_index dec key [] = none
find_index dec key ((k, i) ∷ index) = ite (dec k key) (some i) (find_index dec key index)

-- The index that the copy loop builds.
unfoldable pub build_index {ℓ} :
    {K P : Type ℓ} → ℕ → List (CacheEntry K P) → List (K × ℕ) → List (K × ℕ)
build_index i [] index = index
build_index i (e ∷ entries) index = build_index (i + 1) entries ((e.key, i) ∷ index)

module _ {ℓ} {K P : Type ℓ} (dec : Discrete K) (empty_key : K) where
  -- The zero value of `cacheEntry`.
  abbrev pub blank : CacheEntry K P
  blank = record { key = empty_key; plan = none }

  abbrev pub no_entries : CacheSnapshot K P
  no_entries = record { entries = []; index = [] }

  unfoldable pub new_cache : ℕ → BoundedCache K P
  new_cache capacity =
      let n : ℕ = if leb capacity 0 then 1 else capacity in
      record {
        capacity = n;
        entries = replicate n blank;
        head = 0;
        count = 0;
        snapshot = no_entries;
        hits = 0;
        misses = 0;
        evictions = 0;
      }

  unfoldable pub get : BoundedCache K P → K → BoundedCache K P × Option P × Bool
  get c key = elim (find_index dec key c.snapshot.index) [
    | some i ↦ (record c { hits = c.hits + 1 }, (get_or c.snapshot.entries i blank).plan, true)
    | none ↦ (record c { misses = c.misses + 1 }, none, false)
  ]

  -- `c.snapshot.Store` of a fresh copy of the ring.
  unfoldable pub publish : BoundedCache K P → BoundedCache K P
  unfolding build_index
  publish c =
      let entries = window blank c.capacity c.entries (c.head + c.capacity - c.count) c.count in
      record c { snapshot = record { entries = entries; index = build_index 0 entries [] } }

  -- `Set` for a key that the snapshot does not hold.
  unfoldable pub insert : BoundedCache K P → K → Option P → BoundedCache K P × Bool
  unfolding publish
  insert c key plan =
      let evicted = leb c.capacity c.count in
      (
        publish (record c {
          entries = set c.entries c.head (record { key = key; plan = plan });
          head = (c.head + 1) % c.capacity;
          count = if ltb c.count c.capacity then c.count + 1 else c.count;
          evictions = if evicted then c.evictions + 1 else c.evictions;
        }),
        evicted,
      )

  -- `Set`, with whether an entry was evicted.
  unfoldable pub put : BoundedCache K P → K → Option P → BoundedCache K P × Bool
  unfolding insert
  put c key plan = elim (find_index dec key c.snapshot.index) [
    | some _ ↦ (c, false)
    | none ↦ insert c key plan
  ]

  unfoldable pub invalidate : BoundedCache K P → BoundedCache K P
  invalidate c = record c {
    entries = replicate (length c.entries) blank;
    count = 0;
    head = 0;
    snapshot = no_entries;
  }

  unfoldable pub stats : BoundedCache K P → Stats
  stats c = record { hits = c.hits; misses = c.misses; entries = c.count; evictions = c.evictions }

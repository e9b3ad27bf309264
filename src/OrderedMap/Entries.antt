-- ===== src/OrderedMap/Entries.antt =====
-- An ordered map refines an association list in insertion order.
use jsonata.Base.{
  suc, Bool, true, false, List, [], ◌∷◌, ◌++◌, Option, none, some, ite, if◌then◌else◌, ◌≡◌, refl,
  sym, ap, ◌∙◌, arith, Option-cases, inl, inr, length,
}
use jsonata.OrderedMap.Ops.{
  OrderedMap, new_ordered_map, delete_key, has, put, delete, range, range_keys,
}

module _ {ℓ} {K V : Type ℓ} (dec : Discrete K) where
  -- The abstract view: keys with their values, oldest first.
  unfoldable pub lookup : K → List (K × V) → Option V
  lookup key [] = none
  lookup key ((k, v) ∷ l) = ite (dec k key) (some v) (lookup key l)

  unfoldable pub insert : K → V → List (K × V) → List (K × V)
  insert key v [] = (key, v) ∷ []
  insert key v ((k, w) ∷ l) = ite (dec k key) ((k, v) ∷ l) ((k, w) ∷ insert key v l)

  unfoldable pub remove : K → List (K × V) → List (K × V)
  remove key [] = []
  remove key ((k, w) ∷ l) = ite (dec k key) l ((k, w) ∷ remove key l)

  abbrev pub keys_of : List (K × V) → List K
  keys_of [] = []
  keys_of ((k, v) ∷ l) = k ∷ keys_of l

  abbrev pub Distinct : List (K × V) → Type ℓ
  Distinct [] = Unit
  Distinct ((k, v) ∷ l) = (lookup k l ≡ none) × Distinct l

  -- A map that shows `l`: its keys are those of `l`, in order and each once, and it stores just what `l` holds.
  pub record Shows (m : OrderedMap K V) (l : List (K × V)) : Type ℓ where
    pub ordered : m.keys ≡ keys_of l
    pub content : (k : K) → m.stored k ≡ lookup k l
    pub distinct : Distinct l

  lookup-insert :
      (key k : K) (v : V) (l : List (K × V))
      → lookup k (insert key v l) ≡ ite (dec key k) (some v) (lookup k l)
  unfolding lookup insert
  lookup-insert key k v [] = refl
  lookup-insert key k v ((j, w) ∷ l) = ground (arith, lookup-insert key k v l)

  keys-insert :
      (key : K) (v : V) (l : List (K × V))
      → keys_of (insert key v l)
        ≡ elim (lookup key l) [ some _ ↦ keys_of l | none ↦ keys_of l ++ key ∷ [] ]
  unfolding lookup insert
  keys-insert key v [] = refl
  keys-insert key v ((j, w) ∷ l) = ground (arith, keys-insert key v l)

  insert-Distinct : (key : K) (v : V) (l : List (K × V)) → Distinct l → Distinct (insert key v l)
  unfolding lookup insert
  insert-Distinct key v [] h = (refl, tt)
  insert-Distinct key v ((j, w) ∷ l) (new, h) =
      ground (arith, insert-Distinct key v l h, lookup-insert key j v l)

  lookup-remove :
      (key k : K) (l : List (K × V))
      → Distinct l
      → lookup k (remove key l) ≡ ite (dec key k) none (lookup k l)
  unfolding lookup remove
  lookup-remove key k [] h = ground arith
  lookup-remove key k ((j, w) ∷ l) (new, h) = ground (arith, lookup-remove key k l h)

  remove-Distinct : (key : K) (l : List (K × V)) → Distinct l → Distinct (remove key l)
  unfolding remove
  remove-Distinct key [] h = tt
  remove-Distinct key ((j, w) ∷ l) (new, h) =
      ground (arith, remove-Distinct key l h, lookup-remove key j l h)

  delete_absent :
      (key : K) (l : List (K × V))
      → lookup key l ≡ none
      → delete_key dec key (keys_of l) ≡ keys_of l
  unfolding delete_key lookup
  delete_absent key [] h = refl
  delete_absent key ((j, w) ∷ l) h = ground (arith, delete_absent key l)

  remove_absent : (key : K) (l : List (K × V)) → lookup key l ≡ none → remove key l ≡ l
  unfolding remove lookup
  remove_absent key [] h = refl
  remove_absent key ((j, w) ∷ l) h = ground (arith, remove_absent key l)

  length-keys : (l : List (K × V)) → length (keys_of l) ≡ length l
  length-keys [] = refl
  length-keys ((k, v) ∷ l) = ap suc (length-keys l)

  put_order :
      (keys : List K) (l : List (K × V)) (key : K) (v : V) (there : Bool)
      → keys ≡ keys_of l
      → there ≡ elim (lookup key l) [ some _ ↦ true | none ↦ false ]
      → (if there then keys else keys ++ key ∷ []) ≡ keys_of (insert key v l)
  put_order keys l key v there same h = elim (Option-cases (lookup key l)) [
    | inl absent ↦ rw (keys-insert key v l, h, absent, same)
    | inr (w, present) ↦ rw (keys-insert key v l, h, present, same)
  ]

  keys-remove :
      (key : K) (l : List (K × V))
      → Distinct l
      → keys_of (remove key l) ≡ delete_key dec key (keys_of l)
  unfolding remove delete_key
  keys-remove key [] h = refl
  keys-remove key ((j, w) ∷ l) (new, h) = ground (arith, keys-remove key l h, delete_absent key l)

  has-lookup :
      (m : OrderedMap K V) (l : List (K × V)) (key : K)
      → Shows m l
      → has dec m key ≡ elim (lookup key l) [ some _ ↦ true | none ↦ false ]
  unfolding has
  has-lookup m l key s = rw (s.content key, has)

  pub new_ordered_map-Shows : Shows new_ordered_map []
  unfolding new_ordered_map lookup
  new_ordered_map-Shows = record { ordered = refl; content = λ k. refl; distinct = tt }

  -- On a map that shows `l`, `Set` shows `l` with the admitted value: at the key's old place, or at the end.
  pub put-Shows :
      (admit : V → V) (m : OrderedMap K V) (l : List (K × V)) (key : K) (v : V)
      → Shows m l
      → Shows (put dec admit m key v) (insert key (admit v) l)
  unfolding put
  put-Shows admit m l key v s = record {
    ordered = put_order m.keys l key (admit v) (has dec m key) s.ordered (has-lookup m l key s);
    content = λ k. ground (arith, s.content k, lookup-insert key k (admit v) l);
    distinct = insert-Distinct key (admit v) l s.distinct;
  }

  -- `Delete` shows `l` without the key, the others in their order.
  pub delete-Shows :
      (m : OrderedMap K V) (l : List (K × V)) (key : K)
      → Shows m l
      → Shows (delete dec m key) (remove key l)
  unfolding delete
  delete-Shows m l key s = elim (Option-cases (lookup key l)) [
    | inl absent ↦ rw (has-lookup m l key s, absent, delete) (rw (remove_absent key l absent) s)
    | inr (v, present) ↦
        rw (has-lookup m l key s, present, delete)
          (record {
            ordered = ap (delete_key dec key) s.ordered ∙ sym (keys-remove key l s.distinct);
            content = λ k. ground (arith, s.content k, lookup-remove key k l s.distinct);
            distinct = remove-Distinct key l s.distinct;
          })
  ]

  -- A loop over the shown entries that the callback may stop.
  unfoldable pub each {κ} : {S : Type κ} → (S → K → Option V → S × Bool) → S → List (K × V) → S
  each fn s [] = s
  each fn s ((k, v) ∷ l) =
      let (s', more) = fn s k (some v) in let rest = each fn s' l in if more then rest else s'

  lookup_first : (k : K) (v : V) (l : List (K × V)) → lookup k ((k, v) ∷ l) ≡ some v
  unfolding lookup
  lookup_first k v l = ground arith

  lookup_later :
      (j k : K) (v : V) (l : List (K × V)) {w : V}
      → lookup k l ≡ none
      → lookup j l ≡ some w
      → lookup j ((k, v) ∷ l) ≡ some w
  unfolding lookup
  lookup_later j k v l h q = ground arith

  range_each {κ} :
      {S : Type κ} (fn : S → K → Option V → S × Bool) (stored : K → Option V) (s : S)
      (l : List (K × V))
      → ((k : K) (w : V) → lookup k l ≡ some w → stored k ≡ some w)
      → Distinct l
      → range_keys dec stored fn s (keys_of l) ≡ each fn s l
  unfolding range_keys each
  range_each fn stored s [] h d = refl
  range_each fn stored s ((k, v) ∷ l) h (new, d) = rw (h k v (lookup_first k v l)) (
      ap (λ (rest : _). if (fn s k (some v)).1 then rest else (fn s k (some v)).0)
        (range_each fn stored (fn s k (some v)).0 l (λ j w q. h j w (lookup_later j k v l new q))
          d))

  -- `Range` runs the callback on the shown entries in their order, up to the first that stops it.
  pub range-Shows {κ} :
      {S : Type κ} (m : OrderedMap K V) (l : List (K × V)) (fn : S → K → Option V → S × Bool)
      (s : S)
      → Shows m l
      → range dec m fn s ≡ each fn s l
  unfolding range
  range-Shows m l fn s h =
      ap (range_keys dec m.stored fn s) h.ordered
      ∙ range_each fn m.stored s l (λ k w q. h.content k ∙ q) h.distinct

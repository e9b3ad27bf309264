-- ===== src/Parser/Readable.antt =====
-- The paths of go/internal/engine/internal/parser/analysis.go can be read back.
use jsonata.Base.{
  append-nil, Bool, true, false, not, ◌&&◌, [], ◌∷◌, ◌++◌, Option, none, some, List, Bytes,
  if◌then◌else◌, ◌≡◌, refl, ap, sym, ◌∙◌,
}
use mathlib.Core.Option.{some-injective}
use jsonata.Parser.Node.{Node, node, Shape, Nodes, nil, cons, name, path, shape_of}
use jsonata.Parser.FastPaths.{
  ◌>>=◌, escape_name, step_path, join_steps, steps_path, collect_paths, no_group_there,
  is_empty_name,
}
use jsonata.Parser.Splits.{split_path, is_tickless, split_path-escape_name}

-- The names of the steps.
abbrev pub step_name : Shape → Bytes
step_name (name v) = v
step_name shape = []

abbrev pub step_names : Nodes → List Bytes
step_names nil = []
step_names (cons n ns) = step_name (shape_of n) ∷ step_names ns

abbrev pub names_of : Node → List Bytes
names_of (node pos marks g (path keeps steps)) = step_names steps
names_of n = step_name (shape_of n) ∷ []

abbrev pub AreTickless : List Bytes → Type 0
AreTickless [] = Unit
AreTickless (s ∷ names) = (is_tickless s ≡ true) × AreTickless names

-- What a bind that gives a result went through.
bind-some {ℓ κ} :
    {A : Type ℓ} {B : Type κ} (a : Option A) (f : A → Option B) (b : B)
    → (a >>= f) ≡ some b
    → (x : A) × (a ≡ some x) × (f x ≡ some b)
bind-some none f b e = cc
bind-some (some x) f b e = (x, refl, e)

step_path-name :
    (n : Node) (part : Bytes)
    → step_path n ≡ some part
    → escape_name (step_name (shape_of n)) ≡ some part
step_path-name (node pos marks g (name v)) part e =
    of_test (no_group_there g && is_empty_name marks.focus && not marks.keep_array) e
  where
    of_test :
        (t : Bool) → (if t then escape_name v else none) ≡ some part → escape_name v ≡ some part
    of_test true h = h
    of_test false h = cc
step_path-name (node pos marks g shape) part e = cc

-- A step, and what is read behind it.
split_path-step :
    (n : Node) (p rest : Bytes)
    → step_path n ≡ some p
    → is_tickless (step_name (shape_of n)) ≡ true
    → split_path false [] (p ++ rest) ≡ split_path false (step_name (shape_of n)) rest
split_path-step n p rest step h =
    split_path-escape_name (step_name (shape_of n)) p rest (step_path-name n p step) h

-- The steps behind the first one.
split_path-join_steps :
    (ns : Nodes) (part rest : Bytes)
    → join_steps ns ≡ some rest
    → AreTickless (step_names ns)
    → split_path false part rest ≡ part ∷ step_names ns
unfolding join_steps split_path
split_path-join_steps nil part rest e h = rw (sym (some-injective [] rest e)) refl
split_path-join_steps (cons n ns) part rest e (h, hs) =
    of_step (bind-some (step_path n) (λ p. join_steps ns >>= λ r. some (b'.' ∷ (p ++ r))) rest e)
      (λ q r joined. split_path-join_steps ns q r joined hs)
  where
    Reads : Type 0
    Reads = (q r : Bytes) → join_steps ns ≡ some r → split_path false q r ≡ q ∷ step_names ns

    goal : Type 0
    goal = split_path false part rest ≡ part ∷ step_names (cons n ns)

    of_rest :
        (p : Bytes)
        → step_path n ≡ some p
        → (r : Bytes) × (join_steps ns ≡ some r) × (some (b'.' ∷ (p ++ r)) ≡ some rest)
        → Reads
        → goal
    of_rest p step (r, joined, same) reads = rw (sym (some-injective (b'.' ∷ (p ++ r)) rest same)) (
        ap (λ names. part ∷ names)
          (split_path-step n p r step h ∙ reads (step_name (shape_of n)) r joined))

    of_step :
        (p : Bytes) × (step_path n ≡ some p)
          × ((join_steps ns >>= λ r. some (b'.' ∷ (p ++ r))) ≡ some rest)
        → Reads
        → goal
    of_step (p, step, g) reads =
        of_rest p step (bind-some (join_steps ns) (λ r. some (b'.' ∷ (p ++ r))) rest g) reads

-- A name by itself.
split_path-name :
    (v p : Bytes) → escape_name v ≡ some p → is_tickless v ≡ true → split_path false [] p ≡ v ∷ []
unfolding split_path
split_path-name v p e h =
    ap (split_path false []) (sym (append-nil p)) ∙ split_path-escape_name v p [] e h

-- The steps of a path.
split_path-steps :
    (n : Node) (ns : Nodes) (p : Bytes)
    → steps_path (cons n ns) ≡ some (p ∷ [])
    → AreTickless (step_names (cons n ns))
    → split_path false [] p ≡ step_names (cons n ns)
unfolding steps_path
split_path-steps n ns p e (h, hs) =
    of_step (bind-some (step_path n) (λ q. join_steps ns >>= λ r. some ((q ++ r) ∷ [])) (p ∷ []) e)
  where
    goal : Type 0
    goal = split_path false [] p ≡ step_names (cons n ns)

    of_rest :
        (q : Bytes)
        → step_path n ≡ some q
        → (r : Bytes) × (join_steps ns ≡ some r) × (some ((q ++ r) ∷ []) ≡ some (p ∷ []))
        → goal
    of_rest q step (r, joined, same) =
        ap (split_path false []) (sym (only_one (q ++ r) same))
        ∙ split_path-step n q r step h
        ∙ split_path-join_steps ns (step_name (shape_of n)) r joined hs
      where
        only_one : (t : Bytes) → some (t ∷ []) ≡ some (p ∷ []) → t ≡ p
        only_one t g = cc

    of_step :
        (q : Bytes) × (step_path n ≡ some q)
          × ((join_steps ns >>= λ r. some ((q ++ r) ∷ [])) ≡ some (p ∷ []))
        → goal
    of_step (q, step, g) =
        of_rest q step (bind-some (join_steps ns) (λ r. some ((q ++ r) ∷ [])) (p ∷ []) g)

-- If `collectPaths` takes an expression whose names hold no backtick, its path can be read back: split at the dots that
-- do not stand between backticks, and without the backticks, it is the list of the names.
pub split_path-collect_paths :
    (n : Node) (p : Bytes)
    → collect_paths n ≡ some (p ∷ [])
    → AreTickless (names_of n)
    → split_path false [] p ≡ names_of n
unfolding collect_paths steps_path
split_path-collect_paths (node pos marks g (name v)) p e (h, _) =
    of_test (no_group_there g && is_empty_name marks.focus) e
  where
    of_escaped :
        (r : Option Bytes)
        → escape_name v ≡ r
        → (r >>= λ q. some (q ∷ [])) ≡ some (p ∷ [])
        → escape_name v ≡ some p
    of_escaped none k f = cc
    of_escaped (some q) k f = k ∙ ap some (only_one q f)
      where
        only_one : (t : Bytes) → some (t ∷ []) ≡ some (p ∷ []) → t ≡ p
        only_one t g = cc

    of_test :
        (t : Bool)
        → (if t then (escape_name v >>= λ q. some (q ∷ [])) else none) ≡ some (p ∷ [])
        → split_path false [] p ≡ v ∷ []
    of_test true f = split_path-name v p (of_escaped (escape_name v) refl f) h
    of_test false f = cc
split_path-collect_paths (node pos marks g (path keeps nil)) p e h = cc
split_path-collect_paths (node pos marks g (path keeps (cons n ns))) p e h =
    split_path-steps n ns p e h
split_path-collect_paths (node pos marks g shape) p e h = cc

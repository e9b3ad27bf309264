-- ===== src/Scope/Environment.antt =====
-- `Environment` of go/internal/engine/internal/evaluator/env.go. A scope is the chain of its frames, innermost first, and
-- `[]` is Go's nil. Frames are values: a method that changes a scope returns it. The counter that the frames of one
-- evaluation share by a pointer is a number into a store. A zero time and a nil context are `none`.
use jsonata.Base.{
  ℕ, Bool, true, false, ◌||◌, List, [], ◌∷◌, Option, none, some, Bytes, codes, bytes_eq,
  if◌then◌else◌,
}
use mathlib.Core.Option

-- `numeric.Limits` and its defaults.
pub record Limits : Type 0 where
  pub max_digits : ℕ
  pub max_exponent : ℕ

abbrev pub default_limits : Limits
default_limits = record { max_digits = 4096; max_exponent = 4096 }

pub record CallCounter : Type 0 where
  pub depth : ℕ
  pub eval_depth : ℕ
  pub max : ℕ

abbrev pub new_counter : CallCounter
new_counter = record { depth = 0; eval_depth = 0; max = 100 }

-- Values, contexts and instants are those of the evaluator and of Go's libraries.
pub record Frame (V C T : Type 0) : Type 0 where
  pub standard_library_only : Bool
  pub bindings : List (Bytes × V)
  pub calls : Option ℕ
  pub ctx : Option C
  pub numbers : Option Limits
  pub timestamp : Option T

abbrev pub Environment : Type 0 → Type 0 → Type 0 → Type 0
Environment V C T = List (Frame V C T)

-- A read of a Go map with string keys, the latest write first.
unfoldable pub find {ℓ} : {A : Type ℓ} → Bytes → List (Bytes × A) → Option A
find name [] = none
find name ((k, v) ∷ m) = if bytes_eq k name then some v else find name m

-- The counters of the running evaluations.
abbrev pub Counters : Type 0
Counters = ℕ → CallCounter

module _ {V C T : Type 0} where
  abbrev pub empty_frame : Frame V C T
  empty_frame = record {
    standard_library_only = false;
    bindings = [];
    calls = none;
    ctx = none;
    numbers = none;
    timestamp = none;
  }

  -- `callCounter`; `none` stands for the fresh counter of a nil scope.
  unfoldable pub call_counter : Environment V C T → Option ℕ
  call_counter [] = none
  call_counter (f ∷ parent) = elim f.calls [ some c ↦ some c | none ↦ call_counter parent ]

  -- `NewEnvironment`, with its counter and the current time.
  unfoldable pub new_environment : ℕ → T → Environment V C T
  new_environment counter now =
      record empty_frame { calls = some counter; timestamp = some now } ∷ []

  -- `NewChildEnvironment`; `fresh` is used where the chain has no counter.
  unfoldable pub new_child : ℕ → Environment V C T → Environment V C T
  unfolding call_counter
  new_child fresh [] = empty_frame ∷ []
  new_child fresh (f ∷ parent) =
      record empty_frame { calls = some (Option.get_or (call_counter (f ∷ parent)) fresh) }
      ∷ f
      ∷ parent

  -- `Bind`, with the `InternalizeValue` that it applies.
  unfoldable pub bind : (V → V) → Bytes → V → Environment V C T → Environment V C T
  bind admit name v [] = []
  bind admit name v (f ∷ parent) = record f { bindings = (name, admit v) ∷ f.bindings } ∷ parent

  unfoldable pub lookup : Bytes → Environment V C T → Option V
  unfolding find
  lookup name [] = none
  lookup name (f ∷ parent) = elim (find name f.bindings) [
    | some v ↦ some v
    | none ↦ lookup name parent
  ]

  unfoldable pub lookup_with_env : Bytes → Environment V C T → Option (V × Environment V C T)
  unfolding find
  lookup_with_env name [] = none
  lookup_with_env name (f ∷ parent) = elim (find name f.bindings) [
    | some v ↦ some (v, f ∷ parent)
    | none ↦ lookup_with_env name parent
  ]

  unfoldable pub lookup_direct : Bytes → Environment V C T → Option V
  unfolding find
  lookup_direct name [] = none
  lookup_direct name (f ∷ parent) = find name f.bindings

  -- `UseStandardLibraryOnly`; `nothing` is the Go nil that it binds.
  unfoldable pub use_standard_library_only : V → Environment V C T → Environment V C T
  use_standard_library_only nothing [] = []
  use_standard_library_only nothing (f ∷ parent) =
      record f { standard_library_only = true; bindings = (codes "clone", nothing) ∷ f.bindings }
      ∷ parent

  unfoldable pub standard_library_only : Environment V C T → Bool
  standard_library_only [] = false
  standard_library_only (f ∷ parent) = f.standard_library_only || standard_library_only parent

  unfoldable pub reset_timestamp : T → Environment V C T → Environment V C T
  reset_timestamp now [] = []
  reset_timestamp now (f ∷ parent) = record f { timestamp = some now } ∷ parent

  unfoldable pub timestamp : Environment V C T → Option T
  timestamp [] = none
  timestamp (f ∷ parent) = elim f.timestamp [ some t ↦ some t | none ↦ timestamp parent ]

  unfoldable pub number_limits : Environment V C T → Limits
  number_limits [] = default_limits
  number_limits (f ∷ parent) = elim f.numbers [ some l ↦ l | none ↦ number_limits parent ]

  unfoldable pub set_number_limits : Limits → Environment V C T → Environment V C T
  set_number_limits l [] = []
  set_number_limits l (f ∷ parent) = record f { numbers = some l } ∷ parent

  -- `Context`, where `background` is `context.Background()`.
  unfoldable pub context : C → Environment V C T → C
  context background [] = background
  context background (f ∷ parent) = elim f.ctx [ some c ↦ c | none ↦ context background parent ]

  unfoldable pub set_context : C → Environment V C T → Environment V C T
  set_context c [] = []
  set_context c (f ∷ parent) = record f { ctx = some c } ∷ parent

  unfoldable pub reset_call_counter : ℕ → Environment V C T → Environment V C T
  reset_call_counter fresh [] = []
  reset_call_counter fresh (f ∷ parent) = record f { calls = some fresh } ∷ parent

  -- `Clone` copies the frame and shares the parent; a copy of a value is the value.
  unfoldable pub clone : Environment V C T → Environment V C T
  clone [] = []
  clone (f ∷ parent) = f ∷ parent

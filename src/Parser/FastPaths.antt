-- ===== src/Parser/FastPaths.antt =====
-- go/internal/engine/internal/parser/analysis.go: which expressions the engine may read by a path of gjson, a third-party
-- library, without the evaluator. `Stages` and `ConsArray`, which no code of the repository sets, the reserved
-- `FuncFastRound`, and the numbers of comparisons in binary64 are left out.
use jsonata.Base.{
  Bool, true, false, not, ◌&&◌, ◌||◌, [], ◌∷◌, ◌++◌, Option, none, some, List, Bytes, codes,
  bytes_eq, ◌==◌, if◌then◌else◌,
}
use jsonata.Lexer.Spans.{member}
use jsonata.Parser.Node.{
  Node, node, Group, no_group, Nodes, nil, cons, name, string, number, value, variable, binary,
  function, path,
}

pub data FuncFastKind : Type 0 where
  exists contains to_text boolean number_of keys distinct not_of lowercase uppercase trim length_of
        type_of abs floor ceil :
      FuncFastKind
  sqrt count reverse sum max min average : FuncFastKind

-- `funcFastKinds`
abbrev pub func_fast_kinds : List (Bytes × FuncFastKind)
func_fast_kinds =
    (codes "exists", exists)
    ∷ (codes "string", to_text)
    ∷ (codes "boolean", boolean)
    ∷ (codes "number", number_of)
    ∷ (codes "keys", keys)
    ∷ (codes "distinct", distinct)
    ∷ (codes "not", not_of)
    ∷ (codes "lowercase", lowercase)
    ∷ (codes "uppercase", uppercase)
    ∷ (codes "trim", trim)
    ∷ (codes "length", length_of)
    ∷ (codes "type", type_of)
    ∷ (codes "abs", abs)
    ∷ (codes "floor", floor)
    ∷ (codes "ceil", ceil)
    ∷ (codes "sqrt", sqrt)
    ∷ (codes "count", count)
    ∷ (codes "reverse", reverse)
    ∷ (codes "sum", sum)
    ∷ (codes "max", max)
    ∷ (codes "min", min)
    ∷ (codes "average", average)
    ∷ []

unfoldable pub kind_of : Bytes → List (Bytes × FuncFastKind) → Option FuncFastKind
unfolding bytes_eq
kind_of v [] = none
kind_of v ((text, kind) ∷ rest) = if bytes_eq v text then some kind else kind_of v rest

-- The literal on the right of a comparison.
pub data Literal : Type 0 where
  text_literal number_literal : Bytes → Literal
  bool_literal : Bool → Literal
  null_literal : Literal

-- What `AnalyzeFastPath` finds: the paths, a comparison (of a path, whether it is `=`, and the literal), a call (of a
-- kind, on a path, with the text of `$contains`), or nothing.
pub data FastPath : Type 0 where
  pure_paths : List Bytes → FastPath
  comparison : Bytes → Bytes → Literal → FastPath
  call : FuncFastKind → Bytes → Bytes → FastPath
  no_fast_path : FastPath

infixl 5 ◌>>=◌
abbrev pub ◌>>=◌ {ℓ κ} : {A : Type ℓ} {B : Type κ} → Option A → (A → Option B) → Option B
none >>= f = none
some a >>= f = f a

-- The characters that a name is quoted for: those of `.*?|#[]!{}\` and the blank.
unfoldable pub is_special : Bytes → Bool
is_special [] = false
is_special (c ∷ s) = member c (codes ".*?|#[]!{}\\ ") || is_special s

-- `strings.ReplaceAll` of a backtick by a backslash and a backtick.
unfoldable pub escape_ticks : Bytes → Bytes
escape_ticks [] = []
escape_ticks (c ∷ s) = if c == b'`' then b'\\' ∷ b'`' ∷ escape_ticks s else c ∷ escape_ticks s

abbrev pub starts_at : Bytes → Bool
starts_at [] = false
starts_at (c ∷ s) = c == b'@'

-- `gjsonEscapeName`
unfoldable pub escape_name : Bytes → Option Bytes
unfolding is_special escape_ticks
escape_name s =
    if starts_at s
    then none
    else if is_special s
    then some (b'`' ∷ (escape_ticks s ++ (b'`' ∷ [])))
    else some s

abbrev pub is_empty_name : Bytes → Bool
is_empty_name [] = true
is_empty_name s = false

abbrev pub no_group_there : Group → Bool
no_group_there no_group = true
no_group_there g = false

-- The name of a step, if it has no group, no focus and no `[]`.
abbrev pub step_path : Node → Option Bytes
step_path (node pos marks g (name v)) =
    if no_group_there g && is_empty_name marks.focus && not marks.keep_array
    then escape_name v
    else none
step_path n = none

-- `strings.Join` of the parts by dots, behind the first one.
unfoldable pub join_steps : Nodes → Option Bytes
unfolding escape_name
join_steps nil = some []
join_steps (cons n ns) = do part ← step_path n; rest ← join_steps ns; some (b'.' ∷ (part ++ rest))

unfoldable pub steps_path : Nodes → Option (List Bytes)
unfolding join_steps
steps_path nil = none
steps_path (cons n ns) = do part ← step_path n; rest ← join_steps ns; some ((part ++ rest) ∷ [])

-- `collectPaths`
unfoldable pub collect_paths : Node → Option (List Bytes)
unfolding steps_path escape_name
collect_paths (node pos marks g (name v)) =
    if no_group_there g && is_empty_name marks.focus
    then (do escaped ← escape_name v; some (escaped ∷ []))
    else none
collect_paths (node pos marks g (path keeps steps)) = steps_path steps
collect_paths n = none

-- The only path there is.
abbrev pub one_path : Option (List Bytes) → Option Bytes
one_path (some (p ∷ [])) = some p
one_path paths = none

unfoldable pub literal_of : Node → Option Literal
unfolding bytes_eq
literal_of (node pos marks g (string v)) = some (text_literal v)
literal_of (node pos marks g (number v)) = some (number_literal v)
literal_of (node pos marks g (value v)) =
    if bytes_eq v (codes "true")
    then some (bool_literal true)
    else if bytes_eq v (codes "false")
    then some (bool_literal false)
    else if bytes_eq v (codes "null")
    then some null_literal
    else none
literal_of n = none

-- `tryCollectComparison`
unfoldable pub try_collect_comparison : Node → Option FastPath
unfolding collect_paths literal_of bytes_eq
try_collect_comparison (node pos marks g (binary op l r)) =
    if bytes_eq op (codes "=") || bytes_eq op (codes "!=")
    then (do p ← one_path (collect_paths l); literal ← literal_of r; some (comparison p op literal))
    else none
try_collect_comparison n = none

-- The arguments of `$contains`.
abbrev pub contains_call : Nodes → Option FastPath
contains_call (cons arg (cons (node pos marks g (string v)) nil)) = do
  p ← one_path (collect_paths arg)
  some (call contains p v)
contains_call args = none

abbrev pub single_call : Option FuncFastKind → Nodes → Option FastPath
single_call (some kind) (cons arg nil) = do p ← one_path (collect_paths arg); some (call kind p [])
single_call kind args = none

-- `tryCollectFunc`
unfoldable pub try_collect_func : Node → Option FastPath
unfolding collect_paths kind_of bytes_eq
try_collect_func (node pos marks g (function v (node q m h (variable f)) args)) =
    if bytes_eq f (codes "contains")
    then contains_call args
    else single_call (kind_of f func_fast_kinds) args
try_collect_func n = none

abbrev pub or_else : Option FastPath → FastPath → FastPath
or_else (some r) other = r
or_else none other = other

abbrev pub paths_or : Option (List Bytes) → FastPath → FastPath
paths_or (some paths) other = pure_paths paths
paths_or none other = other

-- `AnalyzeFastPath`
unfoldable pub analyze_fast_path : Node → FastPath
unfolding collect_paths try_collect_comparison try_collect_func
analyze_fast_path n =
    paths_or (collect_paths n)
      (or_else (try_collect_comparison n) (or_else (try_collect_func n) no_fast_path))

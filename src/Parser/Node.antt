-- ===== src/Parser/Node.antt =====
-- `Node` of go/internal/engine/internal/parser/ast.go, as the parser and `ProcessAST` make it: the fields of each
-- `Type` are a constructor, and `path` with its `KeepSingletonArray` comes from `ProcessAST` alone. `NumVal` and the
-- fields that no function of the package sets are left out.
use jsonata.Base.{ℕ, Bool, false, [], Bytes, codes}

-- The fields that `[]`, `@` and `#` set, where no name is the empty text, and `Thunk`.
pub record Marks : Type 0 where
  pub keep_array : Bool
  pub focus : Bytes
  pub index : Bytes
  pub thunk : Bool

abbrev pub no_marks : Marks
no_marks = record { keep_array = false; focus = []; index = []; thunk = false }

-- A node has its position, its marks, its group expression and its shape. `branch` is a pointer that may be nil. In
-- `array`, `object` and `negation` the source has a unary node, whose `Value` is `[`, `{` or `-`; the keys and values
-- of an object and of a group alternate.
mutual
  pub data Node : Type 0 where
    node : ℕ → Marks → Group → Shape → Node

  pub data Group : Type 0 where
    no_group : Group
    group : ℕ → Nodes → Group

  pub data Shape : Type 0 where
    name variable string number value regex : Bytes → Shape
    wildcard descendant parent placeholder : Shape
    negation : Node → Shape
    array object block : Nodes → Shape
    condition : Node → Node → Branch → Shape
    bind : Node → Node → Shape
    binary : Bytes → Node → Node → Shape
    function partial : Bytes → Node → Nodes → Shape
    lambda : Nodes → Bool → Bytes → Node → Shape
    transform : Node → Node → Branch → Shape
    sort : Node → Terms → Shape
    path : Bool → Nodes → Shape

  pub data Branch : Type 0 where
    absent : Branch
    branch : Node → Branch

  pub data Nodes : Type 0 where
    nil : Nodes
    cons : Node → Nodes → Nodes

  pub data Terms : Type 0 where
    end : Terms
    term : Bool → Node → Terms → Terms

abbrev pub plain_node : ℕ → Shape → Node
plain_node pos shape = node pos no_marks no_group shape

abbrev pub snoc : Nodes → Node → Nodes
snoc nil n = cons n nil
snoc (cons m ns) n = cons m (snoc ns n)

abbrev pub snoc_term : Terms → Bool → Node → Terms
snoc_term end descending n = term descending n end
snoc_term (term d m ts) descending n = term d m (snoc_term ts descending n)

abbrev pub shape_of : Node → Shape
shape_of (node pos marks g shape) = shape

-- The field `Value`.
abbrev pub value_of_shape : Shape → Bytes
value_of_shape (name v) = v
value_of_shape (variable v) = v
value_of_shape (string v) = v
value_of_shape (number v) = v
value_of_shape (value v) = v
value_of_shape (regex v) = v
value_of_shape wildcard = codes "*"
value_of_shape descendant = codes "**"
value_of_shape parent = codes "%"
value_of_shape placeholder = codes "?"
value_of_shape (negation n) = codes "-"
value_of_shape (array ns) = codes "["
value_of_shape (object ns) = codes "{"
value_of_shape (binary op l r) = op
value_of_shape (function v f ns) = v
value_of_shape (partial v f ns) = v
value_of_shape (path keeps steps) = codes "."
value_of_shape shape = []

abbrev pub value_of : Node → Bytes
value_of n = value_of_shape (shape_of n)

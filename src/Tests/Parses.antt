-- ===== src/Tests/Parses.antt =====
-- Parsed and processed expressions.
use jsonata.Base.{
  ◌∷◌, false, [], some, ℕ, Bool, true, bytes_eq, ◌⊎◌, inl, inr, Bytes, codes, ◌≡◌, refl,
}
use jsonata.Lexer.Token.{LexError}
use jsonata.Parser.Node.{
  path, lambda, function, Node, node, no_marks, plain_node, binary, nil, cons, Shape, no_group,
  Group, group,
}
use jsonata.Parser.State.{Parsed, done, fails, ParseError, syntax, s0207}
use jsonata.Parser.Expression.{parse, tree_of}
use jsonata.Parser.Ends.{EndsWell, parse-EndsWell}
use jsonata.Parser.Process.{process}
use jsonata.Parser.Flat.{IsFlat}
use jsonata.Lexer.Spans.{member}
use jsonata.Parser.FastPaths.{collect_paths, analyze_fast_path, pure_paths}
use jsonata.Parser.Readable.{AreTickless, names_of, split_path-collect_paths}
use jsonata.Parser.Splits.{split_path, is_tickless}
use jsonata.Parser.Compiled.{process-parse-IsFlat, process-parse_twice}

abbrev compiles_all : Bytes → Bytes → Bool
compiles_all pattern flags = true

abbrev Outcome : Type 0
Outcome = Node ⊎ ParseError

abbrev outcome : Parsed Node → Outcome
outcome (done n p) = inl n
outcome (fails e) = inr e

abbrev digit : ℕ → Bytes → Node
digit pos v = plain_node pos (Shape.number v)

-- `1+2*3` is `1+(2*3)`.
abbrev sum_of_product : Node
sum_of_product = plain_node 1 (
    binary (codes "+") (digit 0 (codes "1"))
      (plain_node 3 (binary (codes "*") (digit 2 (codes "2")) (digit 4 (codes "3")))))

-- The slash behind a subscript is read as the start of a regular expression.
subscript_slash :
    outcome (parse compiles_all (codes "a[0]/2")) ≡ inr (ParseError.lexical LexError.s0302)
unfolding parse
subscript_slash = refl

-- The text of a token changes the code of the error.
quoted_code :
    outcome (parse compiles_all (codes "1=[\"a\" \"S0201EOF\"]")) ≡ inr (syntax s0207 (codes "="))
unfolding parse
quoted_code = refl

parse-EndsWell_example : EndsWell (parse compiles_all (codes "a[0]/2"))
parse-EndsWell_example = parse-EndsWell compiles_all (codes "a[0]/2")

abbrev field : Bytes → Node
field v = plain_node 0 (Shape.name v)

-- `a.b{c: c}.c`
abbrev grouped : Group → Node
grouped g = plain_node 0 (
    binary (codes ".")
      (node 0 no_marks g (binary (codes ".") (field (codes "a")) (field (codes "b"))))
      (field (codes "c")))

-- The group of a dot on the left of a dot is lost.
lost_group :
    process (grouped (group 0 (cons (field (codes "c")) (cons (field (codes "c")) nil))))
    ≡ process (grouped no_group)
unfolding process bytes_eq
lost_group = refl

-- `a."b"[]`: the mark of `[]` on a text is lost.
lost_mark :
    process (
      plain_node 0 (
        binary
          (codes ".")
          (field (codes "a"))
          (node 0 (record no_marks { keep_array = true }) no_group (Shape.string (codes "b")))))
    ≡ process (plain_node 0 (binary (codes ".") (field (codes "a")) (field (codes "b"))))
unfolding process bytes_eq
lost_mark = refl

-- `a.b[]` is `a.(b[])`.
abbrev kept_field : Node
kept_field = plain_node 1 (
    binary (codes ".") (plain_node 0 (Shape.name (codes "a")))
      (node 2 (record no_marks { keep_array = true }) no_group (Shape.name (codes "b"))))

parsed_field : tree_of (parse compiles_all (codes "a.b[]")) ≡ some kept_field
unfolding parse
parsed_field = refl

-- The path keeps its array.
processed_field :
    process kept_field
    ≡ plain_node 1 (
        path true (
          cons (plain_node 0 (Shape.name (codes "a"))) (
            cons
              (node 2 (record no_marks { keep_array = true }) no_group (Shape.name (codes "b")))
              nil)))
unfolding process bytes_eq
processed_field = refl

-- A function whose body is a call.
abbrev calling : Node
calling = plain_node 0 (
    lambda nil false []
      (plain_node 13 (function (codes "f") (plain_node 11 (Shape.variable (codes "f"))) nil)))

parsed_calling : tree_of (parse compiles_all (codes "function(){$f()}")) ≡ some calling
unfolding parse
parsed_calling = refl

process-parse-IsFlat_example : IsFlat (process calling)
process-parse-IsFlat_example =
    process-parse-IsFlat compiles_all (codes "function(){$f()}") calling parsed_calling

process-parse_twice_example : process (process kept_field) ≡ process kept_field
process-parse_twice_example =
    process-parse_twice compiles_all (codes "a.b[]") kept_field parsed_field

-- `` `a b`.c ``
abbrev blank_path : Node
blank_path = plain_node 0 (path false (cons (field (codes "a b")) (cons (field (codes "c")) nil)))

collected : collect_paths blank_path ≡ some (codes "`a b`.c" ∷ [])
unfolding collect_paths member
collected = refl

split_path-collect_paths_example :
    split_path false [] (codes "`a b`.c") ≡ codes "a b" ∷ codes "c" ∷ []
split_path-collect_paths_example =
    split_path-collect_paths blank_path (codes "`a b`.c") collected tickless
  where
    tickless : AreTickless (names_of blank_path)
    tickless = unfold is_tickless in (refl, (refl, tt))

-- The fast path of `a.b{c: d}` is that of `a.b`.
grouped_fast_path :
    analyze_fast_path (
      process (
        node 0 no_marks
          (group 0 (cons (field (codes "c")) (cons (field (codes "d")) nil)))
          (binary (codes ".") (field (codes "a")) (field (codes "b")))))
    ≡ pure_paths (codes "a.b" ∷ [])
unfolding analyze_fast_path process bytes_eq member
grouped_fast_path = refl

-- The fast path of `a[]` is that of `a`.
array_fast_path :
    analyze_fast_path
      (node 0 (record no_marks { keep_array = true }) no_group (Shape.name (codes "a")))
    ≡ pure_paths (codes "a" ∷ [])
unfolding analyze_fast_path member
array_fast_path = refl

-- Two names with backticks have the path of one name with a dot.
shared_path :
    collect_paths
      (plain_node 0 (path false (cons (field (codes "`a")) (cons (field (codes "b`")) nil))))
    ≡ collect_paths (field (codes "a.b"))
unfolding collect_paths member
shared_path = refl

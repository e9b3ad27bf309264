-- ===== src/Lib.antt =====
-- The JSONata engine in Go, of go/internal/engine/: the parts that values and their operations are made of.
--
-- An expression is lexed, parsed and evaluated against a JSON document. The evaluator works on Go
-- values of type `any`, carries its variables in a chain of scopes, checks calls of typed functions
-- against signatures, and keeps numbers as decimal text beside binary64. The engine keeps compiled
-- plans in a cache. This library models the values and what the evaluator does with them.
--
-- Files. Each folder belongs to the file of the same name.
--
-- Base: names of the libraries that all files share; byte strings, Boolean tests, list helpers and
-- the integers over the native numbers. A Go string is the list of its bytes.
--
-- Number: go/internal/engine/internal/numeric/value.go. Grammar is the regular expression of `Valid`
-- as a recogniser; Parts is `parts`, whose big.Int exponent is an integer; Compare is `CompareText`;
-- Format is `Format`, with big.Int.String as decimal digits on fuel one above the number, which is
-- enough since a division by ten makes a positive number smaller. Coefficients, Order, Digits,
-- Decimal, Token, Reading and RoundTrip are the proofs. Control is control.go of the same folder, but for
-- `ClippedTrunc` and `Integer`, with an int of 64 bits; Integral is its proof.
--
-- Cache: go/internal/engine/bounded_cache.go. Ring has the struct and the methods `NewBoundedCache`,
-- `Get`, `Set` (`put` and `insert`), `Invalidate` and `Stats`. A key type with decidable equality
-- stands for Go's comparable keys. `Set` and `Invalidate` hold the mutex and publish with one atomic
-- store, and `Get` loads one snapshot, so a method is one step. Queue is the abstract cache, a list
-- of entries from the oldest to the newest; Runs has histories of calls. The counters are unbounded.
--
-- Value: the type `any` as the evaluator uses it. Data has the values, ordered maps as their entries
-- and pointers as numbers for their identity, a float64 as its 64 bits; `strconv.FormatFloat` is a
-- parameter. Sequence, Truth and Equality are `CollapseSequence`, `CollapseAndKeep`, `ToBoolean` and
-- `DeepEqual` of go/internal/engine/internal/evaluator/value.go, with `appendToSequence` of
-- eval_helpers.go and `NewArray` and `ArrayValues` of list_value.go. Compare and Navigate are
-- `compareOrder`, `compareValues`, `evalName` and `evalWildcard` of eval_helpers.go. A Go map is listed
-- in the order of its sorted keys, the one that `MapRange` takes. Values are finite trees: a list
-- that holds itself is outside the model.
--
-- OrderedMap: the methods of `OrderedMap` in go/internal/engine/internal/evaluator/ordered_map.go, on
-- any type of values; `InternalizeValue`, which `Set` applies, is a parameter. Entries is the
-- association list that a map shows.
--
-- Scope: go/internal/engine/internal/evaluator/env.go. A scope is the chain of its frames, innermost
-- first, and nil is the empty chain. The call counter that frames share by a pointer is an address
-- in a store of counters. Contexts and instants are parameters, as is `InternalizeValue`.
--
-- Signature: go/internal/engine/internal/parser/signature.go (Spec, Parse) and
-- go/internal/engine/internal/evaluator/signature.go (Call). The loop of `ParseSig` runs on fuel, one
-- round for each byte, which is enough since each round takes at least one.
--
-- Strings: go/internal/engine/internal/jstring/string.go. Utf8 is what the source uses of Go's
-- unicode/utf8 and unicode/utf16; Units has `Units`, `FromUnits`, `CodeUnit` and `surrogate`; Scan has
-- `Characters`, `Concat`, `Join` and `Valid`. A loop
-- that cuts `n` bytes off its string counts down the bytes to pass over, so it needs no fuel.
--
-- Functions: `fnCount`, `fnAppend` and `fnReverse` of go/internal/engine/functions/array_funcs.go and
-- the three functions of boolean_funcs.go, with
-- `sameValue` of list_value.go and `containsValue` of eval_helpers.go. HigherOrder has the functions of
-- hof_funcs.go: the evaluator that calls a function value is a parameter, on a state of its own, as it is
-- an argument in the source, and a callback is given the values that the shared buffer holds at the call. Its
-- Arguments, Endings, Lists and Pipelines are the proofs, as are Append and Reverse.
--
-- Integers: go/internal/engine/functions/string_format_integer.go. Roman has `toRoman` and `fromRoman`;
-- Alphabetic has `bigIntToAlphabetic` and the letters of `parseIntegerWithPicture`; Words has
-- `bigIntToWords` and `wordsToBigInt`, Words/Ordinals `applyOrdinalWord` and `deOrdinalise`,
-- Words/Casing `toTitleCase` and the formats `w`, `W` and `Ww`. A big.Int that is not negative is a natural
-- number, and the loops that divide it run on fuel that is not below it, which is enough since it falls in each
-- round. The other files below Words are the proofs. Decimal has the
-- pictures of digits, on the runes of the texts, with `DigitZero` and its table of
-- go/internal/engine/internal/unicodecase; the loop that fills in the multiples of a regular interval is
-- the test whether a position is one, and Pictures chooses between the notations
-- as `formatIntegerWithPicture` and `parseIntegerWithPicture` do. `strings.ToUpper` and `strings.ToLower`
-- map ASCII letters; a text with other letters that have a case is outside the model.
--
-- Lexer: go/internal/engine/internal/lexer/. Token has token.go and the lexer, which is a position and
-- the text from there on; Spans, Literals and Regex are the scanners, and Next is `Next`. A loop over
-- bytes is a recursion on the text; `Next` calls itself behind a comment, on fuel, and one unit for
-- each byte and one more are enough. Whether a pattern compiles is a parameter. Suffix, Scans,
-- Progress, Quoted and Numerals are the proofs.
--
-- Parser: go/internal/engine/internal/parser/. Node is ast.go; State, Operators, Groups, Lambdas, Prefix
-- and Expression are parser.go, in a monad on the state of the parser with its errors; TailCalls is
-- tailcall.go and Process is process.go, whose two recursive functions are one pass that gives both results.
-- An expression costs one unit of fuel for each level of nesting, and each loop has its own for its rounds;
-- the bytes of the text and two more are enough, since each level and each round takes a token. Moves,
-- LoopMoves, GroupMoves, NudMoves, LedMoves and Ends are the proofs that parsing ends; Ordered, Good,
-- Built, Prefixes, Infixes, LedForms, Leds and Precedence those about precedence; Flat, Flattening, Settled and Compiled
-- those about ProcessAST. FastPaths is analysis.go, and Splits and Readable the proofs about its paths.
--
-- Not modelled: path evaluation, the other functions, decimal arithmetic (a
-- third-party library), JSON decoding and encoding, regular expressions (a vendored library), the
-- engine's front end. Memory, contexts and goroutines are not modelled beyond the above.
pub mod Base
pub mod Number
pub mod Cache
pub mod Value
pub mod Signature
pub mod OrderedMap
pub mod Scope
pub mod Strings
pub mod Functions
pub mod Lexer
pub mod Integers
pub mod Parser
pub mod Tests

-- ===== src/Parser/Precedence.antt =====
-- Precedence in the trees of `Parse` of go/internal/engine/internal/parser/parser.go.
use jsonata.Base.{ℕ, zero, suc, Bool, Bytes, length, arith, some, ◌≡◌, subst}
use jsonata.Lexer.Token.{end_of_file}
use jsonata.Parser.Node.{Node}
use jsonata.Parser.State.{Parsed, done, fails, is_kind, new_parser}
use jsonata.Parser.Prefix.{nud}
use jsonata.Parser.Expression.{expression, parse_end, parse, tree_of}
use jsonata.Parser.Ordered.{IsOrdered}
use jsonata.Parser.Good.{Good, Good-then, Good-after, Good-if, Fits, Fitting}
use jsonata.Parser.Prefixes.{Stands, nud-Good}
use jsonata.Parser.Leds.{led_loop-Good}

expression-Fitting : (compiles : Bytes → Bytes → Bool) (n : ℕ) → Fitting (expression compiles n)
unfolding expression
expression-Fitting compiles zero bp lt p = tt
expression-Fitting compiles (suc n) bp lt p =
    Good-then (Stands bp) (Fits bp) (nud compiles (expression compiles n) n p) _
      (nud-Good compiles (expression compiles n) (expression-Fitting compiles n) bp n p lt)
      (λ left q h.
        led_loop-Good compiles (expression compiles n) (expression-Fitting compiles n) n (suc n) bp
          left q h)

-- What holds of a good result holds of its tree.
pub Good-tree_of :
    (Q : Node → Type 0) (r : Parsed Node) (n : Node)
    → Good (λ m p. Q m) r
    → tree_of r ≡ some n
    → Q n
Good-tree_of Q (done m p) n h e = subst Q same h
  where
    same : m ≡ n
    same = cc
Good-tree_of Q (fails c) n h e = cc

parse-Good :
    (compiles : Bytes → Bytes → Bool) (src : Bytes) → Good (λ n p. IsOrdered n) (parse compiles src)
unfolding parse parse_end
parse-Good compiles src =
    Good-after (λ n p. IsOrdered n) (new_parser compiles src) _
      (λ _ p.
        Good-then (Fits 0) (λ n p. IsOrdered n) (expression compiles (suc (suc (length src))) 0 p)
          parse_end (expression-Fitting compiles (suc (suc (length src))) 0 (omega arith) p)
          (λ n q fits.
            Good-if (λ n p. IsOrdered n) (is_kind end_of_file q.token) _ _ q (λ _. fits.0)
              (λ _. tt)))

pub parse-IsOrdered :
    (compiles : Bytes → Bytes → Bool) (src : Bytes) (n : Node)
    → tree_of (parse compiles src) ≡ some n
    → IsOrdered n
parse-IsOrdered compiles src n e =
    Good-tree_of IsOrdered (parse compiles src) n (parse-Good compiles src) e

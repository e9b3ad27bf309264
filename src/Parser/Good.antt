-- ===== src/Parser/Good.antt =====
-- What a computation of the parser of go/internal/engine/internal/parser/parser.go gives, if it gives no error.
use jsonata.Base.{ℕ, ◌<◌, ◌≤◌, Bool, true, false, if◌then◌else◌, ◌≡◌, refl}
use jsonata.Parser.Node.{Node, Branch, Nodes, nil, cons, Terms, end, term, snoc, snoc_term}
use jsonata.Parser.State.{Parser, Parsed, done, fails, Parse, then_do}
use jsonata.Parser.Operators.{binding_power}
use jsonata.Parser.Ordered.{
  power_of, limit_of, IsOrdered, AreOrdered, IsOrderedBranch, AreOrderedTerms,
}

-- A result is good if it is an error or has the property.
abbrev pub Good {ℓ} : {A : Type ℓ} → (A → Parser → Type 0) → Parsed A → Type 0
Good Q (done a p) = Q a p
Good Q (fails e) = Unit

pub Good-then {ℓ κ} :
    {A : Type ℓ} {B : Type κ} (Q : A → Parser → Type 0) (R : B → Parser → Type 0) (r : Parsed A)
    (f : A → Parse B)
    → Good Q r
    → ((a : A) (p : Parser) → Q a p → Good R (f a p))
    → Good R (then_do r f)
Good-then Q R (done a p) f h k = k a p h
Good-then Q R (fails e) f h k = tt

-- Behind a computation of which nothing is known.
pub Good-after {ℓ κ} :
    {A : Type ℓ} {B : Type κ} (R : B → Parser → Type 0) (r : Parsed A) (f : A → Parse B)
    → ((a : A) (p : Parser) → Good R (f a p))
    → Good R (then_do r f)
Good-after R (done a p) f k = k a p
Good-after R (fails e) f k = tt

pub Good-if {ℓ} :
    {A : Type ℓ} (R : A → Parser → Type 0) (t : Bool) (m k : Parse A) (p : Parser)
    → (t ≡ true → Good R (m p))
    → (t ≡ false → Good R (k p))
    → Good R ((if t then m else k) p)
Good-if R true m k p h g = h refl
Good-if R false m k p h g = g refl

-- What ends with a bracket or is one token.
abbrev pub Built : Node → Parser → Type 0
Built n p = IsOrdered n × (power_of n ≡ 100) × (limit_of n ≡ 100)

abbrev pub AllBuilt : Nodes → Parser → Type 0
AllBuilt ns p = AreOrdered ns

abbrev pub TermsBuilt : Terms → Parser → Type 0
TermsBuilt ts p = AreOrderedTerms ts

abbrev pub BranchBuilt : Branch → Parser → Type 0
BranchBuilt e p = IsOrderedBranch e

-- What `expression bp` gives: its outermost operator binds tighter than `bp`, and the token behind it does not.
abbrev pub Fits : ℕ → Node → Parser → Type 0
Fits bp n p =
    IsOrdered n
    × (bp < power_of n)
    × (binding_power p.token.kind ≤ bp)
    × (binding_power p.token.kind ≤ limit_of n)

abbrev pub Fitting : (ℕ → Parse Node) → Type 0
Fitting expression = (bp : ℕ) → bp < 100 → (p : Parser) → Good (Fits bp) (expression bp p)

pub snoc-AreOrdered : (ns : Nodes) (n : Node) → AreOrdered ns → IsOrdered n → AreOrdered (snoc ns n)
unfolding IsOrdered
snoc-AreOrdered nil n h k = (k, tt)
snoc-AreOrdered (cons m ns) n (h, hs) k = (h, snoc-AreOrdered ns n hs k)

pub snoc_term-AreOrderedTerms :
    (ts : Terms) (d : Bool) (n : Node)
    → AreOrderedTerms ts
    → IsOrdered n
    → AreOrderedTerms (snoc_term ts d n)
unfolding IsOrdered
snoc_term-AreOrderedTerms end d n h k = (k, tt)
snoc_term-AreOrderedTerms (term c m ts) d n (h, hs) k = (h, snoc_term-AreOrderedTerms ts d n hs k)

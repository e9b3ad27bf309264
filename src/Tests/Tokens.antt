-- ===== src/Tests/Tokens.antt =====
-- Tokens.
use jsonata.Base.{◌+◌, Bool, true, false, [], ◌∷◌, ◌++◌, Bytes, codes, length, ◌≡◌, refl, arith}
use jsonata.Number.Grammar.{valid}
use jsonata.Lexer.Token.{
  name, string, number, value_word, regex_literal, slash, dot_dot, variable, plain_token, lexed,
  failed, s0106, s0101, s0301, new_lexer,
}
use jsonata.Lexer.Next.{next}
use jsonata.Lexer.Progress.{Moves, next-Moves}
use jsonata.Lexer.Quoted.{escaped, next-escaped}
use jsonata.Lexer.Numerals.{next-valid}

-- A library that compiles every pattern.
abbrev compiles_all : Bytes → Bytes → Bool
compiles_all pattern flags = true

next-Moves_example :
    Moves
      (new_lexer (codes " /* a */ b"))
      (next compiles_all 12 false (new_lexer (codes " /* a */ b")))
next-Moves_example = next-Moves compiles_all 12 false (new_lexer (codes " /* a */ b")) (omega arith)

next-escaped_example :
    next compiles_all 1 false
      (record { pos = 4; rest = 34 ∷ (escaped (codes "a") ++ 34 ∷ codes "+1") })
    ≡ lexed (
      plain_token 4 string (codes "a"),
      record { pos = 4 + (length (escaped (codes "a")) + 2); rest = codes "+1" },
    )
next-escaped_example = next-escaped compiles_all 0 false 4 (codes "a") (codes "+1")

valid_numeral : valid (codes "12.5e3") ≡ true
unfolding valid
valid_numeral = refl

next-valid_example :
    next compiles_all 1 true (record { pos = 2; rest = codes "12.5e3" })
    ≡ lexed (plain_token 2 number (codes "12.5e3"), record { pos = 8; rest = [] })
next-valid_example = next-valid compiles_all 0 true 2 b'1' (codes "2.5e3") refl valid_numeral

behind_comment :
    next compiles_all 12 false (new_lexer (codes " /* a */ b"))
    ≡ lexed (plain_token 9 name (codes "b"), record { pos = 10; rest = [] })
unfolding next
behind_comment = refl

operators :
    (next compiles_all 1 true (new_lexer (codes "..x"))
      ≡ lexed (plain_token 0 dot_dot (codes ".."), record { pos = 2; rest = codes "x" }))
    × (next compiles_all 1 true (new_lexer (codes "/x"))
        ≡ lexed (plain_token 0 slash (codes "/"), record { pos = 1; rest = codes "x" }))
    × (next compiles_all 1 true (new_lexer (codes "$x+"))
        ≡ lexed (plain_token 0 variable (codes "x"), record { pos = 2; rest = codes "+" }))
unfolding next
operators = (refl, refl, refl)

literals :
    (next compiles_all 1 false (new_lexer (codes "/a[/]b/i x"))
      ≡ lexed (
        record (plain_token 0 regex_literal []) {
          regex_pat = codes "a[/]b";
          regex_flg = codes "ig";
        },
        record { pos = 8; rest = codes " x" },
      ))
    × (next compiles_all 1 false (new_lexer (codes "'a'"))
        ≡ lexed (plain_token 0 string (codes "a"), record { pos = 3; rest = [] }))
    × (next compiles_all 1 false (new_lexer (codes "true"))
        ≡ lexed (
          record (plain_token 0 value_word (codes "true")) { bool_val = true },
          record { pos = 4; rest = [] },
        ))
unfolding next
literals = (refl, refl, refl)

refused :
    (next compiles_all 3 false (new_lexer (codes "/* a")) ≡ failed s0106)
    × (next compiles_all 3 false (new_lexer (codes "'a")) ≡ failed s0101)
    × (next compiles_all 3 false (new_lexer (codes "//")) ≡ failed s0301)
unfolding next
refused = (refl, refl, refl)

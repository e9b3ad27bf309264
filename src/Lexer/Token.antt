-- ===== src/Lexer/Token.antt =====
-- `TokenType` and `Token` of go/internal/engine/internal/lexer/token.go, the lexer of lexer.go and its errors. The
-- field `NumVal`, which no evaluation reads, is left out.
use jsonata.Base.{ℕ, ◌+◌, ◌-◌, Bool, false, [], Bytes, length}

pub data TokenKind : Type 0 where
  end_of_file name variable string number value_word regex_literal : TokenKind
  dot lbracket rbracket lbrace rbrace lparen rparen comma at hash semicolon colon question :
      TokenKind
  plus minus star slash percent pipe equals less greater caret ampersand bang tilde : TokenKind
  star_star dot_dot assign not_equal less_equal greater_equal chain elvis coalesce : TokenKind
  and_word or_word in_word : TokenKind

pub record Token : Type 0 where
  pub kind : TokenKind
  pub value : Bytes
  pub bool_val : Bool
  pub is_null : Bool
  pub regex_pat : Bytes
  pub regex_flg : Bytes
  pub pos : ℕ

-- The codes of the lexer's errors; `bad_regex` is the error that compiling a pattern gives.
pub data LexError : Type 0 where
  s0101 s0102 s0103 s0104 s0105 s0106 s0301 s0302 bad_regex out_of_fuel : LexError

pub data Lexed {ℓ} (A : Type ℓ) : Type ℓ where
  lexed : A → Lexed A
  failed : LexError → Lexed A

-- What `src` holds from `pos` on.
pub record Lexer : Type 0 where
  pub pos : ℕ
  pub rest : Bytes

-- `NewLexer`
abbrev pub new_lexer : Bytes → Lexer
new_lexer src = record { pos = 0; rest = src }

-- The lexer with `s` left to read.
abbrev pub advance : Lexer → Bytes → Lexer
advance l s = record { pos = l.pos + (length l.rest - length s); rest = s }

abbrev pub plain_token : ℕ → TokenKind → Bytes → Token
plain_token p kind value = record {
  kind = kind;
  value = value;
  bool_val = false;
  is_null = false;
  regex_pat = [];
  regex_flg = [];
  pos = p;
}

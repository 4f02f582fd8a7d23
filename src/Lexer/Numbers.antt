-- ===== src/Lexer/Numbers.antt =====
-- src/Lexer.cpp: numeric literals.
use oxide_lang_reupload.Prelude.{
  ℕ, Text, codes, Bool, true, false, ◌&&◌, ◌||◌, not, [], ◌∷◌, ◌++◌, Option, none, some, ◌==◌,
  if◌then◌else◌, length,
}
use oxide_lang_reupload.Lexer.Token.{Tok, Token}
use oxide_lang_reupload.Lexer.Chars.{is_digit, is_xdigit, is_ident_part, span, peek, peek2, stoull}
use oxide_lang_reupload.Lexer.Cursor.{Cursor, error, move}

-- What one turn of the loop in `lex` comes to: no token, a token, or an exception that leaves `lex`.
pub data Turn : Type 0 where
  skip : Cursor → Turn
  emit : Token → Cursor → Turn
  thrown : Turn

-- `Token t; t.line = line_; t.col = col_;` with a kind and a text.
abbrev pub token_at : Cursor → Tok → Text → Token
token_at c k s = record {
  kind = k;
  text = s;
  u64 = 0;
  f64 = [];
  line = c.line;
  col = c.col;
  is_f32 = false;
}

-- `try { t.u64 = std::stoull(...); } catch (...) { error(msg); t.u64 = 0; }`
abbrev pub caught : Option ℕ → Text → Token → Cursor → Turn
caught (some v) msg t c = emit (record t { u64 = v }) c
caught none msg t c = emit t (error msg c)

-- A literal with a two-byte prefix, which `digits` has been read behind.
unfoldable pub prefixed : ℕ → Text → Text → Text → Cursor → Turn
unfolding stoull error
prefixed base msg text rest c =
    caught (stoull base text) msg (token_at c Tok.int_lit text) (move rest (length text) c)

-- From behind `0x` or `0b`, `a` and `b` being those bytes.
abbrev pub hex_literal : ℕ → ℕ → Text → Cursor → Turn
hex_literal a b s c =
    let (digits, rest) = span is_xdigit s in
    prefixed 16 (codes "invalid hex literal") (a ∷ b ∷ digits) rest c

abbrev pub is_bit : ℕ → Bool
is_bit c = (c == b'0') || (c == b'1')

abbrev pub binary_literal : ℕ → ℕ → Text → Cursor → Turn
binary_literal a b s c =
    let (digits, rest) = span is_bit s in
    prefixed 2 (codes "invalid binary literal") (a ∷ b ∷ digits) rest c

-- `f` or `F` that no identifier byte follows.
abbrev pub f_suffix : Text → Bool
f_suffix [] = false
f_suffix (c ∷ s) = ((c == b'f') || (c == b'F')) && not (is_ident_part (peek s))

abbrev pub drop_one : Text → Text
drop_one [] = []
drop_one (c ∷ s) = s

-- The numeral `text` with its suffix, if it has one, in front of `rest`.
unfoldable pub float_token : Text → Text → Cursor → Turn
unfolding is_ident_part
float_token text rest c =
    if f_suffix rest
    then (let whole = text ++ peek rest ∷ [] in
        emit (record (token_at c Tok.float_lit whole) { f64 = text; is_f32 = true })
          (move (drop_one rest) (length whole) c))
    else emit (record (token_at c Tok.float_lit text) { f64 = text }) (move rest (length text) c)

-- No handler stands round this conversion in the source.
abbrev pub uncaught : Option ℕ → Text → Text → Cursor → Turn
uncaught none text rest c = thrown
uncaught (some v) text rest c =
    emit (record (token_at c Tok.int_lit text) { u64 = v }) (move rest (length text) c)

unfoldable pub int_token : Text → Text → Cursor → Turn
unfolding stoull
int_token text rest c = uncaught (stoull 10 text) text rest c

-- A decimal numeral is a floating literal if a point and a digit follow it.
unfoldable pub decimal_literal : Cursor → Turn
unfolding span float_token int_token
decimal_literal c =
    let (whole, rest) = span is_digit c.rest in
    let (fraction, behind) = span is_digit (drop_one rest) in
    if (peek rest == b'.') && is_digit (peek2 rest)
    then float_token (whole ++ peek rest ∷ fraction) behind c
    else int_token whole rest c

-- The branch of `lex` at a digit, with the bytes from it on.
unfoldable pub number_at : Text → Cursor → Turn
unfolding span prefixed decimal_literal
number_at (a ∷ b ∷ s) c =
    if (a == b'0') && ((b == b'x') || (b == b'X'))
    then hex_literal a b s c
    else if (a == b'0') && ((b == b'b') || (b == b'B'))
    then binary_literal a b s c
    else decimal_literal c
number_at s c = decimal_literal c

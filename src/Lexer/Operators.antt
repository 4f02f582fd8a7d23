-- ===== src/Lexer/Operators.antt =====
-- src/Lexer.cpp: the switch over operators, punctuation and mathematical glyphs.
use oxide_lang_reupload.Prelude.{
  ℕ, zero, suc, Text, codes, ◌&&◌, ◌||◌, [], ◌∷◌, ◌++◌, Option, none, some, ◌==◌, if◌then◌else◌,
}
use oxide_lang_reupload.Lexer.Token.{Tok}
use oxide_lang_reupload.Lexer.Chars.{peek, peek2}
use oxide_lang_reupload.Lexer.Cursor.{Cursor, error, move}
use oxide_lang_reupload.Lexer.Numbers.{Turn, emit, token_at}

-- The cases of the switch from `&` on.
unfoldable pub operator_tail : ℕ → ℕ → ℕ → Option (Tok × ℕ)
operator_tail c n m =
    if c == b'&'
    then (if n == b'&'
        then some (Tok.ampamp, 2)
        else if n == b'='
        then some (Tok.ampeq, 2)
        else some (Tok.amp, 1))
    else if c == b'|'
    then (if n == b'|'
        then some (Tok.barbar, 2)
        else if n == b'='
        then some (Tok.bareq, 2)
        else some (Tok.bar, 1))
    else if c == b'^'
    then (if n == b'=' then some (Tok.careteq, 2) else some (Tok.caret, 1))
    else if c == b'~'
    then some (Tok.tilde, 1)
    else if c == b'?'
    then some (Tok.question, 1)
    else if c == b'('
    then some (Tok.lparen, 1)
    else if c == b')'
    then some (Tok.rparen, 1)
    else if c == b'{'
    then some (Tok.lbrace, 1)
    else if c == b'}'
    then some (Tok.rbrace, 1)
    else if c == b'['
    then some (Tok.lbracket, 1)
    else if c == b']'
    then some (Tok.rbracket, 1)
    else if c == b','
    then some (Tok.comma, 1)
    else if c == b';'
    then some (Tok.semicolon, 1)
    else if c == b':'
    then (if n == b':' then some (Tok.coloncolon, 2) else some (Tok.colon, 1))
    else if c == b'.'
    then (if n == b'.'
        then (if m == b'=' then some (Tok.dotdoteq, 3) else some (Tok.dotdot, 2))
        else some (Tok.dot, 1))
    else if c == b'$'
    then some (Tok.dollar, 1)
    else none

-- The kind of the operator that `c` starts, with `n` and `m` behind it, and its length.
unfoldable pub operator : ℕ → ℕ → ℕ → Option (Tok × ℕ)
unfolding operator_tail
operator c n m =
    if c == b'+'
    then (if n == b'+'
        then some (Tok.inc, 2)
        else if n == b'='
        then some (Tok.pluseq, 2)
        else some (Tok.plus, 1))
    else if c == b'-'
    then (if n == b'-'
        then some (Tok.dec, 2)
        else if n == b'>'
        then some (Tok.arrow, 2)
        else if n == b'='
        then some (Tok.minuseq, 2)
        else some (Tok.minus, 1))
    else if c == b'*'
    then (if n == b'*'
        then some (Tok.pow, 2)
        else if n == b'='
        then some (Tok.stareq, 2)
        else some (Tok.star, 1))
    else if c == b'\\'
    then some (Tok.backslash, 1)
    else if c == b'/'
    then (if n == b'=' then some (Tok.lasheq, 2) else some (Tok.slash, 1))
    else if c == b'%'
    then (if n == b'=' then some (Tok.percenteq, 2) else some (Tok.percent, 1))
    else if c == b'='
    then (if n == b'='
        then some (Tok.eqeq, 2)
        else if n == b'>'
        then some (Tok.fatarrow, 2)
        else some (Tok.eq, 1))
    else if c == b'!'
    then (if n == b'=' then some (Tok.bangeq, 2) else some (Tok.bang, 1))
    else if c == b'<'
    then (if n == b'<'
        then (if m == b'=' then some (Tok.shleq, 3) else some (Tok.shl, 2))
        else if n == b'='
        then some (Tok.lteq, 2)
        else if n == b'-'
        then some (Tok.chan_arrow, 2)
        else some (Tok.lt, 1))
    else if c == b'>'
    then (if n == b'>'
        then (if m == b'=' then some (Tok.shreq, 3) else some (Tok.shr, 2))
        else if n == b'='
        then some (Tok.gteq, 2)
        else some (Tok.gt, 1))
    else operator_tail c n m

-- The length in bytes of the glyph that `c`, `n` and `m` spell: ², ³, π, ∫ or √.
unfoldable pub glyph : ℕ → ℕ → ℕ → Option ℕ
glyph c n m =
    if (c == 0xC2) && ((n == 0xB2) || (n == 0xB3))
    then some 2
    else if (c == 0xCF) && (n == 0x80)
    then some 2
    else if (c == 0xE2) && (n == 0x88) && ((m == 0xAB) || (m == 0x9A))
    then some 3
    else none

-- The first `n` bytes, and the others.
abbrev pub take_bytes : ℕ → Text → Text × Text
take_bytes zero s = ([], s)
take_bytes (suc n) [] = ([], [])
take_bytes (suc n) (c ∷ s) = let (a, b) = take_bytes n s in (c ∷ a, b)

abbrev pub unexpected : ℕ → Text → Cursor → Turn
unexpected a s c =
    let msg = codes "unexpected character '" ++ a ∷ codes "'" in
    emit (token_at c Tok.err (a ∷ [])) (record (move s 1 c) { errs = (error msg c).errs })

-- A glyph counts as one column.
abbrev pub glyph_or_error : Option ℕ → ℕ → Text → Cursor → Turn
glyph_or_error (some n) a s c =
    let (text, rest) = take_bytes n (a ∷ s) in emit (token_at c Tok.math_sym text) (move rest 1 c)
glyph_or_error none a s c = unexpected a s c

abbrev pub operator_token : Option (Tok × ℕ) → ℕ → Text → Cursor → Turn
operator_token (some (k, n)) a s c =
    let (text, rest) = take_bytes n (a ∷ s) in emit (token_at c k []) (move rest n c)
operator_token none a s c = glyph_or_error (glyph a (peek s) (peek2 s)) a s c

-- The switch, at the byte `a` with `s` behind it.
unfoldable pub symbol : ℕ → Text → Cursor → Turn
unfolding operator glyph error
symbol a s c = operator_token (operator a (peek s) (peek2 s)) a s c

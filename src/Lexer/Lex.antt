-- ===== src/Lexer/Lex.antt =====
-- src/Lexer.cpp, `Lexer::lex`.
pub mod Progress
pub mod Symbols
pub mod Total
pub mod Strings
pub mod Spaced
use oxide_lang_reupload.Prelude.{
  ℕ, zero, suc, ◌+◌, Text, codes, Bool, true, false, ◌&&◌, ◌||◌, List, [], ◌∷◌, ◌++◌, Option, none,
  some, ◌==◌, if◌then◌else◌, length,
}
use oxide_lang_reupload.Lexer.Token.{Tok, Token, LexError}
use oxide_lang_reupload.Lexer.Chars.{is_digit, is_ident_start, is_ident_part, span, peek}
use oxide_lang_reupload.Lexer.Cursor.{Cursor, error, move, skip_line, skip_block, after_block}
use oxide_lang_reupload.Lexer.Keywords.{keyword}
use oxide_lang_reupload.Lexer.Numbers.{Turn, skip, emit, thrown, token_at, drop_one, number_at}
use oxide_lang_reupload.Lexer.Literals.{char_literal, string_literal}
use oxide_lang_reupload.Lexer.Operators.{symbol}

abbrev pub word : Cursor → Turn
word c =
    let (text, rest) = span is_ident_part c.rest in
    emit (token_at c (keyword text) text) (move rest (length text) c)

-- The branches that make a token, at the byte `a` with `s` behind it.
unfoldable pub token_turn : ℕ → Text → Cursor → Option Turn
unfolding span number_at char_literal string_literal symbol is_ident_start is_ident_part
token_turn a s c =
    if is_ident_start a
    then some (word c)
    else if is_digit a
    then some (number_at (a ∷ s) c)
    else if a == b'\''
    then some (char_literal s c)
    else if a == b'"'
    then string_literal s c
    else some (symbol a s c)

-- `//`, from its second slash on.
abbrev pub line_comment : Text → Cursor → Turn
line_comment s c =
    let (rest, col) = skip_line s (c.col + 1) in skip (record c { rest = rest; col = col })

-- `/*`, with `s` behind it.
abbrev pub block_comment : Text → Cursor → Turn
block_comment s c = skip (after_block (skip_block s c.line (c.col + 2)) c)

-- One turn of the main loop, at the byte `a` with `s` behind it.
unfoldable pub turn : ℕ → Text → Cursor → Option Turn
unfolding skip_line skip_block error
turn a s c =
    if (a == b' ') || (a == b'\t') || (a == b'\r')
    then some (skip (move s 1 c))
    else if a == b'\n'
    then some (skip (record c { rest = s; line = c.line + 1; col = 1 }))
    else if (a == b'/') && (peek s == b'/')
    then some (line_comment s c)
    else if (a == b'/') && (peek s == b'*')
    then some (block_comment (drop_one s) c)
    else token_turn a s c

-- What `lex` leaves: its two output vectors, or an exception. `stuck` is fuel that ran out.
pub data Lexed : Type 0 where
  lexed : List Token → List LexError → Lexed
  escaped : Lexed
  stuck : Lexed

abbrev pub at_end : List Token → Cursor → Lexed
at_end out c = lexed (out ++ token_at c Tok.end [] ∷ []) c.errs

-- The rest of the loop behind one turn, `again` being the loop.
unfoldable pub continue : (List Token → Cursor → Lexed) → List Token → Option Turn → Lexed
continue again out none = stuck
continue again out (some (skip c)) = again out c
continue again out (some (emit t c)) = again (out ++ t ∷ []) c
continue again out (some thrown) = escaped

-- One turn where there is input left.
unfoldable pub advance : (List Token → Cursor → Lexed) → List Token → Cursor → Text → Lexed
unfolding continue turn
advance again out c [] = at_end out c
advance again out c (a ∷ s) = continue again out (turn a s c)

-- The main loop, on fuel.
unfoldable pub loop : ℕ → List Token → Cursor → Lexed
unfolding advance
loop zero out c = stuck
loop (suc fuel) out c = advance (loop fuel) out c c.rest

-- A fresh lexer.
abbrev pub start : Text → Cursor
start src = record { rest = src; line = 1; col = 1; errs = [] }

unfoldable pub lex : Text → Lexed
unfolding loop
lex src = loop (length src + 1) [] (start src)

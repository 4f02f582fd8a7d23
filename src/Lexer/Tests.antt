-- ===== src/Lexer/Tests.antt =====
-- Runs of the lexer of src/Lexer.cpp.
use oxide_lang_reupload.Prelude.{codes, text_eq, ◌≡◌, ◌≢◌, refl, List, [], ◌∷◌, ◌++◌, some, map}
use oxide_lang_reupload.Lexer.Token.{Tok}
use oxide_lang_reupload.Lexer.Keywords.{keyword}
use oxide_lang_reupload.Lexer.Chars.{is_ident_start, is_ident_part, stoull}
use oxide_lang_reupload.Lexer.Numbers.{emit, token_at}
use oxide_lang_reupload.Lexer.Literals.{string_literal}
use oxide_lang_reupload.Lexer.Lex.{Lexed, lexed, escaped, stuck, token_turn, lex, start}
use oxide_lang_reupload.Lexer.Lex.Total.{lex-ne-stuck}
use oxide_lang_reupload.Lexer.Lex.Strings.{quoted, behind_string, string_literal-quoted}
use oxide_lang_reupload.Lexer.Lex.Spaced.{
  Lexeme, word_of, int_of, string_of, AreLexemes, render, tokens_of, lex-render,
}

lex-ne-stuck_example : lex (codes "let x = 0x1F; // done") ≢ stuck
lex-ne-stuck_example = lex-ne-stuck (codes "let x = 0x1F; // done")

string_literal-quoted_example :
    string_literal (quoted (codes "a\"b\\") ++ b'"' ∷ codes ";") (start [])
    ≡ some (
        emit
          (token_at (start []) Tok.str_lit (codes "a\"b\\"))
          (behind_string (start []) (codes "a\"b\\") (codes ";")))
string_literal-quoted_example = string_literal-quoted (codes "a\"b\\") (codes ";") (start [])

-- `return`, `x1`, `42` and a string.
abbrev lexemes : List Lexeme
lexemes =
    word_of (codes "return")
    ∷ word_of (codes "x1")
    ∷ int_of (codes "42") 42
    ∷ string_of (codes "a b")
    ∷ []

lexemes_are : AreLexemes lexemes
unfolding is_ident_start is_ident_part stoull
lexemes_are = ((refl, refl), ((refl, refl), (((refl, refl), refl), (tt, tt))))

lex-render_example : lex (render lexemes) ≡ lexed (tokens_of lexemes (start (render lexemes))) []
lex-render_example = lex-render lexemes lexemes_are

abbrev kinds : Lexed → List Tok
kinds (lexed out errs) = map (λ t. t.kind) out
kinds escaped = []
kinds stuck = []

kinds_of_a_line :
    kinds (lex (codes "let x = a.b ** 2.5f; /* c */"))
    ≡ Tok.kw_let ∷ Tok.ident ∷ Tok.eq ∷ Tok.ident ∷ Tok.dot ∷ Tok.ident ∷ Tok.pow ∷ Tok.float_lit
      ∷ Tok.semicolon ∷ Tok.end ∷ []
unfolding lex token_turn keyword text_eq
kinds_of_a_line = refl

-- The value 2 ^ 64 is out of range, and nothing catches the exception.
too_large : lex (codes "18446744073709551616") ≡ escaped
unfolding lex token_turn keyword text_eq
too_large = refl

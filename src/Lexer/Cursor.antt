-- ===== src/Lexer/Cursor.antt =====
-- src/Lexer.cpp: the state of the lexer, and what it skips.
use oxide_lang_reupload.Prelude.{
  ℕ, ◌+◌, Text, codes, Bool, true, false, ◌&&◌, List, [], ◌∷◌, ◌++◌, ◌==◌, if◌then◌else◌,
}
use oxide_lang_reupload.Lexer.Token.{LexError}

-- The bytes of `src_` from position `i_` on, `line_`, `col_`, and the errors reported.
pub record Cursor : Type 0 where
  pub rest : Text
  pub line : ℕ
  pub col : ℕ
  pub errs : List LexError

-- `Lexer::error`.
unfoldable pub error : Text → Cursor → Cursor
error msg c = record c { errs = c.errs ++ record { msg = msg; line = c.line; col = c.col } ∷ [] }

-- `i_ += n; col_ += n;` with the bytes that are left behind.
abbrev pub move : Text → ℕ → Cursor → Cursor
move rest n c = record c { rest = rest; col = c.col + n }

-- To the end of the line, for `//`.
unfoldable pub skip_line : Text → ℕ → Text × ℕ
skip_line [] col = ([], col)
skip_line (c ∷ s) col = if c == b'\n' then (c ∷ s, col) else skip_line s (col + 1)

-- Past `*/`, from behind `/*`. Without one `closed` is false, and the loop has stopped one byte
-- before the end.
pub record BlockScan : Type 0 where
  pub closed : Bool
  pub rest : Text
  pub line : ℕ
  pub col : ℕ

unfoldable pub skip_block : Text → ℕ → ℕ → BlockScan
skip_block [] line col = record { closed = false; rest = []; line = line; col = col }
skip_block (a ∷ []) line col = record { closed = false; rest = []; line = line; col = col }
skip_block (a ∷ b ∷ s) line col =
    let more =
      skip_block (b ∷ s) (if a == b'\n' then line + 1 else line)
        (if a == b'\n' then 1 else col + 1) in
    if (a == b'*') && (b == b'/')
    then record { closed = true; rest = s; line = line; col = col + 2 }
    else more

abbrev pub after_block : BlockScan → Cursor → Cursor
after_block b c =
    let at_end = record c { rest = b.rest; line = b.line; col = b.col } in
    if b.closed then at_end else error (codes "unterminated block comment") at_end

-- ===== src/Lexer/Lex/Strings.antt =====
-- Reading back a quoted string, in src/Lexer.cpp.
use oxide_lang_reupload.Prelude.{
  ℕ, zero, suc, ◌+◌, ◌≤◌, ◌<◌, ◌≡◌, refl, ap, ◌∙◌, inl, inr, Text, true, false, ◌||◌, [], ◌∷◌, ◌++◌,
  append_assoc, append-nil, some, arith, ◌==◌, if◌then◌else◌, length, length-append, Bool-cases,
}
use oxide_lang_reupload.Lexer.Token.{Tok}
use oxide_lang_reupload.Lexer.Cursor.{Cursor}
use oxide_lang_reupload.Lexer.Numbers.{emit, token_at}
use oxide_lang_reupload.Lexer.Literals.{
  escape, simple_escape, StringScan, string_body, string_turn, string_literal,
}

-- A byte as it can be written in a string literal: a quotation mark and a backslash are escaped.
abbrev pub quote : ℕ → Text
quote c = if (c == b'"') || (c == b'\\') then b'\\' ∷ c ∷ [] else c ∷ []

abbrev pub quoted : Text → Text
quoted [] = []
quoted (c ∷ s) = quote c ++ quoted s

-- The position behind a quoted text.
abbrev pub line_after : ℕ → Text → ℕ
line_after line [] = line
line_after line (c ∷ s) = line_after (if c == b'\n' then line + 1 else line) s

abbrev pub col_after : ℕ → Text → ℕ
col_after col [] = col
col_after col (c ∷ s) =
    col_after (if c == b'\n' then 1 else if (c == b'"') || (c == b'\\') then col + 2 else col + 1) s

-- A byte that ends no string and starts no escape.
string_body_plain :
    (fuel c : ℕ) (s out : Text) (line col : ℕ)
    → ((c == b'"') || (c == b'\\')) ≡ false
    → string_body (suc fuel) (c ∷ s) out line col
      ≡ string_body fuel s
          (out ++ c ∷ [])
          (if c == b'\n' then line + 1 else line)
          (if c == b'\n' then 1 else col + 1)
unfolding string_body
string_body_plain fuel c [] out line col h = ground arith
string_body_plain fuel c (e ∷ s) out line col h = ground arith

escape_itself :
    (c : ℕ) (s : Text)
    → ((c == b'"') || (c == b'\\')) ≡ true
    → escape c s ≡ record { byte = c; rest = s; read = 0 }
unfolding escape simple_escape
escape_itself c s h = ground arith

string_body_escaped :
    (fuel c : ℕ) (s out : Text) (line col : ℕ)
    → ((c == b'"') || (c == b'\\')) ≡ true
    → string_body (suc fuel) (b'\\' ∷ c ∷ s) out line col
      ≡ string_body fuel s (out ++ c ∷ []) line (col + 2)
unfolding string_body
string_body_escaped fuel c s out line col h =
    rw (escape_itself c s h) (ap (string_body fuel s (out ++ c ∷ []) line) (omega arith))

abbrev pub closed_scan : Text → Text → ℕ → ℕ → StringScan
closed_scan text rest line col = record {
  text = text;
  rest = rest;
  line = line;
  col = col;
  closing = true;
  cut = false;
}

string_body_end :
    (fuel : ℕ) (rest out : Text) (line col : ℕ)
    → string_body (suc fuel) (b'"' ∷ rest) out line col ≡ some (closed_scan out rest line (col + 1))
unfolding string_body
string_body_end fuel [] out line col = refl
string_body_end fuel (e ∷ s) out line col = refl

string_body-quoted :
    (s rest out : Text) (fuel line col : ℕ)
    → length s < fuel
    → string_body fuel (quoted s ++ b'"' ∷ rest) out line col
      ≡ some (closed_scan (out ++ s) rest (line_after line s) (col_after col s + 1))
string_body-quoted s rest out zero line col h = absurd (omega arith)
string_body-quoted [] rest out (suc fuel) line col h =
    string_body_end fuel rest out line col ∙ rw append-nil
string_body-quoted (c ∷ s) rest out (suc fuel) line col h =
    elim (Bool-cases ((c == b'"') || (c == b'\\'))) [
      | inl special ↦
          let same_line : (c == b'\n') ≡ false = ground arith in
          rw (special, quote)
            (rw same_line (
              string_body_escaped fuel c (quoted s ++ b'"' ∷ rest) out line col special
              ∙ string_body-quoted s rest (out ++ c ∷ []) fuel line (col + 2) (omega arith)
              ∙ rw append_assoc))
      | inr plain ↦
          rw (plain, quote)
            (string_body_plain fuel c (quoted s ++ b'"' ∷ rest) out line col plain
              ∙ string_body-quoted s rest (out ++ c ∷ []) fuel _ _ (omega arith)
              ∙ rw append_assoc)
    ]

length-quote : (c : ℕ) (s : Text) → length s + 1 ≤ length (quote c ++ s)
length-quote c s = elim (Bool-cases ((c == b'"') || (c == b'\\'))) [
  | inl e ↦ rw (e, quote) (omega arith)
  | inr e ↦ rw (e, quote) (omega arith)
]

length-quoted : (s : Text) → length s ≤ length (quoted s)
length-quoted [] = omega arith
length-quoted (c ∷ s) = omega (arith, length-quote c (quoted s), length-quoted s)

-- Where the lexer stands behind a string literal of the text `s` that opens at `c`.
abbrev pub behind_string : Cursor → Text → Text → Cursor
behind_string c s rest = record c {
  rest = rest;
  line = line_after c.line s;
  col = col_after (c.col + 1) s + 1;
}

-- A string literal that quotes a text gives one token with that text, and leaves what follows it
-- with no error and the position counted over the text.
pub string_literal-quoted :
    (s rest : Text) (c : Cursor)
    → string_literal (quoted s ++ b'"' ∷ rest) c
      ≡ some (emit (token_at c Tok.str_lit s) (behind_string c s rest))
unfolding string_literal
string_literal-quoted s rest c =
    let fuel = length (quoted s ++ b'"' ∷ rest) + 1 in
    ap (string_turn c) (
      string_body-quoted s rest [] fuel c.line (c.col + 1)
        (omega (arith, length-quoted s, length-append (quoted s) (b'"' ∷ rest))))

-- ===== src/Lexer/Literals.antt =====
-- src/Lexer.cpp: character and string literals.
use oxide_lang_reupload.Prelude.{
  ℕ, zero, suc, ◌+◌, ◌*◌, Text, codes, Bool, true, false, not, [], ◌∷◌, ◌++◌, Option, none, some,
  ◌==◌, if◌then◌else◌, length,
}
use oxide_lang_reupload.Lexer.Token.{Tok}
use oxide_lang_reupload.Lexer.Chars.{hexval}
use oxide_lang_reupload.Lexer.Cursor.{Cursor, error, move}
use oxide_lang_reupload.Lexer.Numbers.{Turn, emit, token_at}

-- The byte that an escape other than `\x` stands for. An unknown one stands for itself.
unfoldable pub simple_escape : ℕ → ℕ
simple_escape e =
    if e == b'n'
    then 10
    else if e == b't'
    then 9
    else if e == b'r'
    then 13
    else if e == b'0'
    then 0
    else if e == b'a'
    then 7
    else if e == b'b'
    then 8
    else if e == b'f'
    then 12
    else if e == b'v'
    then 11
    else e

-- A byte with the input behind it, and how many bytes were read.
pub record Escaped : Type 0 where
  pub byte : ℕ
  pub rest : Text
  pub read : ℕ

-- The second digit is optional. `(hi << 4) | lo` is `hi * 16 + lo` for digits.
abbrev pub second_digit : ℕ → ℕ → Option ℕ → Text → Escaped
second_digit hi d none s = record { byte = hi; rest = d ∷ s; read = 1 }
second_digit hi d (some lo) s = record { byte = hi * 16 + lo; rest = s; read = 2 }

abbrev pub first_digit : Option ℕ → ℕ → Text → Escaped
first_digit none c s = record { byte = b'x'; rest = c ∷ s; read = 0 }
first_digit (some hi) c [] = record { byte = hi; rest = []; read = 1 }
first_digit (some hi) c (d ∷ s) = second_digit hi d (hexval d) s

-- Behind `\x`: up to two hexadecimal digits. With none the escape stands for an x.
unfoldable pub hex_escape : Text → Escaped
unfolding hexval
hex_escape [] = record { byte = b'x'; rest = []; read = 0 }
hex_escape (c ∷ s) = first_digit (hexval c) c s

-- Behind a backslash and the byte `e`.
unfoldable pub escape : ℕ → Text → Escaped
unfolding hex_escape simple_escape
escape e s =
    if e == b'x' then hex_escape s else record { byte = simple_escape e; rest = s; read = 0 }

-- A string's body as read so far: `cut` is an end of input behind a backslash.
pub record StringScan : Type 0 where
  pub text : Text
  pub rest : Text
  pub line : ℕ
  pub col : ℕ
  pub closing : Bool
  pub cut : Bool

-- The loop over the body, on fuel. `none` is fuel that ran out.
unfoldable pub string_body : ℕ → Text → Text → ℕ → ℕ → Option StringScan
unfolding escape
string_body zero s out line col = none
string_body (suc fuel) [] out line col =
    some (record { text = out; rest = []; line = line; col = col; closing = false; cut = false })
string_body (suc fuel) (c ∷ []) out line col =
    let plain =
      string_body fuel [] (out ++ c ∷ []) (if c == b'\n' then line + 1 else line)
        (if c == b'\n' then 1 else col + 1) in
    if c == b'"'
    then some
        (record { text = out; rest = []; line = line; col = col + 1; closing = true; cut = false })
    else if c == b'\\'
    then some
        (record { text = out; rest = []; line = line; col = col + 1; closing = false; cut = true })
    else plain
string_body (suc fuel) (c ∷ e ∷ s) out line col =
    let plain =
      string_body fuel (e ∷ s) (out ++ c ∷ []) (if c == b'\n' then line + 1 else line)
        (if c == b'\n' then 1 else col + 1) in
    let x = escape e s in
    let escaped = string_body fuel x.rest (out ++ x.byte ∷ []) line (col + 2 + x.read) in
    if c == b'"'
    then some (record {
      text = out;
      rest = e ∷ s;
      line = line;
      col = col + 1;
      closing = true;
      cut = false;
    })
    else if c == b'\\'
    then escaped
    else plain

abbrev pub error_if : Bool → Text → Cursor → Cursor
error_if b msg c = if b then error msg c else c

-- The end of the branch at a quotation mark, from the cursor `c` of the mark.
abbrev pub string_token : Cursor → StringScan → Turn
string_token c b =
    let at_end = record c { rest = b.rest; line = b.line; col = b.col } in
    let reported = error_if b.cut (codes "unterminated string") at_end in
    emit (token_at c Tok.str_lit b.text)
      (error_if (not b.closing) (codes "unterminated string") reported)

abbrev pub string_turn : Cursor → Option StringScan → Option Turn
string_turn c none = none
string_turn c (some b) = some (string_token c b)

-- The branch of `lex` at a quotation mark, `s` being the bytes behind it.
unfoldable pub string_literal : Text → Cursor → Option Turn
unfolding string_body error
string_literal s c = string_turn c (string_body (length s + 1) s [] c.line (c.col + 1))

-- The token of a character, closed or not: `closing` is the test of the source.
abbrev pub char_token : Cursor → ℕ → Bool → Cursor → Turn
char_token c v closing c' =
    emit (record (token_at c Tok.char_lit []) { u64 = v })
      (error_if (not closing) (codes "unterminated char") c')

-- The closing quote behind the character `v`.
abbrev pub close_char : Cursor → ℕ → Text → Cursor → Turn
close_char c v [] c' =
    char_token c v false (error (codes "char literal must be a single character") c')
close_char c v (q ∷ s) c' =
    if q == b'\''
    then char_token c v true (move s 1 c')
    else char_token c v false (error (codes "char literal must be a single character") c')

-- Behind the backslash of a character literal; `c'` stands there.
abbrev pub escaped_char : Cursor → Text → Cursor → Turn
escaped_char c [] c' = char_token c 0 false (error (codes "unterminated char") c')
escaped_char c (e ∷ s) c' =
    let x = escape e s in close_char c x.byte x.rest (move x.rest (1 + x.read) c')

-- The branch of `lex` at an apostrophe, `s` being the bytes behind it. Every path through the loop
-- of the source leaves it in the first round.
unfoldable pub char_literal : Text → Cursor → Turn
unfolding error escape
char_literal [] c = char_token c 0 false (move [] 1 c)
char_literal (q ∷ s) c =
    if q == b'\''
    then char_token c 0 true (move s 2 c)
    else if q == b'\\'
    then escaped_char c s (move s 2 c)
    else close_char c q s (record c {
      rest = s;
      line = (if q == b'\n' then c.line + 1 else c.line);
      col = (if q == b'\n' then 1 else c.col + 2);
    })

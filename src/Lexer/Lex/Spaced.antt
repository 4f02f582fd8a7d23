-- ===== src/Lexer/Lex/Spaced.antt =====
-- `Lexer::lex` of src/Lexer.cpp on lexemes that are written with spaces behind them.
use oxide_lang_reupload.Prelude.{
  ℕ, zero, suc, ◌+◌, ◌≤◌, ◌<◌, ◌≡◌, refl, ap, ◌∙◌, Text, Bool, true, false, ◌||◌, List, [], ◌∷◌,
  ◌++◌, append_assoc, Option, none, some, arith, ◌==◌, length, length-append, all,
}
use oxide_lang_reupload.Lexer.Token.{Tok, Token}
use oxide_lang_reupload.Lexer.Chars.{is_digit, is_ident_start, is_ident_part, span, stoull}
use oxide_lang_reupload.Lexer.Keywords.{keyword}
use oxide_lang_reupload.Lexer.Cursor.{Cursor, move}
use oxide_lang_reupload.Lexer.Numbers.{
  Turn, skip, emit, token_at, number_at, decimal_literal, int_token, uncaught,
}
use oxide_lang_reupload.Lexer.Literals.{string_literal}
use oxide_lang_reupload.Lexer.Lex.{
  token_turn, turn, Lexed, lexed, loop, advance, continue, lex, word, start,
}
use oxide_lang_reupload.Lexer.Lex.Strings.{quoted, behind_string, string_literal-quoted}

-- A word, a decimal numeral with its value, or the text of a string.
pub data Lexeme : Type 0 where
  word_of : Text → Lexeme
  int_of : Text → ℕ → Lexeme
  string_of : Text → Lexeme

abbrev pub IsWord : Text → Type 0
IsWord [] = ⊥
IsWord (a ∷ s) = (is_ident_start a ≡ true) × (all is_ident_part s ≡ true)

abbrev pub IsNumeral : Text → Type 0
IsNumeral [] = ⊥
IsNumeral (a ∷ s) = (is_digit a ≡ true) × (all is_digit s ≡ true)

-- What can be written: a numeral has a value that `stoull` accepts.
abbrev pub IsLexeme : Lexeme → Type 0
IsLexeme (word_of w) = IsWord w
IsLexeme (int_of ds v) = IsNumeral ds × (stoull 10 ds ≡ some v)
IsLexeme (string_of s) = Unit

-- A lexeme as it is written.
abbrev pub written : Lexeme → Text
written (word_of w) = w
written (int_of ds v) = ds
written (string_of s) = b'"' ∷ (quoted s ++ b'"' ∷ [])

-- The token that it stands for, at the position of the cursor.
abbrev pub token_of : Lexeme → Cursor → Token
token_of (word_of w) c = token_at c (keyword w) w
token_of (int_of ds v) c = record (token_at c Tok.int_lit ds) { u64 = v }
token_of (string_of s) c = token_at c Tok.str_lit s

-- The cursor behind it, with `rest` left.
abbrev pub behind : Lexeme → Cursor → Text → Cursor
behind (word_of w) c rest = move rest (length w) c
behind (int_of ds v) c rest = move rest (length ds) c
behind (string_of s) c rest = behind_string c s rest

span-all :
    (p : ℕ → Bool) (w rest : Text)
    → all p w ≡ true
    → p b' ' ≡ false
    → span p (w ++ b' ' ∷ rest) ≡ (w, b' ' ∷ rest)
unfolding span
span-all p [] rest h e = rw e
span-all p (a ∷ w) rest h e =
    let tail = span-all p w rest (ground arith) e in
    let head : p a ≡ true = ground arith in rw (head, tail)

turn-ident : (a : ℕ) (s : Text) (c : Cursor) → is_ident_start a ≡ true → turn a s c ≡ some (word c)
unfolding turn token_turn is_ident_start
turn-ident a s c h = ground arith

token_turn-digit :
    (a : ℕ) (s : Text) (c : Cursor)
    → is_digit a ≡ true
    → token_turn a s c ≡ some (number_at (a ∷ s) c)
unfolding token_turn is_ident_start
token_turn-digit a s c h =
    let no_start : is_ident_start a ≡ false = ground arith in rw (no_start, h)

turn-digit :
    (a : ℕ) (s : Text) (c : Cursor) → is_digit a ≡ true → turn a s c ≡ some (number_at (a ∷ s) c)
unfolding turn
turn-digit a s c h =
    let no_blank : ((a == b' ') || (a == b'\t') || (a == b'\r')) ≡ false = ground arith in
    let no_line : (a == b'\n') ≡ false = ground arith in
    let no_slash : (a == b'/') ≡ false = ground arith in
    rw (no_blank, no_line, no_slash) (token_turn-digit a s c h)

turn-quote : (s : Text) (c : Cursor) → turn b'"' s c ≡ string_literal s c
unfolding turn token_turn is_ident_start
turn-quote s c = refl

turn-space : (s : Text) (c : Cursor) → turn b' ' s c ≡ some (skip (move s 1 c))
unfolding turn
turn-space s c = refl

-- The turn at a text that is not empty.
abbrev turn_on : Text → Cursor → Option Turn
turn_on [] c = none
turn_on (a ∷ s) c = turn a s c

ident_start→part : (a : ℕ) → is_ident_start a ≡ true → is_ident_part a ≡ true
unfolding is_ident_start is_ident_part
ident_start→part a h = ground arith

space_is_no_part : is_ident_part b' ' ≡ false
unfolding is_ident_part
space_is_no_part = refl

turn_on-word :
    (w rest : Text) (c : Cursor)
    → IsWord w
    → c.rest ≡ w ++ b' ' ∷ rest
    → turn_on (w ++ b' ' ∷ rest) c
      ≡ some (emit (token_of (word_of w) c) (behind (word_of w) c (b' ' ∷ rest)))
turn_on-word [] rest c h e = absurd h
turn_on-word (a ∷ w) rest c (first, others) e =
    let parts : all is_ident_part (a ∷ w) ≡ true = ground (arith, ident_start→part a first) in
    let taken = span-all is_ident_part (a ∷ w) rest parts space_is_no_part in
    turn-ident a (w ++ b' ' ∷ rest) c first ∙ rw e (rw taken)

-- A numeral that a space follows has no prefix.
number_at-decimal :
    (a : ℕ) (w rest : Text) (c : Cursor)
    → all is_digit w ≡ true
    → number_at (a ∷ (w ++ b' ' ∷ rest)) c ≡ decimal_literal c
unfolding number_at
number_at-decimal a [] rest c h = ground arith
number_at-decimal a (b ∷ w) rest c h = ground arith

decimal_literal-numeral :
    (ds rest : Text) (c : Cursor)
    → all is_digit ds ≡ true
    → c.rest ≡ ds ++ b' ' ∷ rest
    → decimal_literal c ≡ int_token ds (b' ' ∷ rest) c
unfolding decimal_literal
decimal_literal-numeral ds rest c h e = rw e (rw (span-all is_digit ds rest h refl))

turn_on-int :
    (ds rest : Text) (v : ℕ) (c : Cursor)
    → IsNumeral ds
    → stoull 10 ds ≡ some v
    → c.rest ≡ ds ++ b' ' ∷ rest
    → turn_on (ds ++ b' ' ∷ rest) c
      ≡ some (emit (token_of (int_of ds v) c) (behind (int_of ds v) c (b' ' ∷ rest)))
unfolding int_token
turn_on-int [] rest v c h sv e = absurd h
turn_on-int (a ∷ w) rest v c (first, others) sv e =
    let digits : all is_digit (a ∷ w) ≡ true = ground arith in
    turn-digit a (w ++ b' ' ∷ rest) c first
    ∙ ap some (
        number_at-decimal a w rest c others
        ∙ decimal_literal-numeral (a ∷ w) rest c digits e
        ∙ rw (sv, uncaught))

turn_on-written :
    (x : Lexeme) (rest : Text) (c : Cursor)
    → IsLexeme x
    → c.rest ≡ written x ++ b' ' ∷ rest
    → turn_on (written x ++ b' ' ∷ rest) c ≡ some (emit (token_of x c) (behind x c (b' ' ∷ rest)))
turn_on-written (word_of w) rest c h e = turn_on-word w rest c h e
turn_on-written (int_of ds v) rest c (h, sv) e = turn_on-int ds rest v c h sv e
turn_on-written (string_of s) rest c h e =
    turn-quote _ c ∙ rw append_assoc (string_literal-quoted s (b' ' ∷ rest) c)

-- Lexemes with a space behind each.
abbrev pub render : List Lexeme → Text
render [] = []
render (x ∷ xs) = written x ++ b' ' ∷ render xs

abbrev pub AreLexemes : List Lexeme → Type 0
AreLexemes [] = Unit
AreLexemes (x ∷ xs) = IsLexeme x × AreLexemes xs

-- The cursor behind a lexeme and its space.
abbrev pub past : Lexeme → List Lexeme → Cursor → Cursor
past x xs c = move (render xs) 1 (behind x c (b' ' ∷ render xs))

-- The tokens of the lexemes, each at its position, and the end token.
abbrev pub tokens_of : List Lexeme → Cursor → List Token
tokens_of [] c = token_at c Tok.end [] ∷ []
tokens_of (x ∷ xs) c = token_of x c ∷ tokens_of xs (past x xs c)

turn_on-advance :
    (again : List Token → Cursor → Lexed) (s : Text) (out : List Token) (c d : Cursor) (t : Token)
    → turn_on s c ≡ some (emit t d)
    → advance again out c s ≡ again (out ++ t ∷ []) d
unfolding advance
turn_on-advance again [] out c d t e = cc
turn_on-advance again (a ∷ s) out c d t e = rw (e, continue)

space-advance :
    (again : List Token → Cursor → Lexed) (s : Text) (out : List Token) (c : Cursor)
    → advance again out c (b' ' ∷ s) ≡ again out (move s 1 c)
unfolding advance
space-advance again s out c = refl

behind-rest : (x : Lexeme) (c : Cursor) (s : Text) → (behind x c s).rest ≡ s
behind-rest (word_of w) c s = refl
behind-rest (int_of ds v) c s = refl
behind-rest (string_of t) c s = refl

behind-errs : (x : Lexeme) (c : Cursor) (s : Text) → (behind x c s).errs ≡ c.errs
behind-errs (word_of w) c s = refl
behind-errs (int_of ds v) c s = refl
behind-errs (string_of t) c s = refl

-- Two turns read a lexeme and its space.
loop-written :
    (fuel : ℕ) (x : Lexeme) (xs : List Lexeme) (out : List Token) (c : Cursor)
    → IsLexeme x
    → c.rest ≡ written x ++ b' ' ∷ render xs
    → loop (suc (suc fuel)) out c ≡ loop fuel (out ++ token_of x c ∷ []) (past x xs c)
unfolding loop
loop-written fuel x xs out c h e =
    ap (advance (loop (suc fuel)) out c) e
    ∙ turn_on-advance (loop (suc fuel)) (written x ++ b' ' ∷ render xs) out c _ _
        (turn_on-written x (render xs) c h e)
    ∙ ap (advance (loop fuel) (out ++ token_of x c ∷ []) (behind x c (b' ' ∷ render xs)))
        (behind-rest x c (b' ' ∷ render xs))
    ∙ space-advance (loop fuel) (render xs) (out ++ token_of x c ∷ [])
        (behind x c (b' ' ∷ render xs))

written-pos : (x : Lexeme) → IsLexeme x → 1 ≤ length (written x)
written-pos (word_of []) h = absurd h
written-pos (word_of (a ∷ w)) h = omega arith
written-pos (int_of [] v) (h, sv) = absurd h
written-pos (int_of (a ∷ w) v) h = omega arith
written-pos (string_of s) h = omega arith

loop-render :
    (xs : List Lexeme) (fuel : ℕ) (out : List Token) (c : Cursor)
    → AreLexemes xs
    → c.rest ≡ render xs
    → length (render xs) < fuel
    → loop fuel out c ≡ lexed (out ++ tokens_of xs c) c.errs
unfolding loop advance
loop-render xs zero out c h e l = absurd (omega arith)
loop-render [] (suc fuel) out c h e l = rw e refl
loop-render (x ∷ xs) (suc zero) out c (h, hs) e l =
    absurd (omega (arith, length-append (written x) (b' ' ∷ render xs), written-pos x h))
loop-render (x ∷ xs) (suc (suc fuel)) out c (h, hs) e l =
    loop-written fuel x xs out c h e
    ∙ loop-render xs fuel (out ++ token_of x c ∷ []) (past x xs c) hs refl
        (omega (arith, length-append (written x) (b' ' ∷ render xs), written-pos x h))
    ∙ rw (append_assoc, behind-errs x c (b' ' ∷ render xs)) refl

-- Words, decimal numerals with a value and quoted strings, written with a space behind each, are
-- read back: `lex` gives exactly their tokens, each with its kind, text, value and position, then
-- the end token, and no error.
pub lex-render :
    (xs : List Lexeme)
    → AreLexemes xs
    → lex (render xs) ≡ lexed (tokens_of xs (start (render xs))) []
unfolding lex
lex-render xs h =
    loop-render xs (length (render xs) + 1) [] (start (render xs)) h refl (omega arith)

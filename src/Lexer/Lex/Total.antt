-- ===== src/Lexer/Lex/Total.antt =====
-- The turns of `Lexer::lex` of src/Lexer.cpp, and its fuel.
use oxide_lang_reupload.Prelude.{
  ℕ, zero, suc, ◌+◌, ◌≤◌, ◌<◌, ◌≡◌, refl, ap, ◌≢◌, inl, inr, Text, codes, Bool, true, false, ◌&&◌,
  ◌||◌, not, List, [], ◌∷◌, ◌++◌, Option, none, some, arith, ◌==◌, if◌then◌else◌, length,
  Bool-cases,
}
use oxide_lang_reupload.Lexer.Token.{Tok, Token}
use oxide_lang_reupload.Lexer.Chars.{is_digit, is_ident_start, is_ident_part, peek, peek2, hexval}
use oxide_lang_reupload.Lexer.Cursor.{Cursor, move, skip_block, after_block, BlockScan}
use oxide_lang_reupload.Lexer.Numbers.{Turn, skip, emit, thrown, drop_one}
use oxide_lang_reupload.Lexer.Literals.{
  hex_escape, escape, StringScan, string_body, string_turn, string_literal, char_literal,
  close_char, escaped_char, char_token, error_if, first_digit, second_digit,
}
use oxide_lang_reupload.Lexer.Operators.{glyph, take_bytes, glyph_or_error, operator_token, symbol}
use oxide_lang_reupload.Lexer.Lex.{
  token_turn, turn, Lexed, stuck, loop, advance, continue, lex, word, start,
}
use oxide_lang_reupload.Lexer.Lex.Progress.{
  Leaves, rest-error, span-lt, drop_one-le, skip_line-le, skip_block-le, number_at-Leaves,
}
use oxide_lang_reupload.Lexer.Lex.Symbols.{HasLength, operator-HasLength}

hex_escape-le : (s : Text) → length (hex_escape s).rest ≤ length s
unfolding hex_escape
hex_escape-le [] = omega arith
hex_escape-le (c ∷ []) = first (hexval c)
  where
    first : (o : Option ℕ) → length (first_digit o c []).rest ≤ suc 0
    first none = omega arith
    first (some hi) = omega arith
hex_escape-le (c ∷ d ∷ s) = first (hexval c)
  where
    second : (hi : ℕ) (o : Option ℕ) → length (second_digit hi d o s).rest ≤ suc (suc (length s))
    second hi none = omega arith
    second hi (some lo) = omega arith

    first : (o : Option ℕ) → length (first_digit o c (d ∷ s)).rest ≤ suc (suc (length s))
    first none = omega arith
    first (some hi) = second hi (hexval d)

escape-le : (e : ℕ) (s : Text) → length (escape e s).rest ≤ length s
unfolding escape
escape-le e s = elim (Bool-cases (e == b'x')) [
  | inl x ↦ rw x (hex_escape-le s)
  | inr other ↦ rw other (omega arith)
]

-- The body of a string ends within its fuel, and leaves no more than it was given.
abbrev Ends : ℕ → Option StringScan → Type 0
Ends n none = ⊥
Ends n (some b) = length b.rest ≤ n

Ends-mono : (m n : ℕ) (o : Option StringScan) → m ≤ n → Ends m o → Ends n o
Ends-mono m n none h e = absurd e
Ends-mono m n (some b) h e = omega arith

Ends-if :
    (n : ℕ) (b : Bool) (x y : Option StringScan) → Ends n x → Ends n y → Ends n (if b then x else y)
Ends-if n true x y h k = h
Ends-if n false x y h k = k

string_body-Ends :
    (fuel : ℕ) (s out : Text) (line col : ℕ)
    → length s < fuel
    → Ends (length s) (string_body fuel s out line col)
unfolding string_body
string_body-Ends zero s out line col h = absurd (omega arith)
string_body-Ends (suc fuel) [] out line col h = omega arith
string_body-Ends (suc fuel) (c ∷ []) out line col h = Ends-if 1 (c == b'"') _ _ (omega arith) (
    Ends-if 1 (c == b'\\') _ _ (omega arith)
      (Ends-mono 0 1 _ (omega arith) (string_body-Ends fuel [] _ _ _ (omega arith))))
string_body-Ends (suc fuel) (c ∷ e ∷ s) out line col h =
    let x = escape e s in
    Ends-if (length (c ∷ e ∷ s)) (c == b'"') _ _ (omega arith) (
      Ends-if (length (c ∷ e ∷ s)) (c == b'\\') _ _
        (Ends-mono (length x.rest) (length (c ∷ e ∷ s)) _ (omega (arith, escape-le e s)) (
          string_body-Ends fuel x.rest (out ++ x.byte ∷ []) line (col + 2 + x.read)
            (omega (arith, escape-le e s))))
        (Ends-mono (length (e ∷ s)) (length (c ∷ e ∷ s)) _ (omega arith)
          (string_body-Ends fuel (e ∷ s) _ _ _ (omega arith))))

error_if-rest : (b : Bool) (msg : Text) (c : Cursor) → (error_if b msg c).rest ≡ c.rest
error_if-rest true msg c = rest-error msg c
error_if-rest false msg c = refl

-- A turn that is made, and leaves at most `n` bytes.
abbrev Made : ℕ → Option Turn → Type 0
Made n none = ⊥
Made n (some t) = Leaves n t

string_turn-Made :
    (n : ℕ) (c : Cursor) (o : Option StringScan) → Ends n o → Made n (string_turn c o)
string_turn-Made n c none e = e
string_turn-Made n c (some b) e =
    let at_end : Cursor = record c { rest = b.rest; line = b.line; col = b.col } in
    omega (
      arith,
      ap length (
          error_if-rest (not b.closing) (codes "unterminated string")
            (error_if b.cut (codes "unterminated string") at_end)),
      ap length (error_if-rest b.cut (codes "unterminated string") at_end),
    )

string_literal-Made : (s : Text) (c : Cursor) → Made (length s) (string_literal s c)
unfolding string_literal
string_literal-Made s c =
    string_turn-Made (length s) c _
      (string_body-Ends (length s + 1) s [] c.line (c.col + 1) (omega arith))

char_token-Leaves :
    (n : ℕ) (c c' : Cursor) (v : ℕ) (b : Bool) → length c'.rest ≤ n → Leaves n (char_token c v b c')
char_token-Leaves n c c' v b h =
    omega (arith, ap length (error_if-rest (not b) (codes "unterminated char") c'))

close_char-Leaves :
    (n : ℕ) (c c' : Cursor) (v : ℕ) (s : Text)
    → length s ≤ n
    → length c'.rest ≤ n
    → Leaves n (close_char c v s c')
close_char-Leaves n c c' v [] h k =
    char_token-Leaves n c _ v false
      (omega (arith, ap length (rest-error (codes "char literal must be a single character") c')))
close_char-Leaves n c c' v (q ∷ s) h k = elim (Bool-cases (q == b'\'')) [
  | inl e ↦ rw e (char_token-Leaves n c (move s 1 c') v true (omega arith))
  | inr e ↦ rw e (
      char_token-Leaves n c _ v false (
        omega (arith, ap length (rest-error (codes "char literal must be a single character") c'))))
]

escaped_char-Leaves :
    (n : ℕ) (c c' : Cursor) (s : Text)
    → length s ≤ n
    → length c'.rest ≤ n
    → Leaves n (escaped_char c s c')
escaped_char-Leaves n c c' [] h k =
    char_token-Leaves n c _ 0 false
      (omega (arith, ap length (rest-error (codes "unterminated char") c')))
escaped_char-Leaves n c c' (e ∷ s) h k =
    close_char-Leaves n c _ (escape e s).byte (escape e s).rest (omega (arith, escape-le e s))
      (omega (arith, escape-le e s))

char_literal-Leaves : (s : Text) (c : Cursor) → Leaves (length s) (char_literal s c)
unfolding char_literal
char_literal-Leaves [] c = char_token-Leaves 0 c (move [] 1 c) 0 false (omega arith)
char_literal-Leaves (q ∷ s) c = elim (Bool-cases (q == b'\'')) [
  | inl e ↦ rw e (char_token-Leaves _ c (move s 2 c) 0 true (omega arith))
  | inr e ↦ elim (Bool-cases (q == b'\\')) [
    | inl f ↦ rw (e, f) (escaped_char-Leaves _ c (move s 2 c) s (omega arith) (omega arith))
    | inr f ↦ rw (e, f) (close_char-Leaves _ c _ q s (omega arith) (omega arith))
  ]
]

take_bytes-le : (n : ℕ) (s : Text) → length (take_bytes n s).1 ≤ length s
take_bytes-le zero s = omega arith
take_bytes-le (suc n) [] = omega arith
take_bytes-le (suc n) (c ∷ s) = omega (arith, take_bytes-le n s)

take_bytes-lt : (n a : ℕ) (s : Text) → 1 ≤ n → length (take_bytes n (a ∷ s)).1 ≤ length s
take_bytes-lt zero a s h = absurd (omega arith)
take_bytes-lt (suc n) a s h = take_bytes-le n s

glyph-pos : (a n m k : ℕ) → glyph a n m ≡ some k → 1 ≤ k
unfolding glyph
glyph-pos a n m k h = ground arith

glyph_or_error-Leaves :
    (o : Option ℕ) (a : ℕ) (s : Text) (c : Cursor)
    → ((k : ℕ) → o ≡ some k → 1 ≤ k)
    → Leaves (length s) (glyph_or_error o a s c)
glyph_or_error-Leaves none a s c h = omega arith
glyph_or_error-Leaves (some n) a s c h = take_bytes-lt n a s (h n refl)

operator_token-Leaves :
    (o : Option (Tok × ℕ)) (a : ℕ) (s : Text) (c : Cursor)
    → HasLength o
    → Leaves (length s) (operator_token o a s c)
operator_token-Leaves none a s c h =
    glyph_or_error-Leaves _ a s c (λ k e. glyph-pos a (peek s) (peek2 s) k e)
operator_token-Leaves (some (k, n)) a s c h = take_bytes-lt n a s h

Made-if :
    (n : ℕ) (b : Bool) (x y : Option Turn)
    → (b ≡ true → Made n x)
    → Made n y
    → Made n (if b then x else y)
Made-if n true x y h k = h refl
Made-if n false x y h k = k

ident_start→part : (a : ℕ) → is_ident_start a ≡ true → is_ident_part a ≡ true
unfolding is_ident_start is_ident_part
ident_start→part a h = ground arith

word-Made :
    (a : ℕ) (s : Text) (c : Cursor)
    → c.rest ≡ a ∷ s
    → is_ident_part a ≡ true
    → Leaves (length s) (word c)
word-Made a s c e h = rw e (span-lt is_ident_part a s h)

token_turn-Made :
    (a : ℕ) (s : Text) (c : Cursor) → c.rest ≡ a ∷ s → Made (length s) (token_turn a s c)
unfolding token_turn symbol
token_turn-Made a s c e =
    Made-if _ (is_ident_start a) _ _ (λ h. word-Made a s c e (ident_start→part a h))
      (Made-if _ (is_digit a) _ _ (λ h. number_at-Leaves a s c h e)
        (Made-if _ (a == b'\'') _ _ (λ h. char_literal-Leaves s c)
          (Made-if _ (a == b'"') _ _ (λ h. string_literal-Made s c)
            (operator_token-Leaves _ a s c (operator-HasLength a (peek s) (peek2 s))))))

after_block-rest : (b : BlockScan) (c : Cursor) → (after_block b c).rest ≡ b.rest
after_block-rest b c = elim (Bool-cases b.closed) [
  | inl e ↦ rw (e, after_block)
  | inr e ↦ rw (e, after_block) (rest-error (codes "unterminated block comment") _)
]

-- Every turn is made, and consumes at least one byte.
pub turn-Made : (a : ℕ) (s : Text) (c : Cursor) → c.rest ≡ a ∷ s → Made (length s) (turn a s c)
unfolding turn
turn-Made a s c e =
    Made-if _ ((a == b' ') || (a == b'\t') || (a == b'\r')) _ _ (λ h. omega arith)
      (Made-if _ (a == b'\n') _ _ (λ h. omega arith)
        (Made-if _ ((a == b'/') && (peek s == b'/')) _ _ (λ h. skip_line-le s (c.col + 1))
          (Made-if _ ((a == b'/') && (peek s == b'*')) _ _
            (λ h. omega (
              arith,
              ap length (after_block-rest (skip_block (drop_one s) c.line (c.col + 2)) c),
              skip_block-le (drop_one s) c.line (c.col + 2),
              drop_one-le s,
            ))
            (token_turn-Made a s c e))))

-- What follows a turn is not stuck if the loop is not, on less than `bound` bytes.
module _ (again : List Token → Cursor → Lexed) (bound : ℕ)
    (ends : (out : List Token) (c : Cursor) → length c.rest < bound → again out c ≢ stuck) where
  continue-ne-stuck :
      (n : ℕ) (out : List Token) (o : Option Turn)
      → n < bound
      → Made n o
      → continue again out o ≢ stuck
  unfolding continue
  continue-ne-stuck n out none l m = absurd m
  continue-ne-stuck n out (some (skip c)) l m = ends out c (omega arith)
  continue-ne-stuck n out (some (emit t c)) l m = ends (out ++ t ∷ []) c (omega arith)
  continue-ne-stuck n out (some thrown) l m = cc

  advance-ne-stuck :
      (out : List Token) (c : Cursor) (s : Text)
      → c.rest ≡ s
      → length s < suc bound
      → advance again out c s ≢ stuck
  unfolding advance
  advance-ne-stuck out c [] e l = cc
  advance-ne-stuck out c (a ∷ s) e l =
      continue-ne-stuck (length s) out (turn a s c) (omega arith) (turn-Made a s c e)

loop-ne-stuck :
    (fuel : ℕ) (out : List Token) (c : Cursor) → length c.rest < fuel → loop fuel out c ≢ stuck
unfolding loop
loop-ne-stuck zero out c h = absurd (omega arith)
loop-ne-stuck (suc fuel) out c h =
    advance-ne-stuck (loop fuel) fuel (loop-ne-stuck fuel) out c c.rest refl h

-- On every input `lex` ends, with its two vectors or an exception: the fuel is enough.
pub lex-ne-stuck : (src : Text) → lex src ≢ stuck
unfolding lex
lex-ne-stuck src = loop-ne-stuck (length src + 1) [] (start src) (omega arith)

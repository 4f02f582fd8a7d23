-- ===== src/Lexer/Lex/Progress.antt =====
-- How much input the parts of the main loop of src/Lexer.cpp leave.
use oxide_lang_reupload.Prelude.{
  ℕ, suc, ◌+◌, ◌≤◌, ◌≡◌, refl, ap, inl, inr, Text, codes, Bool, true, ◌&&◌, ◌||◌, [], ◌∷◌, ◌++◌,
  Option, none, some, arith, ◌==◌, if◌then◌else◌, length, Bool-cases,
}
use oxide_lang_reupload.Lexer.Token.{Tok}
use oxide_lang_reupload.Lexer.Chars.{is_digit, is_xdigit, span, peek, peek2, stoull}
use oxide_lang_reupload.Lexer.Cursor.{Cursor, error, move, skip_line, skip_block}
use oxide_lang_reupload.Lexer.Numbers.{
  Turn, skip, emit, thrown, token_at, caught, prefixed, is_bit, f_suffix, drop_one, float_token,
  int_token, uncaught, decimal_literal, number_at,
}

-- A turn that leaves at most `n` bytes of input, unless it throws.
abbrev pub Leaves : ℕ → Turn → Type 0
Leaves n (skip c) = length c.rest ≤ n
Leaves n (emit t c) = length c.rest ≤ n
Leaves n thrown = Unit

pub Leaves-mono : (m n : ℕ) (t : Turn) → m ≤ n → Leaves m t → Leaves n t
Leaves-mono m n (skip c) h l = omega arith
Leaves-mono m n (emit t c) h l = omega arith
Leaves-mono m n thrown h l = tt

pub rest-error : (msg : Text) (c : Cursor) → (error msg c).rest ≡ c.rest
unfolding error
rest-error msg c = refl

pub span-le : (p : ℕ → Bool) (s : Text) → length (span p s).1 ≤ length s
unfolding span
span-le p [] = omega arith
span-le p (c ∷ s) = ground (arith, span-le p s)

pub span-lt : (p : ℕ → Bool) (c : ℕ) (s : Text) → p c ≡ true → length (span p (c ∷ s)).1 ≤ length s
unfolding span
span-lt p c s h = ground (arith, span-le p s)

pub drop_one-le : (s : Text) → length (drop_one s) ≤ length s
drop_one-le [] = omega arith
drop_one-le (c ∷ s) = omega arith

pub skip_line-le : (s : Text) (col : ℕ) → length (skip_line s col).0 ≤ length s
unfolding skip_line
skip_line-le [] col = omega arith
skip_line-le (c ∷ s) col = ground (arith, skip_line-le s (col + 1))

pub skip_block-le : (s : Text) (line col : ℕ) → length (skip_block s line col).rest ≤ length s
unfolding skip_block
skip_block-le [] line col = omega arith
skip_block-le (a ∷ []) line col = omega arith
skip_block-le (a ∷ b ∷ s) line col = ground (
  arith,
  skip_block-le (b ∷ s) (if a == b'\n' then line + 1 else line) (if a == b'\n' then 1 else col + 1),
)

prefixed-Leaves :
    (base : ℕ) (msg text rest : Text) (c : Cursor)
    → Leaves (length rest) (prefixed base msg text rest c)
unfolding prefixed
prefixed-Leaves base msg text rest c = caught_leaves (stoull base text)
  where
    caught_leaves :
        (o : Option ℕ)
        → Leaves
            (length rest)
            (caught o msg (token_at c Tok.int_lit text) (move rest (length text) c))
    caught_leaves none = omega (arith, ap length (rest-error msg (move rest (length text) c)))
    caught_leaves (some v) = omega arith

float_token-Leaves :
    (text rest : Text) (c : Cursor) → Leaves (length rest) (float_token text rest c)
unfolding float_token
float_token-Leaves text rest c = elim (Bool-cases (f_suffix rest)) [
  | inl e ↦ rw e (drop_one-le rest)
  | inr e ↦ rw e (omega arith)
]

int_token-Leaves : (text rest : Text) (c : Cursor) → Leaves (length rest) (int_token text rest c)
unfolding int_token
int_token-Leaves text rest c = uncaught_leaves (stoull 10 text)
  where
    uncaught_leaves : (o : Option ℕ) → Leaves (length rest) (uncaught o text rest c)
    uncaught_leaves none = tt
    uncaught_leaves (some v) = omega arith

decimal_literal-Leaves :
    (a : ℕ) (s : Text) (c : Cursor)
    → is_digit a ≡ true
    → c.rest ≡ a ∷ s
    → Leaves (length s) (decimal_literal c)
unfolding decimal_literal
decimal_literal-Leaves a s c h e =
    let whole = (span is_digit c.rest).0 in
    let rest = (span is_digit c.rest).1 in
    let fraction = (span is_digit (drop_one rest)).0 in
    let behind = (span is_digit (drop_one rest)).1 in
    let first : length rest ≤ length s = rw e (span-lt is_digit a s h) in
    elim (Bool-cases ((peek rest == b'.') && is_digit (peek2 rest))) [
      | inl point ↦ rw point (
          Leaves-mono (length behind) (length s) _
            (omega (arith, span-le is_digit (drop_one rest), drop_one-le rest))
            (float_token-Leaves (whole ++ peek rest ∷ fraction) behind c))
      | inr no_point ↦
          rw no_point (Leaves-mono (length rest) (length s) _ first (int_token-Leaves whole rest c))
    ]

prefixed_within :
    (base : ℕ) (msg text : Text) (p : ℕ → Bool) (s : Text) (c : Cursor)
    → Leaves (suc (length s)) (prefixed base msg text (span p s).1 c)
prefixed_within base msg text p s c =
    Leaves-mono (length (span p s).1) (suc (length s)) _ (omega (arith, span-le p s))
      (prefixed-Leaves base msg text (span p s).1 c)

pub number_at-Leaves :
    (a : ℕ) (s : Text) (c : Cursor)
    → is_digit a ≡ true
    → c.rest ≡ a ∷ s
    → Leaves (length s) (number_at (a ∷ s) c)
unfolding number_at
number_at-Leaves a [] c h e = decimal_literal-Leaves a [] c h e
number_at-Leaves a (b ∷ s) c h e =
    let hex = (a == b'0') && ((b == b'x') || (b == b'X')) in
    let bin = (a == b'0') && ((b == b'b') || (b == b'B')) in
    elim (Bool-cases hex) [
      | inl is_hex ↦ rw is_hex (
          prefixed_within 16 (codes "invalid hex literal") (a ∷ b ∷ (span is_xdigit s).0) is_xdigit
            s c)
      | inr not_hex ↦ elim (Bool-cases bin) [
        | inl is_bin ↦
            rw (not_hex, is_bin)
              (prefixed_within 2 (codes "invalid binary literal") (a ∷ b ∷ (span is_bit s).0) is_bit
                s c)
        | inr not_bin ↦ rw (not_hex, not_bin) (decimal_literal-Leaves a (b ∷ s) c h e)
      ]
    ]

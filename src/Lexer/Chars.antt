-- ===== src/Lexer/Chars.antt =====
-- src/Lexer.cpp: tests on one byte, and runs of bytes that pass a test.
use oxide_lang_reupload.Prelude.{
  ℕ, ◌+◌, ◌-◌, ◌*◌, ◌^◌, Text, Bool, ◌&&◌, ◌||◌, [], ◌∷◌, Option, none, some, ltb, leb, ◌==◌,
  if◌then◌else◌,
}

abbrev pub in_range : ℕ → ℕ → ℕ → Bool
in_range lo hi c = leb lo c && leb c hi

-- `std::isdigit`, `std::isalpha` and `std::isxdigit` of the C locale.
abbrev pub is_digit : ℕ → Bool
is_digit c = in_range b'0' b'9' c

abbrev pub is_alpha : ℕ → Bool
is_alpha c = in_range b'a' b'z' c || in_range b'A' b'Z' c

abbrev pub is_xdigit : ℕ → Bool
is_xdigit c = is_digit c || in_range b'a' b'f' c || in_range b'A' b'F' c

unfoldable pub is_ident_start : ℕ → Bool
is_ident_start c = is_alpha c || c == b'_'

unfoldable pub is_ident_part : ℕ → Bool
is_ident_part c = is_alpha c || is_digit c || c == b'_'

-- `while (i_ < src_.size() && p(src_[i_])) i_++`: the bytes passed over, and those left.
unfoldable pub span : (ℕ → Bool) → Text → Text × Text
span p [] = ([], [])
span p (c ∷ s) = let (taken, rest) = span p s in if p c then (c ∷ taken, rest) else ([], c ∷ s)

-- `src_[i_ + k]` where it is in range, else 0, as `peekc` and `peekc2` have it.
abbrev pub peek : Text → ℕ
peek [] = 0
peek (c ∷ s) = c

abbrev pub peek2 : Text → ℕ
peek2 [] = 0
peek2 (c ∷ s) = peek s

-- The value of a digit in the bases up to 16, as in the lambda `hexval` of the literals.
unfoldable pub hexval : ℕ → Option ℕ
hexval c =
    if in_range b'0' b'9' c
    then some (c - b'0')
    else if in_range b'a' b'f' c
    then some (c - b'a' + 10)
    else if in_range b'A' b'F' c
    then some (c - b'A' + 10)
    else none

-- The value of `c` in a base, if `c` is a digit of that base.
abbrev pub digit_in : ℕ → Option ℕ → Option ℕ
digit_in base none = none
digit_in base (some d) = if ltb d base then some d else none

-- The number that the longest run of digits stands for.
unfoldable pub digits_value : ℕ → ℕ → Text → ℕ
unfolding hexval
digits_value base acc [] = acc
digits_value base acc (c ∷ s) = elim (digit_in base (hexval c)) [
  | none ↦ acc
  | some d ↦ digits_value base (acc * base + d) s
]

-- In base 16 `strtoull` passes over a prefix 0x that a digit follows. In base 2 it knows no prefix.
abbrev pub skip_prefix : ℕ → Text → Text
skip_prefix base (a ∷ b ∷ c ∷ s) =
    if (base == 16) && (a == b'0') && ((b == b'x') || (b == b'X')) && is_xdigit c
    then c ∷ s
    else a ∷ b ∷ c ∷ s
skip_prefix base s = s

-- `std::stoull(text, nullptr, base)` of a text that starts with a digit of the base, by the rules of
-- `strtoull` that C++17 refers to. `none` is the exception `std::out_of_range`.
unfoldable pub stoull : ℕ → Text → Option ℕ
unfolding digits_value
stoull base s =
    let v = digits_value base 0 (skip_prefix base s) in if ltb v (2 ^ 64) then some v else none

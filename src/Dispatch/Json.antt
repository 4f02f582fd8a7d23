-- ===== src/Dispatch/Json.antt =====
-- The strings of the proof log: `jsonEscape` and `jsonStringField` of src/ProofDispatch.cpp.
use oxide_lang_reupload.Prelude.{
  ℕ, ◌+◌, ◌/◌, ◌%◌, Text, codes, Bool, true, false, not, ◌||◌, ◌&&◌, &&_iff, ◌≡◌, refl, ap, ◌∙◌,
  ◌⊎◌, inl, inr, [], ◌∷◌, ◌++◌, Option, none, some, arith, ◌==◌, ==_refl, ==_iff, Option-cases, ltb,
  all, if◌then◌else◌, Bool-cases,
}

abbrev pub hex_digit : ℕ → ℕ
hex_digit h = if ltb h 10 then 48 + h else 87 + h

abbrev pub escape_byte : ℕ → Text
escape_byte c =
    if c == b'"'
    then b'\\' ∷ b'"' ∷ []
    else if c == b'\\'
    then b'\\' ∷ b'\\' ∷ []
    else if c == b'\n'
    then b'\\' ∷ b'n' ∷ []
    else if c == b'\r'
    then b'\\' ∷ b'r' ∷ []
    else if c == b'\t'
    then b'\\' ∷ b't' ∷ []
    else if ltb c 32
    then b'\\' ∷ b'u' ∷ b'0' ∷ b'0' ∷ hex_digit (c / 16) ∷ hex_digit (c % 16) ∷ []
    else c ∷ []

unfoldable pub json_escape : Text → Text
json_escape [] = []
json_escape (c ∷ s) = escape_byte c ++ json_escape s

-- The byte that stands for an escape.
abbrev pub unescape : ℕ → ℕ
unescape n =
    if n == b'n' then b'\n' else if n == b'r' then b'\r' else if n == b't' then b'\t' else n

-- From behind the opening quotation mark.
unfoldable pub read_string : Text → Text
read_string [] = []
read_string (a ∷ []) = if a == b'"' then [] else a ∷ []
read_string (a ∷ n ∷ s) =
    let behind_escape = read_string s in
    let behind_byte = read_string (n ∷ s) in
    if a == b'"' then [] else if a == b'\\' then unescape n ∷ behind_escape else a ∷ behind_byte

-- What follows a text at the start of another.
abbrev pub strip : Text → Text → Option Text
strip [] t = some t
strip (a ∷ s) [] = none
strip (a ∷ s) (b ∷ t) = if a == b then strip s t else none

abbrev pub or_else : Option Text → Option Text → Option Text
or_else (some t) o = some t
or_else none o = o

-- What follows the first place of a text in another: `find`, and the position behind it.
unfoldable pub find_behind : Text → Text → Option Text
find_behind pat [] = strip pat []
find_behind pat (b ∷ t) = or_else (strip pat (b ∷ t)) (find_behind pat t)

abbrev pub skip_blanks : Text → Text
skip_blanks [] = []
skip_blanks (a ∷ s) = if (a == b' ') || (a == b'\t') then skip_blanks s else a ∷ s

-- The value behind the colon.
abbrev pub string_value : Text → Option Text
string_value [] = none
string_value (a ∷ s) = if a == b'"' then some (read_string s) else none

abbrev pub value_behind : Option Text → Option Text
value_behind none = none
value_behind (some t) = string_value (skip_blanks t)

abbrev pub key_pattern : Text → Text
key_pattern key = b'"' ∷ (key ++ codes "\":")

-- `found` is false in the source where the result here is `none`.
unfoldable pub json_string_field : Text → Text → Option Text
unfolding find_behind read_string
json_string_field obj key = value_behind (find_behind (key_pattern key) obj)

-- A byte that is no control character but a line break, a return or a tab.
abbrev pub is_clean : ℕ → Bool
is_clean c = not (ltb c 32) || (c == b'\n') || (c == b'\r') || (c == b'\t')

-- How a clean byte is escaped.
abbrev Escapes : ℕ → Type 0
Escapes c =
    ((k : ℕ) × (escape_byte c ≡ b'\\' ∷ k ∷ []) × (unescape k ≡ c))
    ⊎ ((escape_byte c ≡ c ∷ []) × ((c == b'"') ≡ false) × ((c == b'\\') ≡ false))

clean-Escapes : (c : ℕ) → is_clean c ≡ true → Escapes c
clean-Escapes c h = elim (Bool-cases (c == b'"')) [
  | inl e ↦ inl (b'"', rw e refl, ground arith)
  | inr e1 ↦ elim (Bool-cases (c == b'\\')) [
    | inl e ↦ inl (b'\\', rw (e1, e) refl, ground arith)
    | inr e2 ↦ elim (Bool-cases (c == b'\n')) [
      | inl e ↦ inl (b'n', rw (e1, e2, e) refl, ground arith)
      | inr e3 ↦ elim (Bool-cases (c == b'\r')) [
        | inl e ↦ inl (b'r', rw (e1, e2, e3, e) refl, ground arith)
        | inr e4 ↦ elim (Bool-cases (c == b'\t')) [
          | inl e ↦ inl (b't', rw (e1, e2, e3, e4, e) refl, ground arith)
          | inr e5 ↦
              let printable : ltb c 32 ≡ false = ground arith in
              inr (rw (e1, e2, e3, e4, e5, printable) refl, e1, e2)
        ]
      ]
    ]
  ]
]

read_string_plain :
    (c : ℕ) (t : Text)
    → (c == b'"') ≡ false
    → (c == b'\\') ≡ false
    → read_string (c ∷ t) ≡ c ∷ read_string t
unfolding read_string
read_string_plain c [] h k = rw h refl
read_string_plain c (n ∷ t) h k = rw (h, k) refl

read_string_end : (rest : Text) → read_string (b'"' ∷ rest) ≡ []
unfolding read_string
read_string_end [] = refl
read_string_end (n ∷ rest) = refl

read_string-json_escape :
    (s rest : Text) → all is_clean s ≡ true → read_string (json_escape s ++ b'"' ∷ rest) ≡ s
unfolding json_escape read_string
read_string-json_escape [] rest h = read_string_end rest
read_string-json_escape (c ∷ s) rest h =
    let (clean, others) = (&&_iff (is_clean c) (all is_clean s)).0 h in
    let ih = read_string-json_escape s rest others in
    elim (clean-Escapes c clean) [
      | inl (k, e, u) ↦ rw (e, escape_byte) (rw (u, ih) refl)
      | inr (e, q, b) ↦
          rw (e, escape_byte)
            (read_string_plain c (json_escape s ++ b'"' ∷ rest) q b ∙ ap (◌∷◌ c) ih)
    ]

strip-append : (pat t : Text) → strip pat (pat ++ t) ≡ some t
strip-append [] t = refl
strip-append (a ∷ pat) t = rw (==_refl a) (strip-append pat t)

-- `t` starts with `pat`.
abbrev pub StartsWith : Text → Text → Type 0
StartsWith pat t = (s : Text) × (t ≡ pat ++ s)

strip-StartsWith : (pat t s : Text) → strip pat t ≡ some s → t ≡ pat ++ s
strip-StartsWith [] t s h = cc (h)
strip-StartsWith (a ∷ pat) [] s h = cc (h)
strip-StartsWith (a ∷ pat) (b ∷ t) s h = elim (Bool-cases (a == b)) [
  | inl e ↦ cc ((==_iff a b).0 e, strip-StartsWith pat t s (rw e at h))
  | inr e ↦ cc (rw e at h)
]

-- `pat` does not start inside `before`, which `t` follows: it is nowhere in front of `t`.
abbrev pub StartsNowhere : Text → Text → Text → Type 0
StartsNowhere pat [] t = Unit
StartsNowhere pat (b ∷ before) t =
    (¬ StartsWith pat (b ∷ (before ++ t))) × StartsNowhere pat before t

strip-none : (pat t : Text) → strip pat t ≡ none → ¬ StartsWith pat t
strip-none pat t h (s, e) = cc (h, ap (strip pat) e, strip-append pat s)

abbrev is_none : Option Text → Bool
is_none none = true
is_none (some t) = false

abbrev pub is_nowhere : Text → Text → Text → Bool
is_nowhere pat [] t = true
is_nowhere pat (b ∷ before) t = is_none (strip pat (b ∷ (before ++ t))) && is_nowhere pat before t

is_none-none : (o : Option Text) → is_none o ≡ true → o ≡ none
is_none-none none h = refl
is_none-none (some t) h = cc (h)

pub is_nowhere-StartsNowhere :
    (pat before t : Text) → is_nowhere pat before t ≡ true → StartsNowhere pat before t
is_nowhere-StartsNowhere pat [] t h = tt
is_nowhere-StartsNowhere pat (b ∷ before) t h =
    let (n, ns) =
      (&&_iff (is_none (strip pat (b ∷ (before ++ t)))) (is_nowhere pat before t)).0 h in
    (
      strip-none pat (b ∷ (before ++ t)) (is_none-none (strip pat (b ∷ (before ++ t))) n),
      is_nowhere-StartsNowhere pat before t ns,
    )

find_behind-append :
    (a : ℕ) (pat before t : Text)
    → StartsNowhere (a ∷ pat) before (a ∷ (pat ++ t))
    → find_behind (a ∷ pat) (before ++ a ∷ (pat ++ t)) ≡ some t
unfolding find_behind
find_behind-append a pat [] t n = rw (strip-append (a ∷ pat) t, or_else) refl
find_behind-append a pat (b ∷ before) t (absent, n) =
    elim (Option-cases (strip (a ∷ pat) (b ∷ (before ++ a ∷ (pat ++ t))))) [
      | inl e ↦ rw e (find_behind-append a pat before t n)
      | inr (s, e) ↦ absurd (absent (s, strip-StartsWith (a ∷ pat) _ s e))
    ]

-- A field that is written with `jsonEscape` is read back by `jsonStringField`, whatever stands before
-- and behind it in the object's text, where its key, between quotation marks and with the colon, does
-- not stand earlier in the text and the field has no control byte but line breaks, returns and tabs.
pub json_string_field-json_escape :
    (before key s rest : Text)
    → StartsNowhere
        (key_pattern key)
        before
        (key_pattern key ++ b' ' ∷ b'"' ∷ (json_escape s ++ b'"' ∷ rest))
    → all is_clean s ≡ true
    → json_string_field
        (before ++ (key_pattern key ++ b' ' ∷ b'"' ∷ (json_escape s ++ b'"' ∷ rest)))
        key
      ≡ some s
unfolding json_string_field
json_string_field-json_escape before key s rest n h =
    ap value_behind (find_behind-append b'"' (key ++ codes "\":") before _ n)
    ∙ ap some (read_string-json_escape s rest h)

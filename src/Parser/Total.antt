-- ===== src/Parser/Total.antt =====
-- The expression parser returns on every input: the measure and the loops.
pub mod Levels
pub mod Postfix
pub mod Primary
pub mod Forms
pub mod Typed
pub mod Expr
use oxide_lang_reupload.Prelude.{
  ℕ, zero, suc, ◌+◌, ◌≤◌, ◌<◌, Text, length, List, [], ◌∷◌, Option, none, some, Option-cases, Bool,
  true, false, ◌==◌, if◌then◌else◌, Bool-cases, ◌≡◌, refl, sym, ◌∙◌, ap, subst, inl, inr, arith,
}
use oxide_lang_reupload.Lexer.Token.{Tok, Token}
use oxide_lang_reupload.Parser.State.{
  State, cur, advance, at, error, accept, expect, tok_index, other_tokens,
}
use oxide_lang_reupload.Parser.Node.{Node}
use oxide_lang_reupload.Parser.Levels.{
  Result, Parse, Infixes, then_parse, left_turn, left_loop, left_assoc, no_fuel,
}

-- The tokens that are left.
abbrev pub size : State → ℕ
size st = length st.toks

-- The parser returns, with at most `m` tokens left.
abbrev pub Returns : Result → ℕ → Type 0
Returns r m = (e : Node) × (st : State) × (r ≡ some (e, st)) × (size st ≤ m)

-- It does so from every state with fewer tokens than `n`, and leaves no more than there were.
abbrev pub IsTotal : Parse → ℕ → Type 0
IsTotal p n = (st : State) → size st < n → Returns (p st) (size st)

pub returned : (e : Node) (st : State) (m : ℕ) → size st ≤ m → Returns (some (e, st)) m
returned e st m l = (e, st, refl, l)

pub then-Returns :
    (r : Result) (k : Node → State → Result) (m m' : ℕ)
    → Returns r m
    → ((e : Node) (st : State) → size st ≤ m → Returns (k e st) m')
    → Returns (then_parse r k) m'
then-Returns r k m m' (e, st, h, l) f = subst (λ z. Returns (then_parse z k) m') (sym h) (f e st l)

pub Returns_le : (r : Result) (m m' : ℕ) → m ≤ m' → Returns r m → Returns r m'
Returns_le r m m' le (e, st, h, l) = (e, st, h, omega arith)

pub if-Returns :
    (b : Bool) (x y : Result) (m : ℕ)
    → (b ≡ true → Returns x m)
    → (b ≡ false → Returns y m)
    → Returns (if b then x else y) m
if-Returns true x y m f g = f refl
if-Returns false x y m f g = g refl

pub advance_le : (st : State) → size (advance st) ≤ size st
unfolding advance
advance_le st = rest_le st.toks
  where
    rest_le : (ts : List Token) → length (other_tokens ts) ≤ length ts
    rest_le [] = omega arith
    rest_le (t ∷ ts) = omega arith

-- A token that is not the end is there to be passed over.
pub at-advance :
    (k : Tok) (st : State)
    → (0 == tok_index k) ≡ false
    → at k st ≡ true
    → suc (size (advance st)) ≤ size st
unfolding advance at cur
at-advance k st n h = go st.toks h
  where
    go :
        (ts : List Token)
        → (tok_index (oxide_lang_reupload.Parser.State.first_token ts).kind == tok_index k) ≡ true
        → suc (length (other_tokens ts)) ≤ length ts
    go [] h = ground (arith, n)
    go (t ∷ ts) h = omega arith

pub expect_le : (k : Tok) (what : Text) (st : State) → size (expect k what st).1 ≤ size st
unfolding expect error
expect_le k what st = elim (Bool-cases (at k st)) [
  | inl h ↦ rw h (advance_le st)
  | inr h ↦ rw h (omega arith)
]

-- Likewise a token that a table has an entry for.
pub op-advance {ℓ} :
    {A : Type ℓ} (ops : Tok → Option A) (st : State) (join : A)
    → ops Tok.end ≡ none
    → ops (cur st).kind ≡ some join
    → suc (size (advance st)) ≤ size st
unfolding advance cur
op-advance ops st join o h = go st.toks h
  where
    go :
        (ts : List Token)
        → ops (oxide_lang_reupload.Parser.State.first_token ts).kind ≡ some join
        → suc (length (other_tokens ts)) ≤ length ts
    go [] h = ground (arith, sym o ∙ h)
    go (t ∷ ts) h = omega arith

pub left_loop-Returns :
    (ops : Infixes) (next : Parse) (n : ℕ)
    → ops Tok.end ≡ none
    → IsTotal next n
    → (k : ℕ) (lhs : Node) (st : State) → size st ≤ k
    → size st ≤ n
    → Returns (left_loop ops next k lhs st) (size st)
unfolding left_loop
left_loop-Returns ops next n o p zero lhs st l m = elim (Option-cases (ops (cur st).kind)) [
  | inl h ↦ rw h (returned lhs st (size st) (omega arith))
  | inr (join, h) ↦ absurd (omega (arith, op-advance ops st join o h))
]
left_loop-Returns ops next n o p (suc k) lhs st l m = elim (Option-cases (ops (cur st).kind)) [
  | inl h ↦ rw h (returned lhs st (size st) (omega arith))
  | inr (join, h) ↦
      let less = op-advance ops st join o h in
      rw h (
        then-Returns (next (advance st)) (λ rhs st'. left_loop ops next k (join lhs rhs) st')
          (size (advance st)) (size st) (p (advance st) (omega (arith, less)))
          (λ rhs st' l'.
            Returns_le (left_loop ops next k (join lhs rhs) st') (size st') (size st)
              (omega (arith, less))
              (left_loop-Returns ops next n o p k (join lhs rhs) st' (omega (arith, less))
                (omega (arith, less)))))
]

pub left_assoc-IsTotal :
    (ops : Infixes) (next : Parse) (n : ℕ)
    → ops Tok.end ≡ none
    → IsTotal next (suc n)
    → IsTotal (left_assoc ops next (suc n)) (suc n)
left_assoc-IsTotal ops next n o p st l =
    then-Returns (next st) (left_loop ops next (suc n)) (size st) (size st) (p st l) (λ e st' l'.
      Returns_le (left_loop ops next (suc n) e st') (size st') (size st) l'
        (left_loop-Returns ops next (suc n) o p (suc n) e st' (omega arith) (omega arith)))

-- ===== src/Splitter/Ranges.antt =====
-- The tests and bounds of src/ProofSplitter.cpp on a quantifier, against their meaning.
use oxide_lang_reupload.Prelude.{
  ℕ, zero, suc, ◌^◌, Bool, true, false, not, ◌&&◌, ◌||◌, &&_iff, ◌≡◌, refl, ap, sym, ◌∙◌, ◌↔◌, inl,
  inr, List, [], ◌∷◌, ◌++◌, All, arith, Bool-cases, Option, some, ltb,
}
use oxide_lang_reupload.Prelude.Int.{ℤ, pos, ◌+ℤ◌}
use oxide_lang_reupload.Types.Base.{BType}
use oxide_lang_reupload.Splitter.Expr.{not_, land, lor, Expr, int_lit, unary, binary}
use oxide_lang_reupload.Splitter.Split.{
  implied_pair, literal, unrolls_type, range_of, quant_literal_range,
}
use oxide_lang_reupload.Splitter.Meaning.{
  Env, Reading, eval, truth, of_bool, all_from, past_end, IsSmall,
}
use oxide_lang_reupload.Splitter.Subst.{as_i64}

pub All-append {ℓ κ} :
    {A : Type ℓ} (P : A → Type κ) (xs ys : List A) → All P (xs ++ ys) ↔ (All P xs × All P ys)
All-append P [] ys = (λ h. (tt, h), λ h. h.1)
All-append P (x ∷ xs) ys =
    let rest = All-append P xs ys in
    (λ (h, hs). ((h, (rest.0 hs).0), (rest.0 hs).1), λ (h, k). (h.0, rest.1 (h.1, k)))

pub truth-of_bool : (b : Bool) → truth (of_bool b) ≡ b
truth-of_bool true = refl
truth-of_bool false = refl

pub all_from_both :
    (p q r : ℤ → Bool)
    → ((k : ℤ) → (r k ≡ true) ↔ ((p k ≡ true) × (q k ≡ true)))
    → (n : ℕ) (k : ℤ)
    → (all_from r n k ≡ true) ↔ ((all_from p n k ≡ true) × (all_from q n k ≡ true))
unfolding all_from
all_from_both p q r h zero k = (λ _. (refl, refl), λ _. refl)
all_from_both p q r h (suc n) k =
    let rest = all_from_both p q r h n (k +ℤ pos 1) in
    (
      λ x.
          let (now, later) = (&&_iff (r k) (all_from r n (k +ℤ pos 1))).0 x in
          let (a, b) = (h k).0 now in
          let (c, d) = rest.0 later in ((&&_iff _ _).1 (a, c), (&&_iff _ _).1 (b, d)),
      λ (x, y).
          let (a, c) = (&&_iff (p k) (all_from p n (k +ℤ pos 1))).0 x in
          let (b, d) = (&&_iff (q k) (all_from q n (k +ℤ pos 1))).0 y in
          (&&_iff _ _).1 ((h k).1 (a, b), rest.1 (c, d)),
    )

-- `!a || (c && d)`, as it is evaluated.
pub implied_both :
    (a c d : Bool)
    → (truth (of_bool (truth (of_bool (not a)) || truth (of_bool (c && d)))) ≡ true) ↔ (
        (truth (of_bool (truth (of_bool (not a)) || c)) ≡ true)
        × (truth (of_bool (truth (of_bool (not a)) || d)) ≡ true))
implied_both true true true = ground arith
implied_both true true false = ground arith
implied_both true false true = ground arith
implied_both true false false = ground arith
implied_both false true true = ground arith
implied_both false true false = ground arith
implied_both false false true = ground arith
implied_both false false false = ground arith

pub implied_pair-is :
    (body : Expr) {a c d : Expr}
    → implied_pair body ≡ some (a, c, d)
    → body ≡ binary lor (unary not_ a) (binary land c d)
implied_pair-is (binary lor (unary not_ a) (binary land c d)) h = cc
implied_pair-is _ h = absurd (ground arith)

-- Bounds that are found are those of the range.
pub record Found (R : Reading) (all : Bool) (lo hi : Expr) (inc : Bool) (x y : ℤ) : Type 0 where
  pub is_all : all ≡ true
  pub from : ℕ
  pub from_is : x ≡ pos from
  pub low : (env : Env) → eval R lo env ≡ x
  pub high : (env : Env) → past_end inc (eval R hi env) ≡ y

as_i64-small : (v : ℕ) → IsSmall (int_lit v) → as_i64 v ≡ pos v
as_i64-small v h = let below : ltb v (2 ^ 63) ≡ true = ground arith in rw below refl

pair_eq : {x y u v : ℤ} → ◌≡◌ {A = Option (ℤ × ℤ)} (some (x, y)) (some (u, v)) → (x ≡ u) × (y ≡ v)
pair_eq h = (cc, cc)

pub all_from_none : (p : ℤ → Bool) (k : ℤ) → all_from p 0 k ≡ true
unfolding all_from
all_from_none p k = refl

range_of-Found :
    (R : Reading) (lo hi : Expr) (inc : Bool) {x y : ℤ}
    → IsSmall lo
    → IsSmall hi
    → range_of (literal lo) (literal hi) inc ≡ some (x, y)
    → Found R true lo hi inc x y
unfolding eval
range_of-Found R (int_lit v) (int_lit w) inc sl sh h =
    let (low, high) = pair_eq h in
    record {
      is_all = refl;
      from = v;
      from_is = sym low ∙ as_i64-small v sl;
      low = λ env. sym (as_i64-small v sl) ∙ low;
      high = λ env. ap (past_end inc) (sym (as_i64-small w sh)) ∙ high;
    }
range_of-Found R (int_lit v) _ inc sl sh h = absurd (ground arith)
range_of-Found R _ hi inc sl sh h = absurd (ground arith)

pub quant_literal_range-Found :
    (R : Reading) (all : Bool) (ty : BType) (lo hi : Expr) (inc : Bool) {x y : ℤ}
    → IsSmall lo
    → IsSmall hi
    → quant_literal_range all ty lo hi inc ≡ some (x, y)
    → Found R all lo hi inc x y
quant_literal_range-Found R false ty lo hi inc sl sh h = absurd (ground arith)
quant_literal_range-Found R true ty lo hi inc sl sh h = elim (Bool-cases (unrolls_type ty)) [
  | inl is ↦ range_of-Found R lo hi inc sl sh (rw is at h)
  | inr other ↦ cc (rw other at h)
]

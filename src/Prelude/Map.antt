-- ===== src/Prelude/Map.antt =====
-- `std::map<std::string, V>`: a list of entries in the order of the keys.
use mathlib.Core.Path.{◌≡◌, refl}
use mathlib.Core.Logic.{inl, inr}
use mathlib.Core.Bool.{true}
use mathlib.Core.Option.{Option, none, some}
use mathlib.Core.List.{List, [], ◌∷◌}
use native.Mathlib.Omega.{arith}
use oxide_lang_reupload.Prelude.Tests.{if◌then◌else◌, Bool-cases}
use oxide_lang_reupload.Prelude.Strings.{
  Text, text_eq, text_eq_iff, text_lt, text_lt_trans, text_lt_total,
}

abbrev pub Map {ℓ} : Type ℓ → Type ℓ
Map V = List (Text × V)

module _ {ℓ} {V : Type ℓ} where
  -- `m.find(k)`, with `none` for `m.end()`.
  unfoldable pub find : Text → Map V → Option V
  find k [] = none
  find k ((j, v) ∷ m) = if text_eq j k then some v else find k m

  -- `m[k] = v`.
  unfoldable pub assign : Text → V → Map V → Map V
  assign k v [] = (k, v) ∷ []
  assign k v ((j, w) ∷ m) =
      if text_eq j k
      then (j, v) ∷ m
      else if text_lt k j
      then (k, v) ∷ (j, w) ∷ m
      else (j, w) ∷ assign k v m

  pub find-assign :
      (k j : Text) (v : V) (m : Map V)
      → find j (assign k v m) ≡ (if text_eq k j then some v else find j m)
  unfolding find assign
  find-assign k j v [] = refl
  find-assign k j v ((i, w) ∷ m) =
      ground (arith, text_eq_iff k j, text_eq_iff i k, text_eq_iff i j, find-assign k j v m)

  -- Every key of `m` is above `k`.
  abbrev pub Above : Text → Map V → Type 0
  Above k [] = Unit
  Above k ((j, v) ∷ m) = (text_lt k j ≡ true) × Above k m

  abbrev pub IsSorted : Map V → Type 0
  IsSorted [] = Unit
  IsSorted ((j, v) ∷ m) = Above j m × IsSorted m

  pub Above-find :
      (k j : Text) (m : Map V) {v : V} → Above k m → find j m ≡ some v → text_lt k j ≡ true
  unfolding find
  Above-find k j [] a h = ground arith
  Above-find k j ((i, w) ∷ m) (l, a) h = elim (Bool-cases (text_eq i j)) [
    | inl e ↦ rw (← (text_eq_iff i j).0 e) l
    | inr n ↦ Above-find k j m a (rw n at h)
  ]

  Above-trans : (i j : Text) (m : Map V) → text_lt i j ≡ true → Above j m → Above i m
  Above-trans i j [] h a = tt
  Above-trans i j ((k, v) ∷ m) h (l, a) = (text_lt_trans i j k h l, Above-trans i j m h a)

  assign-Above :
      (i k : Text) (v : V) (m : Map V) → text_lt i k ≡ true → Above i m → Above i (assign k v m)
  unfolding assign
  assign-Above i k v [] h a = (h, tt)
  assign-Above i k v ((j, w) ∷ m) h (l, a) = elim (Bool-cases (text_eq j k)) [
    | inl e ↦ rw e (l, a)
    | inr n ↦ elim (Bool-cases (text_lt k j)) [
      | inl b ↦ rw (n, b) (h, (l, a))
      | inr c ↦ rw (n, c) (l, assign-Above i k v m h a)
    ]
  ]

  -- The entries stay in the order of their keys.
  pub assign-IsSorted : (k : Text) (v : V) (m : Map V) → IsSorted m → IsSorted (assign k v m)
  unfolding assign
  assign-IsSorted k v [] s = (tt, tt)
  assign-IsSorted k v ((j, w) ∷ m) (a, s) = elim (Bool-cases (text_eq j k)) [
    | inl e ↦ rw e (a, s)
    | inr n ↦ elim (Bool-cases (text_lt k j)) [
      | inl b ↦ rw (n, b) ((b, Above-trans k j m b a), (a, s))
      | inr c ↦ rw (n, c) (assign-Above j k v m (text_lt_total k j n c) a, assign-IsSorted k v m s)
    ]
  ]

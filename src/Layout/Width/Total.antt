-- ===== src/Layout/Width/Total.antt =====
-- The fuel of `fieldByteWidth` and `fieldAlign` of src/Types.cpp.
use oxide_lang_reupload.Prelude.{
  ℕ, zero, suc, ◌≤◌, ◌<◌, ◌≡◌, refl, inl, inr, false, List, some, arith, get_elem?, Bool-cases,
  Option-cases,
}
use oxide_lang_reupload.Prelude.Int.{ℤ, pos, negsuc, ◌*ℤ◌}
use oxide_lang_reupload.Types.Base.{BType, array, i64, plain}
use oxide_lang_reupload.Types.Equality.{tag_eq_sound}
use oxide_lang_reupload.Types.Tables.{Tables, array_elem, entry_or, or_default, has_tag}
use oxide_lang_reupload.Types.Registry.{Registry}
use oxide_lang_reupload.Layout.Width.{field_byte_width, field_align, flat_width, flat_align}

-- A bound on the arrays nested in `t`: one that is no array has bound 0, and an array has a larger
-- bound than the position of its element.
abbrev pub Behind : ℕ → BType → Type 0
Behind n t = t.tag ≡ array → (0 < n) × ((m : ℕ) → t.elem ≡ pos m → suc m < n)

-- Each array in the table stands behind its element.
abbrev pub Ranked : List BType → Type 0
Ranked types = (i : ℕ) (y : BType) → get_elem? types i ≡ some y → Behind (suc i) y

pub Behind-mono : (m n : ℕ) (t : BType) → m ≤ n → Behind m t → Behind n t
Behind-mono m n t le b g =
    let (first, rest) = b g in (omega arith, λ k e. let h : suc k < m = rest k e in omega arith)

fallback_Behind : (n : ℕ) → Behind n (plain i64)
fallback_Behind n g = cc

entry_Behind :
    (types : List BType) (z : ℤ) (n : ℕ)
    → Ranked types
    → ((m : ℕ) → z ≡ pos m → suc m < suc n)
    → Behind n (entry_or (plain i64) types z)
entry_Behind types (negsuc k) n ranked below = fallback_Behind n
entry_Behind types (pos k) n ranked below = elim (Option-cases (get_elem? types k)) [
  | inl e ↦ rw (e, or_default) (fallback_Behind n)
  | inr (y, e) ↦
      let h : suc k < suc n = below k refl in
      rw (e, or_default) (Behind-mono (suc k) n y (omega arith) (ranked k y e))
]

-- The element of an array has a smaller bound.
element_Behind :
    (s : Tables) (t : BType) (n : ℕ) → Ranked s.types → Behind (suc n) t → Behind n (array_elem s t)
unfolding array_elem
element_Behind s t n ranked b = elim (Bool-cases (has_tag t array)) [
  | inl is ↦ rw is (entry_Behind s.types t.elem n ranked (b (tag_eq_sound t.tag array is)).1)
  | inr other ↦ rw other (fallback_Behind n)
]

no_array_at_zero : (t : BType) → Behind 0 t → has_tag t array ≡ false
no_array_at_zero t b = elim (Bool-cases (has_tag t array)) [
  | inl is ↦ let h : 0 < 0 = (b (tag_eq_sound t.tag array is)).0 in absurd (omega arith)
  | inr other ↦ other
]

-- Fuel above the bound is enough, for both functions.
pub width_total :
    (fuel : ℕ) (s : Tables) (r : Registry) (t : BType) (n : ℕ)
    → Ranked s.types
    → Behind n t
    → n < fuel
    → (w : ℤ) × (field_byte_width fuel s r t ≡ some w)
unfolding field_byte_width
width_total zero s r t n ranked b h = absurd (omega arith)
width_total (suc fuel) s r t zero ranked b h = rw (no_array_at_zero t b) (flat_width r t, refl)
width_total (suc fuel) s r t (suc n) ranked b h =
    let (w, e) =
      width_total fuel s r (array_elem s t) n ranked (element_Behind s t n ranked b)
        (omega arith) in
    elim (Bool-cases (has_tag t array)) [
      | inl is ↦ rw is (t.count *ℤ w, rw e)
      | inr other ↦ rw other (flat_width r t, refl)
    ]

pub align_total :
    (fuel : ℕ) (s : Tables) (r : Registry) (t : BType) (n : ℕ)
    → Ranked s.types
    → Behind n t
    → n < fuel
    → (a : ℕ) × (field_align fuel s r t ≡ some a)
unfolding field_align
align_total zero s r t n ranked b h = absurd (omega arith)
align_total (suc fuel) s r t zero ranked b h = rw (no_array_at_zero t b) (flat_align r t, refl)
align_total (suc fuel) s r t (suc n) ranked b h =
    let (a, e) =
      align_total fuel s r (array_elem s t) n ranked (element_Behind s t n ranked b)
        (omega arith) in
    elim (Bool-cases (has_tag t array)) [
      | inl is ↦ rw is (a, e)
      | inr other ↦ rw other (flat_align r t, refl)
    ]

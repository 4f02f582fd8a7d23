-- ===== src/Types/Equality.antt =====
-- What `BType::operator==` of src/AST.h decides.
use oxide_lang_reupload.Prelude.{
  text_eq, text_eq_iff, ◌≡◌, refl, sym, ◌∙◌, Bool, true, false, ◌&&◌, &&_iff, List, [], ◌∷◌, arith,
}
use oxide_lang_reupload.Prelude.Int.{eqb_ℤ, eqb_ℤ_iff}
use oxide_lang_reupload.Types.Base.{Tag, BType, tag_eq, tag_index-injective, btype_eq}

-- The four fields that `operator==` compares.
pub record SameType (a b : BType) : Type 0 where
  pub same_tag : a.tag ≡ b.tag
  pub same_count : a.count ≡ b.count
  pub same_elem : a.elem ≡ b.elem
  pub same_name : a.struct_name ≡ b.struct_name

pub tag_eq_sound : (a b : Tag) → tag_eq a b ≡ true → a ≡ b
tag_eq_sound a b h = tag_index-injective a b (ground arith)

tag_eq_refl : (a : Tag) → tag_eq a a ≡ true
tag_eq_refl a = ground arith

pub btype_eq_refl : (a : BType) → btype_eq a a ≡ true
unfolding btype_eq
btype_eq_refl a = ground (
  arith,
  tag_eq_refl a.tag,
  (eqb_ℤ_iff a.count a.count).1 refl,
  (eqb_ℤ_iff a.elem a.elem).1 refl,
  (text_eq_iff a.struct_name a.struct_name).1 refl,
)

-- The numeric part of the comparison.
abbrev front : BType → BType → Bool
front a b = tag_eq a.tag b.tag && eqb_ℤ a.count b.count && eqb_ℤ a.elem b.elem

pub btype_eq→SameType : (a b : BType) → btype_eq a b ≡ true → SameType a b
unfolding btype_eq
btype_eq→SameType a b h =
    let last = (&&_iff (front a b) (text_eq a.struct_name b.struct_name)).0 h in
    let third = (&&_iff _ (eqb_ℤ a.elem b.elem)).0 last.0 in
    let second = (&&_iff (tag_eq a.tag b.tag) (eqb_ℤ a.count b.count)).0 third.0 in
    record {
      same_tag = tag_eq_sound a.tag b.tag second.0;
      same_count = (eqb_ℤ_iff a.count b.count).0 second.1;
      same_elem = (eqb_ℤ_iff a.elem b.elem).0 third.1;
      same_name = (text_eq_iff a.struct_name b.struct_name).0 last.1;
    }

pub SameType→btype_eq : (a b : BType) → SameType a b → btype_eq a b ≡ true
unfolding btype_eq
SameType→btype_eq a b s =
    rw (s.same_tag, s.same_count, s.same_elem, s.same_name)
      (ground (
        arith,
        tag_eq_refl b.tag,
        (eqb_ℤ_iff b.count b.count).1 refl,
        (eqb_ℤ_iff b.elem b.elem).1 refl,
        (text_eq_iff b.struct_name b.struct_name).1 refl,
      ))

pub btype_eq_sym : (a b : BType) → btype_eq a b ≡ true → btype_eq b a ≡ true
btype_eq_sym a b h =
    let s = btype_eq→SameType a b h in
    SameType→btype_eq b a (record {
      same_tag = sym s.same_tag;
      same_count = sym s.same_count;
      same_elem = sym s.same_elem;
      same_name = sym s.same_name;
    })

pub btype_eq_trans :
    (a b c : BType) → btype_eq a b ≡ true → btype_eq b c ≡ true → btype_eq a c ≡ true
btype_eq_trans a b c h k =
    let s = btype_eq→SameType a b h in
    let t = btype_eq→SameType b c k in
    SameType→btype_eq a c (record {
      same_tag = s.same_tag ∙ t.same_tag;
      same_count = s.same_count ∙ t.same_count;
      same_elem = s.same_elem ∙ t.same_elem;
      same_name = s.same_name ∙ t.same_name;
    })

-- `std::vector<BType>::operator==`.
unfoldable pub btypes_eq : List BType → List BType → Bool
btypes_eq [] [] = true
btypes_eq (a ∷ as') (b ∷ bs) = btype_eq a b && btypes_eq as' bs
btypes_eq _ _ = false

pub btypes_eq_refl : (ts : List BType) → btypes_eq ts ts ≡ true
unfolding btypes_eq
btypes_eq_refl [] = refl
btypes_eq_refl (t ∷ ts) = ground (arith, btype_eq_refl t, btypes_eq_refl ts)

-- Equal types pass the same comparisons.
pub btype_eq_test : (a b : BType) → btype_eq a b ≡ true → (y : BType) → btype_eq y a ≡ btype_eq y b
btype_eq_test a b h y =
    ground (arith, btype_eq_trans y a b, btype_eq_trans y b a, btype_eq_sym a b h)

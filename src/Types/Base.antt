-- ===== src/Types/Base.antt =====
-- src/AST.h, `struct BType`, and the tests on a type's tag in src/Types.cpp.
use oxide_lang_reupload.Prelude.{
  ℕ, Text, text_eq, [], ◌≡◌, refl, sym, ap, ◌∙◌, Bool, true, false, ◌&&◌, ◌||◌, ◌==◌, if◌then◌else◌,
}
use oxide_lang_reupload.Prelude.Int.{ℤ, pos, eqb_ℤ}

pub data Tag : Type 0 where
  i64 f64 bool_ void_ str array struct_ dynarray char_ ptr : Tag
  i8 i16 i32 u8 u16 u32 u64 usize enum_ f32 map_ set_ hmap_ hset_ fn_ generic_ channel_ : Tag

-- The value of the enumerator.
abbrev pub tag_index : Tag → ℕ
tag_index i64 = 0
tag_index f64 = 1
tag_index bool_ = 2
tag_index void_ = 3
tag_index str = 4
tag_index array = 5
tag_index struct_ = 6
tag_index dynarray = 7
tag_index char_ = 8
tag_index ptr = 9
tag_index i8 = 10
tag_index i16 = 11
tag_index i32 = 12
tag_index u8 = 13
tag_index u16 = 14
tag_index u32 = 15
tag_index u64 = 16
tag_index usize = 17
tag_index enum_ = 18
tag_index f32 = 19
tag_index map_ = 20
tag_index set_ = 21
tag_index hmap_ = 22
tag_index hset_ = 23
tag_index fn_ = 24
tag_index generic_ = 25
tag_index channel_ = 26

abbrev pub tag_eq : Tag → Tag → Bool
tag_eq a b = tag_index a == tag_index b

-- `count` and `elem` are `int32_t`: the source stores table positions and array lengths there.
pub record BType : Type 0 where
  pub tag : Tag
  pub count : ℤ
  pub elem : ℤ
  pub struct_name : Text
  pub has_range : Bool
  pub range_lo : ℤ
  pub range_hi : ℤ
  pub range_type_name : Text

-- `BType t; t.tag = tag;`, every other field at its default.
abbrev pub plain : Tag → BType
plain t = record {
  tag = t;
  count = pos 0;
  elem = pos 0;
  struct_name = [];
  has_range = false;
  range_lo = pos 0;
  range_hi = pos 0;
  range_type_name = [];
}

-- `BType::operator==`: the range fields do not take part.
unfoldable pub btype_eq : BType → BType → Bool
btype_eq a b =
    tag_eq a.tag b.tag
    && eqb_ℤ a.count b.count
    && eqb_ℤ a.elem b.elem
    && text_eq a.struct_name b.struct_name

abbrev pub is_int_tag : Tag → Bool
is_int_tag i8 = true
is_int_tag i16 = true
is_int_tag i32 = true
is_int_tag i64 = true
is_int_tag u8 = true
is_int_tag u16 = true
is_int_tag u32 = true
is_int_tag u64 = true
is_int_tag usize = true
is_int_tag char_ = true
is_int_tag enum_ = true
is_int_tag _ = false

unfoldable pub is_int : BType → Bool
is_int t = is_int_tag t.tag

unfoldable pub is_float : BType → Bool
is_float t = tag_eq t.tag f64 || tag_eq t.tag f32

unfoldable pub is_numeric : BType → Bool
unfolding is_int is_float
is_numeric t = is_int t || is_float t

unfoldable pub is_scalar : BType → Bool
unfolding is_int is_float
is_scalar t =
    is_int t
    || is_float t
    || tag_eq t.tag bool_
    || tag_eq t.tag str
    || tag_eq t.tag ptr
    || tag_eq t.tag fn_

abbrev pub is_signed_int_tag : Tag → Bool
is_signed_int_tag i8 = true
is_signed_int_tag i16 = true
is_signed_int_tag i32 = true
is_signed_int_tag i64 = true
is_signed_int_tag char_ = true
is_signed_int_tag enum_ = true
is_signed_int_tag _ = false

unfoldable pub is_signed_int : BType → Bool
is_signed_int t = is_signed_int_tag t.tag

abbrev pub bit_width_tag : Tag → ℕ
bit_width_tag i8 = 8
bit_width_tag u8 = 8
bit_width_tag char_ = 8
bit_width_tag i16 = 16
bit_width_tag u16 = 16
bit_width_tag i32 = 32
bit_width_tag u32 = 32
bit_width_tag i64 = 64
bit_width_tag u64 = 64
bit_width_tag usize = 64
bit_width_tag ptr = 64
bit_width_tag enum_ = 64
bit_width_tag f32 = 32
bit_width_tag bool_ = 1
bit_width_tag fn_ = 64
bit_width_tag _ = 64

unfoldable pub bit_width : BType → ℕ
bit_width t = bit_width_tag t.tag

-- The index determines the tag, so comparing indices compares tags.
tag_of_index : ℕ → Tag
tag_of_index n =
    if n == 0
    then i64
    else if n == 1
    then f64
    else if n == 2
    then bool_
    else if n == 3
    then void_
    else if n == 4
    then str
    else if n == 5
    then array
    else if n == 6
    then struct_
    else if n == 7
    then dynarray
    else if n == 8
    then char_
    else if n == 9
    then ptr
    else if n == 10
    then i8
    else if n == 11
    then i16
    else if n == 12
    then i32
    else if n == 13
    then u8
    else if n == 14
    then u16
    else if n == 15
    then u32
    else if n == 16
    then u64
    else if n == 17
    then usize
    else if n == 18
    then enum_
    else if n == 19
    then f32
    else if n == 20
    then map_
    else if n == 21
    then set_
    else if n == 22
    then hmap_
    else if n == 23
    then hset_
    else if n == 24
    then fn_
    else if n == 25
    then generic_
    else channel_

tag_of_index-tag_index : (t : Tag) → tag_of_index (tag_index t) ≡ t
unfolding tag_of_index
tag_of_index-tag_index i64 = refl
tag_of_index-tag_index _ = refl

pub tag_index-injective : (a b : Tag) → tag_index a ≡ tag_index b → a ≡ b
tag_index-injective a b h =
    sym (tag_of_index-tag_index a) ∙ ap tag_of_index h ∙ tag_of_index-tag_index b

-- ===== src/Layout/Width.antt =====
-- src/Types.cpp, `fieldByteWidth` and `fieldAlign`. The recursion goes through the type table, so it
-- takes fuel: `fuel_for` gives it.
pub mod Total
pub mod Built
pub mod Aligned
use oxide_lang_reupload.Prelude.{
  ℕ, zero, suc, ◌+◌, Bool, true, false, List, Option, none, some, length, ltb, if◌then◌else◌,
}
use mathlib.Core.Option
use oxide_lang_reupload.Prelude.Int.{ℤ, pos, pos_part, ltb_ℤ, ◌*ℤ◌}
use oxide_lang_reupload.Types.Base.{
  Tag, i64, u64, usize, f64, ptr, enum_, str, dynarray, i32, u32, f32, i16, u16, i8, u8, char_,
  bool_, fn_, channel_, array, struct_, BType,
}
use oxide_lang_reupload.Types.Tables.{Tables, array_elem, has_tag, or_default}
use oxide_lang_reupload.Types.Registry.{Registry, StructDef, find_struct}

-- The cases of both functions that look at the tag alone, but for their defaults.
abbrev pub machine_size : Tag → Option ℕ
machine_size i64 = some 8
machine_size u64 = some 8
machine_size usize = some 8
machine_size f64 = some 8
machine_size ptr = some 8
machine_size enum_ = some 8
machine_size str = some 8
machine_size dynarray = some 8
machine_size i32 = some 4
machine_size u32 = some 4
machine_size f32 = some 4
machine_size i16 = some 2
machine_size u16 = some 2
machine_size i8 = some 1
machine_size u8 = some 1
machine_size char_ = some 1
machine_size bool_ = some 1
machine_size fn_ = some 8
machine_size channel_ = some 8
machine_size _ = none

-- `d && d->size > 0 ? d->size : 0`.
abbrev pub struct_size : Option StructDef → ℤ
struct_size none = pos 0
struct_size (some d) = if ltb_ℤ (pos 0) d.size then d.size else pos 0

-- `d && d->align > 0 ? d->align : 8`.
abbrev pub struct_align : Option StructDef → ℕ
struct_align none = 8
struct_align (some d) = if ltb_ℤ (pos 0) d.align then pos_part d.align else 8

abbrev pub flat_width : Registry → BType → ℤ
flat_width r t =
    if has_tag t struct_
    then struct_size (find_struct r t.struct_name)
    else pos (or_default 0 (machine_size t.tag))

abbrev pub flat_align : Registry → BType → ℕ
flat_align r t =
    if has_tag t struct_
    then struct_align (find_struct r t.struct_name)
    else or_default 1 (machine_size t.tag)

-- `none` is fuel that ran out. The product is that of the integers: where it leaves `int32_t` the
-- source has no defined result.
unfoldable pub field_byte_width : ℕ → Tables → Registry → BType → Option ℤ
field_byte_width zero s r t = none
field_byte_width (suc fuel) s r t =
    let elements = Option.map (λ w. t.count *ℤ w) (field_byte_width fuel s r (array_elem s t)) in
    if has_tag t array then elements else some (flat_width r t)

unfoldable pub field_align : ℕ → Tables → Registry → BType → Option ℕ
field_align zero s r t = none
field_align (suc fuel) s r t =
    let element = field_align fuel s r (array_elem s t) in
    if has_tag t array then element else some (flat_align r t)

abbrev pub fuel_for : Tables → ℕ
fuel_for s = length s.types + 2

unfoldable pub byte_width : Tables → Registry → BType → ℤ
byte_width s r t = or_default (pos 0) (field_byte_width (fuel_for s) s r t)

unfoldable pub align_of : Tables → Registry → BType → ℕ
align_of s r t = or_default 1 (field_align (fuel_for s) s r t)

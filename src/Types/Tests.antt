-- ===== src/Types/Tests.antt =====
-- Runs of the type tables and registries of src/Types.cpp.
use oxide_lang_reupload.Prelude.{
  codes, text_eq, text_lt, ◌≡◌, refl, ◌↔◌, true, [], ◌∷◌, some, if◌then◌else◌, find_index,
}
use oxide_lang_reupload.Prelude.Int.{pos}
use oxide_lang_reupload.Prelude.Map.{IsSorted, find}
use oxide_lang_reupload.Types.Base.{BType, i32, f64, u8, plain, btype_eq}
use oxide_lang_reupload.Types.Equality.{SameType}
use oxide_lang_reupload.Types.Tables.{
  Tables, make_array_type, make_map_type, array_elem, map_key_type, map_val_type,
}
use oxide_lang_reupload.Types.Tables.Growth.{Reach, here, next, array}
use oxide_lang_reupload.Types.Tables.Canonical.{
  ptr, dyn_array, make, element, element-make, array_elem-make_array_type, map_types-make_map_type,
  make-injective, make_again,
}
use oxide_lang_reupload.Types.Registry.{
  Registry, EnumDef, empty_struct, register_struct, find_struct, find_enum, resolve_enum_variant,
}
use oxide_lang_reupload.Types.Tables.{or_default}
use oxide_lang_reupload.Types.Registry.Lookup.{
  find_struct-register_struct, FirstIn, resolve_enum_variant-FirstIn,
}

abbrev no_tables : Tables
no_tables = record { types = []; fn_sigs = []; generic_insts = [] }

-- `*i32` is made, then `[f64; 4]`.
abbrev with_ptr : Tables
with_ptr = (make ptr (plain i32) no_tables).0

abbrev with_array : Tables
with_array = (make_array_type (plain f64) (pos 4) with_ptr).0

abbrev ptr_then_array : Reach with_ptr with_array
ptr_then_array = next here (array (plain f64) (pos 4) with_ptr)

element-make_example :
    SameType (element ptr with_array (make ptr (plain i32) no_tables).1) (plain i32)
element-make_example = element-make ptr (plain i32) no_tables with_array ptr_then_array

array_elem-make_array_type_example :
    SameType (array_elem with_array (make_array_type (plain f64) (pos 4) with_ptr).1) (plain f64)
    × ((make_array_type (plain f64) (pos 4) with_ptr).1.count ≡ pos 4)
array_elem-make_array_type_example =
    array_elem-make_array_type (plain f64) (pos 4) with_ptr with_array here

-- A map from `u8` to `f64`, made where `f64` is in the table.
abbrev with_map : Tables
with_map = (make_map_type (plain u8) (plain f64) with_array).0

map_types-make_map_type_example :
    SameType (map_key_type with_map (make_map_type (plain u8) (plain f64) with_array).1) (plain u8)
    × SameType
        (map_val_type with_map (make_map_type (plain u8) (plain f64) with_array).1)
        (plain f64)
map_types-make_map_type_example =
    map_types-make_map_type (plain u8) (plain f64) with_array with_map here

make-injective_example :
    (btype_eq (make ptr (plain i32) no_tables).1 (make ptr (plain f64) with_array).1 ≡ true)
    ↔ (btype_eq (plain i32) (plain f64) ≡ true)
make-injective_example =
    make-injective ptr (plain i32) (plain f64) no_tables with_array ptr_then_array

-- `i32` with a range.
abbrev small : BType
small = record (plain i32) { has_range = true; range_hi = pos 9 }

small_is_i32 : btype_eq (plain i32) small ≡ true
unfolding btype_eq text_eq
small_is_i32 = refl

make_again_example :
    make dyn_array small (make dyn_array (plain i32) no_tables).0
    ≡ make dyn_array (plain i32) no_tables
make_again_example = make_again dyn_array (plain i32) small no_tables small_is_i32

abbrev colors : EnumDef
colors = record { name = codes "Color"; variants = codes "Red" ∷ codes "Blue" ∷ [] }

abbrev moods : EnumDef
moods = record { name = codes "Mood"; variants = codes "Blue" ∷ [] }

abbrev registry : Registry
registry = record {
  generic_structs = [];
  generic_fns = [];
  aliases = [];
  ranges = [];
  concepts = [];
  structs = [];
  enums = (codes "Color", colors) ∷ (codes "Mood", moods) ∷ [];
}

find_struct-register_struct_example :
    find_struct (register_struct (codes "P") registry) (codes "P") ≡ (
      if text_eq (codes "P") (codes "P")
      then some (or_default (empty_struct (codes "P")) (find_struct registry (codes "P")))
      else find_struct registry (codes "P"))
find_struct-register_struct_example = find_struct-register_struct (codes "P") (codes "P") registry

mood_found : find_enum registry (codes "Mood") ≡ some moods
unfolding find_enum find text_eq
mood_found = refl

enums-IsSorted : IsSorted registry.enums
unfolding text_lt
enums-IsSorted = ((refl, tt), (tt, tt))

resolve_enum_variant-FirstIn_example :
    FirstIn
      (codes "Blue")
      (codes "Mood")
      registry.enums
      (resolve_enum_variant registry (codes "Blue"))
resolve_enum_variant-FirstIn_example =
    resolve_enum_variant-FirstIn registry (codes "Blue") (codes "Mood") 0 enums-IsSorted mood_found
      refl

-- The variant of the smaller name is the one resolved.
blue_is_a_color : resolve_enum_variant registry (codes "Blue") ≡ (some colors, pos 1)
unfolding resolve_enum_variant find_index text_eq
blue_is_a_color = refl

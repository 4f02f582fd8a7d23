-- ===== src/Layout/Tests.antt =====
-- Runs of the layout passes of src/Types.cpp and src/Sema.cpp.
use oxide_lang_reupload.Prelude.{
  ℕ, Text, codes, ◌%◌, ◌≡◌, refl, ◌↔◌, false, List, [], ◌∷◌, ◌++◌, some, map, arith, All,
  if◌then◌else◌, Bool-cases, inl, inr,
}
use oxide_lang_reupload.Prelude.Int.{ℤ, pos}
use oxide_lang_reupload.Prelude.Map.{find}
use oxide_lang_reupload.Types.Base.{BType, u8, i64, ptr, plain}
use oxide_lang_reupload.Types.Tables.{Tables, make_array_type, has_tag}
use oxide_lang_reupload.Types.Registry.{Registry, StructField, StructDef, empty_struct, find_struct}
use oxide_lang_reupload.Layout.Width.{field_byte_width, field_align, fuel_for, align_of}
use oxide_lang_reupload.Layout.Width.Built.{
  Built, start, other, array_of, empty_tables, sizes_total,
}
use oxide_lang_reupload.Layout.Width.Aligned.{AlignsStructs, align_of-IsAlign}
use oxide_lang_reupload.Layout.Structs.{lay_out, lay_out_virtual, splice_base}
use oxide_lang_reupload.Layout.Structs.Aligned.{
  IsAlign, one, eight, IsLaidOut, unplaced, lay_out-IsLaidOut, lay_out_virtual-IsLaidOut,
}
use oxide_lang_reupload.Layout.Structs.Spliced.{IsAlignedField, splice_base-IsAlignedField}

-- `u8`, then `[u8; 3]`.
abbrev bytes : Tables × BType
bytes = make_array_type (plain u8) (pos 3) empty_tables

bytes_Built : Built bytes.0 (bytes.1 ∷ plain u8 ∷ [])
bytes_Built = array_of 0 (plain u8) (pos 3) refl (other (plain u8) (cc) start)

abbrev registry : Registry
registry = record {
  generic_structs = [];
  generic_fns = [];
  aliases = [];
  ranges = [];
  concepts = [];
  structs = [];
  enums = [];
}

sizes_total_example :
    ((w : ℤ) × (field_byte_width (fuel_for bytes.0) bytes.0 registry bytes.1 ≡ some w))
    × ((a : ℕ) × (field_align (fuel_for bytes.0) bytes.0 registry bytes.1 ≡ some a))
sizes_total_example = sizes_total 0 bytes.1 registry bytes_Built refl

no_structs : AlignsStructs registry
unfolding find_struct find
no_structs name d h = absurd (ground arith)

align_of-IsAlign_example : IsAlign (align_of bytes.0 registry bytes.1)
align_of-IsAlign_example = align_of-IsAlign bytes.0 registry bytes.1 no_structs

-- A byte and a word.
abbrev wide : BType → ℕ
wide t = if has_tag t u8 then 1 else 8

wide_IsAlign : (t : BType) → IsAlign (wide t)
wide_IsAlign t = elim (Bool-cases (has_tag t u8)) [ inl e ↦ rw e one | inr e ↦ rw e eight ]

abbrev field : Text → BType → ℤ → StructField
field name type at = record { name = name; type = type; offset = at; is_private = false }

-- `struct Pair { a: u8, b: i64 }`.
abbrev pair : StructDef
pair = record (empty_struct (codes "Pair")) {
  fields = field (codes "a") (plain u8) (pos 0) ∷ field (codes "b") (plain i64) (pos 0) ∷ [];
}

lay_out-IsLaidOut_example :
    let laid = lay_out (λ t. pos (wide t)) wide pair in
    IsLaidOut wide wide 0 laid.fields laid × (map unplaced laid.fields ≡ map unplaced pair.fields)
lay_out-IsLaidOut_example = lay_out-IsLaidOut wide wide wide_IsAlign pair

-- A base of 9 bytes: its size is no multiple of 8.
abbrev base : StructDef
base = record (empty_struct (codes "Base")) {
  fields = field (codes "v") (plain ptr) (pos 0) ∷ [];
  size = pos 9;
  align = pos 8;
}

lay_out_virtual-IsLaidOut_example :
    let laid = lay_out_virtual (λ t. pos (wide t)) wide (plain ptr) (some base) pair.fields pair in
    (placed : List StructField) × (laid.fields ≡ base.fields ++ placed)
    × IsLaidOut wide wide 9 placed laid
    × (map unplaced placed ≡ map unplaced pair.fields)
lay_out_virtual-IsLaidOut_example =
    lay_out_virtual-IsLaidOut wide wide wide_IsAlign (plain ptr) base pair pair.fields 9 8 refl refl
      eight

splice_base-IsAlignedField_example :
    All
      (IsAlignedField wide wide_IsAlign)
      (splice_base base
        (record pair { fields = field (codes "b") (plain i64) (pos 8) ∷ [] })).fields
    ↔ All (λ f. 9 % wide f.type ≡ 0) (field (codes "b") (plain i64) (pos 8) ∷ [])
splice_base-IsAlignedField_example =
    splice_base-IsAlignedField wide wide_IsAlign base
      (record pair { fields = field (codes "b") (plain i64) (pos 8) ∷ [] }) 9 refl
      ((0, refl, refl), tt) ((8, refl, refl), tt)

-- ===== src/Layout/Structs.antt =====
-- The layout passes of src/Sema.cpp over the fields of a struct.
pub mod Aligned
pub mod Spliced
use Prim.Native.Nat.{bit_and, bit_or}
use oxide_lang_reupload.Prelude.{
  ℕ, suc, ◌+◌, ◌-◌, Text, codes, Bool, true, false, List, [], ◌∷◌, ◌++◌, map, Option, none, some,
  ltb, if◌then◌else◌,
}
use oxide_lang_reupload.Prelude.Int.{ℤ, pos, negsuc, pos_part, ◌+ℤ◌, ltb_ℤ}
use oxide_lang_reupload.Types.Base.{BType, ptr, plain}
use oxide_lang_reupload.Types.Registry.{StructField, StructDef}

-- `x & ~m` in two's complement, for a mask `m` that is not negative.
unfoldable pub and_not : ℤ → ℕ → ℤ
and_not (pos x) m = pos (x - bit_and x m)
and_not (negsuc x) m = negsuc (bit_or x m)

-- `(off + a - 1) & ~(a - 1)`, for an alignment `a` that is not 0.
unfoldable pub align_up : ℤ → ℕ → ℤ
unfolding and_not ◌+ℤ◌
align_up off a = and_not (off +ℤ pos (a - 1)) (a - 1)

abbrev pub max_align : ℕ → ℕ → ℕ
max_align align a = if ltb align a then a else align

-- The fields with their offsets, the end of the last one, and the largest alignment.
pub record Placed : Type 0 where
  pub fields : List StructField
  pub off : ℤ
  pub align : ℕ

module _ (width : BType → ℤ) (align_of : BType → ℕ) where
  -- The loop over the fields, from an offset and an alignment.
  unfoldable pub place_fields : List StructField → ℤ → ℕ → Placed
  place_fields [] off align = record { fields = []; off = off; align = align }
  place_fields (f ∷ fs) off align =
      let start = align_up off (align_of f.type) in
      let rest = place_fields fs (start +ℤ width f.type) (max_align align (align_of f.type)) in
      record rest { fields = record f { offset = start } ∷ rest.fields }

  -- Layout pass 1: the struct's own fields from offset 0.
  unfoldable pub lay_out : StructDef → StructDef
  unfolding place_fields align_up
  lay_out d =
      let p = place_fields d.fields (pos 0) 1 in
      record d { fields = p.fields; size = align_up p.off p.align; align = pos p.align }

  -- The synthetic first field of a root with virtual methods.
  abbrev pub vtable_field : BType → StructField
  vtable_field vt = record { name = codes "__oxvt"; type = vt; offset = pos 0; is_private = false }

  -- The layout of a struct with virtual methods, from the fields that it declares itself. `vt` is
  -- the pointer type of the table.
  unfoldable pub lay_out_virtual :
      BType → Option StructDef → List StructField → StructDef → StructDef
  unfolding place_fields align_up
  lay_out_virtual vt none own d =
      let p = place_fields own (pos 8) 8 in
      record d {
        fields = vtable_field vt ∷ p.fields;
        size = align_up p.off p.align;
        align = pos p.align;
      }
  lay_out_virtual vt (some base) own d =
      let p = place_fields own base.size (max_align 1 (pos_part base.align)) in
      record d {
        fields = base.fields ++ p.fields;
        size = align_up p.off p.align;
        align = pos p.align;
      }

abbrev pub shift_field : ℤ → StructField → StructField
shift_field by f = record f { offset = by +ℤ f.offset }

abbrev pub larger : ℤ → ℤ → ℤ
larger a b = if ltb_ℤ a b then b else a

-- Layout pass 2: the fields of the base first, then the struct's own, shifted past the base.
unfoldable pub splice_base : StructDef → StructDef → StructDef
unfolding align_up
splice_base base d =
    let align = larger d.align base.align in
    record d {
      fields = base.fields ++ map (shift_field base.size) d.fields;
      size = align_up (base.size +ℤ d.size) (pos_part align);
      align = align;
      base = some base.name;
    }

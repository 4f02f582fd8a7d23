-- ===== src/Layout/Width/Aligned.antt =====
-- The alignments that `fieldAlign` of src/Types.cpp returns.
use oxide_lang_reupload.Prelude.{
  ℕ, zero, suc, ◌≡◌, refl, inl, inr, Text, Option, none, some, arith, Bool-cases,
}
use oxide_lang_reupload.Types.Base.{Tag, BType, array, struct_, i64}
use oxide_lang_reupload.Types.Tables.{Tables, array_elem, has_tag, or_default}
use oxide_lang_reupload.Types.Registry.{Registry, StructDef, find_struct}
use oxide_lang_reupload.Layout.Width.{
  machine_size, struct_align, flat_align, field_align, align_of, fuel_for,
}
use oxide_lang_reupload.Layout.Structs.Aligned.{IsAlign, one, two, four, eight}

-- Every struct of the registry has an alignment that a layout pass gave it, or none yet.
abbrev pub AlignsStructs : Registry → Type 0
AlignsStructs r =
    (name : Text) (d : StructDef) → find_struct r name ≡ some d → IsAlign (struct_align (some d))

machine_IsAlign : (g : Tag) → IsAlign (or_default 1 (machine_size g))
machine_IsAlign i64 = eight
machine_IsAlign _ = search (one, two, four, eight)

flat_align-IsAlign : (r : Registry) (t : BType) → AlignsStructs r → IsAlign (flat_align r t)
flat_align-IsAlign r t h = elim (Bool-cases (has_tag t struct_)) [
  | inl is ↦ rw is (registered (find_struct r t.struct_name) refl)
  | inr other ↦ rw other (machine_IsAlign t.tag)
]
  where
    registered : (o : Option StructDef) → find_struct r t.struct_name ≡ o → IsAlign (struct_align o)
    registered none e = eight
    registered (some d) e = h t.struct_name d e

some_eq : {a b : ℕ} → some a ≡ some b → a ≡ b
some_eq h = cc

field_align-IsAlign :
    (fuel : ℕ) (s : Tables) (r : Registry) (t : BType) {a : ℕ}
    → AlignsStructs r
    → field_align fuel s r t ≡ some a
    → IsAlign a
unfolding field_align
field_align-IsAlign zero s r t h e = absurd (ground arith)
field_align-IsAlign (suc fuel) s r t h e = elim (Bool-cases (has_tag t array)) [
  | inl is ↦ field_align-IsAlign fuel s r (array_elem s t) h (rw is at e)
  | inr other ↦
      let same : flat_align r t ≡ _ = some_eq (rw other at e) in
      rw (← same) (flat_align-IsAlign r t h)
]

-- Where the structs of the registry have alignments of 1, 2, 4 or 8, so has every type.
pub align_of-IsAlign :
    (s : Tables) (r : Registry) (t : BType) → AlignsStructs r → IsAlign (align_of s r t)
unfolding align_of
align_of-IsAlign s r t h = given (field_align (fuel_for s) s r t) refl
  where
    given : (o : Option ℕ) → field_align (fuel_for s) s r t ≡ o → IsAlign (or_default 1 o)
    given none e = one
    given (some a) e = field_align-IsAlign (fuel_for s) s r t h e

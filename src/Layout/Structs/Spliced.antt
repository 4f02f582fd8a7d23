-- ===== src/Layout/Structs/Spliced.antt =====
-- What layout pass 2 of src/Sema.cpp does to the alignment of the fields.
use oxide_lang_reupload.Prelude.{
  ℕ, ◌+◌, ◌%◌, ◌≡◌, sym, ap, ◌∙◌, ◌↔◌, List, [], ◌∷◌, ◌++◌, map, arith, All,
}
use oxide_lang_reupload.Prelude.Int.{pos, pos_part, ◌+ℤ◌, pos-+ℤ}
use oxide_lang_reupload.Types.Base.{BType}
use oxide_lang_reupload.Types.Registry.{StructField, StructDef}
use oxide_lang_reupload.Layout.Structs.{shift_field, splice_base}
use oxide_lang_reupload.Layout.Structs.Aligned.{IsAlign, one, two, four, eight}

shifted_multiple :
    {a : ℕ} (base offset : ℕ)
    → IsAlign a
    → offset % a ≡ 0
    → ((base + offset) % a ≡ 0) ↔ (base % a ≡ 0)
shifted_multiple base offset one m = (λ e. omega arith, λ e. omega arith)
shifted_multiple base offset two m = (λ e. omega arith, λ e. omega arith)
shifted_multiple base offset four m = (λ e. omega arith, λ e. omega arith)
shifted_multiple base offset eight m = (λ e. omega arith, λ e. omega arith)

module _ (a : BType → ℕ) (aligned : (t : BType) → IsAlign (a t)) where
  -- The field's offset is a multiple of its alignment.
  abbrev pub IsAlignedField : StructField → Type 0
  IsAlignedField f = (o : ℕ) × (f.offset ≡ pos o) × (o % a f.type ≡ 0)

  shifted_field :
      (base : ℕ) (f : StructField)
      → IsAlignedField f
      → IsAlignedField (shift_field (pos base) f) ↔ (base % a f.type ≡ 0)
  shifted_field base f (o, e, m) =
      let multiple = shifted_multiple base o (aligned f.type) m in
      let sum : pos base +ℤ f.offset ≡ pos (base + o) = rw e (pos-+ℤ base o) in
      (
        λ (o', e', m').
            let same : o' ≡ base + o = ap pos_part (sym e' ∙ sum) in multiple.0 (rw same at m'),
        λ h. (base + o, sum, multiple.1 h),
      )

  shifted_fields :
      (base : ℕ) (fs : List StructField)
      → All IsAlignedField fs
      → All IsAlignedField (map (shift_field (pos base)) fs) ↔ All (λ f. base % a f.type ≡ 0) fs
  shifted_fields base [] h = (λ _. tt, λ _. tt)
  shifted_fields base (f ∷ fs) (h, hs) =
      let head = shifted_field base f h in
      let rest = shifted_fields base fs hs in
      (λ (x, xs). (head.0 x, rest.0 xs), λ (x, xs). (head.1 x, rest.1 xs))

  behind_base :
      (fs gs : List StructField)
      → All IsAlignedField fs
      → All IsAlignedField (fs ++ gs) ↔ All IsAlignedField gs
  behind_base [] gs h = (λ x. x, λ x. x)
  behind_base (f ∷ fs) gs (h, hs) =
      let rest = behind_base fs gs hs in (λ (x, xs). rest.0 xs, λ xs. (h, rest.1 xs))

  -- Where the fields of the base and those that layout pass 1 placed are all at multiples of their
  -- alignments, the fields of the spliced struct are so exactly when the size of the base is a
  -- multiple of the alignment of each own field.
  pub splice_base-IsAlignedField :
      (base d : StructDef) (size : ℕ)
      → base.size ≡ pos size
      → All IsAlignedField base.fields
      → All IsAlignedField d.fields
      → All IsAlignedField (splice_base base d).fields ↔ All (λ f. size % a f.type ≡ 0) d.fields
  unfolding splice_base
  splice_base-IsAlignedField base d size e hb hd =
      let shifted = shifted_fields size d.fields hd in
      let behind = behind_base base.fields (map (shift_field (pos size)) d.fields) hb in
      rw e (λ x. shifted.0 (behind.0 x), λ x. behind.1 (shifted.1 x))

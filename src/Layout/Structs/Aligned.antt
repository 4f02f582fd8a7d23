-- ===== src/Layout/Structs/Aligned.antt =====
-- Rounding up to an alignment, and the field loops of src/Sema.cpp.
use oxide_lang_reupload.Prelude.{
  ℕ, ◌+◌, ◌-◌, ◌%◌, ◌≤◌, ◌<◌, ◌≡◌, refl, ap, ◌∙◌, inl, inr, List, [], ◌∷◌, ◌++◌, some, map, arith,
  ltb, Bool-cases, All,
}
use Prim.Native.Nat.{bit_and}
use native.Mathlib.Nat.{le_trans}
use oxide_lang_reupload.Prelude.Bits.{bit_and-0, bit_and-1, bit_and-3, bit_and-7}
use oxide_lang_reupload.Prelude.Int.{pos, pos-+ℤ}
use oxide_lang_reupload.Types.Base.{BType}
use oxide_lang_reupload.Types.Registry.{StructField, StructDef}
use oxide_lang_reupload.Layout.Structs.{
  and_not, align_up, max_align, Placed, place_fields, lay_out, lay_out_virtual,
}

-- The alignments that types have.
pub data IsAlign : ℕ → Type 0 where
  one : IsAlign 1
  two : IsAlign 2
  four : IsAlign 4
  eight : IsAlign 8

-- `o` is the least multiple of `a` that is not below `x`.
pub record RoundsUp (x a o : ℕ) : Type 0 where
  pub above : x ≤ o
  pub near : o < x + a
  pub aligned : o % a ≡ 0

align_up-pos : (x a : ℕ) → align_up (pos x) a ≡ pos (x + (a - 1) - bit_and (x + (a - 1)) (a - 1))
unfolding align_up and_not
align_up-pos x a = rw (pos-+ℤ x (a - 1), and_not)

pub rounded : (x : ℕ) {a : ℕ} → IsAlign a → (o : ℕ) × (align_up (pos x) a ≡ pos o) × RoundsUp x a o
rounded x one = (x, align_up-pos x 1 ∙ ap pos (omega (arith, bit_and-0 (x + 0))), omega arith)
rounded x two =
    (x + 1 - (x + 1) % 2, align_up-pos x 2 ∙ ap pos (omega (arith, bit_and-1 (x + 1))), omega arith)
rounded x four =
    (x + 3 - (x + 3) % 4, align_up-pos x 4 ∙ ap pos (omega (arith, bit_and-3 (x + 3))), omega arith)
rounded x eight =
    (x + 7 - (x + 7) % 8, align_up-pos x 8 ∙ ap pos (omega (arith, bit_and-7 (x + 7))), omega arith)

max_align_le : (x y : ℕ) → (x ≤ max_align x y) × (y ≤ max_align x y)
max_align_le x y = ground arith

max_align-IsAlign : {a b : ℕ} → IsAlign a → IsAlign b → IsAlign (max_align a b)
max_align-IsAlign {a} {b} h k = elim (Bool-cases (ltb a b)) [ inl e ↦ rw e k | inr e ↦ rw e h ]

-- The field without its place.
abbrev pub unplaced : StructField → StructField
unplaced f = record f { offset = pos 0 }

module _ (w : BType → ℕ) (a : BType → ℕ) where
  -- Fields at increasing offsets from `from` to `end`, each at the least multiple of its alignment
  -- that is not below the end of the field before it.
  pub data IsPlaced : ℕ → List StructField → ℕ → Type 0 where
    done : (end : ℕ) → IsPlaced end [] end
    put :
        {from o end : ℕ} {f : StructField} {fs : List StructField}
        → f.offset ≡ pos o
        → RoundsUp from (a f.type) o
        → IsPlaced (o + w f.type) fs end
        → IsPlaced from (f ∷ fs) end

  -- What the loop returns for the fields `given`, started at `from` and `align`.
  pub record PlacesFrom (given : List StructField) (from align : ℕ) (p : Placed) : Type 0 where
    pub end : ℕ
    pub off_is : p.off ≡ pos end
    pub placed : IsPlaced from p.fields end
    pub kept : map unplaced p.fields ≡ map unplaced given
    pub align_is : IsAlign p.align
    pub at_least : align ≤ p.align
    pub covers : All (λ f. a f.type ≤ p.align) p.fields

  pub place_fields_lem :
      ((t : BType) → IsAlign (a t))
      → (given : List StructField) (from align : ℕ) → IsAlign align
      → PlacesFrom given from align (place_fields (λ t. pos (w t)) a given (pos from) align)
  unfolding place_fields
  place_fields_lem aligned [] from align h = record {
    end = from;
    off_is = refl;
    placed = done from;
    kept = refl;
    align_is = h;
    at_least = omega arith;
    covers = tt;
  }
  place_fields_lem aligned (f ∷ fs) from align h =
      let (o, start, up) = rounded from (aligned f.type) in
      let rest =
        place_fields_lem aligned fs (o + w f.type) (max_align align (a f.type))
          (max_align-IsAlign h (aligned f.type)) in
      rw start (
        rw (pos-+ℤ o (w f.type)) (record {
          end = rest.end;
          off_is = rest.off_is;
          placed = put refl up rest.placed;
          kept = ap (◌∷◌ (unplaced f)) rest.kept;
          align_is = rest.align_is;
          at_least = le_trans (max_align_le align (a f.type)).0 rest.at_least;
          covers = (le_trans (max_align_le align (a f.type)).1 rest.at_least, rest.covers);
        }))

  -- A struct laid out: its fields in place from `from` on, and its size rounded up from their end.
  pub record IsLaidOut (from : ℕ) (own : List StructField) (d : StructDef) : Type 0 where
    pub end : ℕ
    pub size : ℕ
    pub align : ℕ
    pub size_is : d.size ≡ pos size
    pub align_is : d.align ≡ pos align
    pub is_align : IsAlign align
    pub placed : IsPlaced from own end
    pub padded : RoundsUp end align size
    pub covers : All (λ f. a f.type ≤ align) own

  close :
      {given : List StructField} {from align : ℕ} {p : Placed} (d : StructDef)
      → PlacesFrom given from align p
      → d.size ≡ align_up p.off p.align
      → d.align ≡ pos p.align
      → IsLaidOut from p.fields d
  close {p} d l s g =
      let (size, is, up) = rounded l.end l.align_is in
      record {
        end = l.end;
        size = size;
        align = p.align;
        size_is = s ∙ rw l.off_is is;
        align_is = g;
        is_align = l.align_is;
        placed = l.placed;
        padded = up;
        covers = l.covers;
      }

  -- Layout pass 1 keeps the fields and their order, places each at the least multiple of its
  -- alignment behind the field before it, and pads the struct to a multiple of its alignment, which
  -- is at least that of each field.
  pub lay_out-IsLaidOut :
      ((t : BType) → IsAlign (a t))
      → (d : StructDef)
      → let laid = lay_out (λ t. pos (w t)) a d in
        IsLaidOut 0 laid.fields laid × (map unplaced laid.fields ≡ map unplaced d.fields)
  unfolding lay_out
  lay_out-IsLaidOut aligned d =
      let l = place_fields_lem aligned d.fields 0 1 one in
      (close (lay_out (λ t. pos (w t)) a d) l refl refl, l.kept)

  -- With virtual methods the struct's own fields are placed behind those of the base, each at a
  -- multiple of its alignment, whatever the size of the base.
  pub lay_out_virtual-IsLaidOut :
      ((t : BType) → IsAlign (a t))
      → (vt : BType) (base d : StructDef) (own : List StructField) (size align : ℕ)
      → base.size ≡ pos size
      → base.align ≡ pos align
      → IsAlign align
      → let laid = lay_out_virtual (λ t. pos (w t)) a vt (some base) own d in
        (placed : List StructField) × (laid.fields ≡ base.fields ++ placed)
        × IsLaidOut size placed laid
        × (map unplaced placed ≡ map unplaced own)
  unfolding lay_out_virtual
  lay_out_virtual-IsLaidOut aligned vt base d own size align s g h =
      let start = max_align-IsAlign one h in
      let l = place_fields_lem aligned own size (max_align 1 align) start in
      rw (s, g) (_, refl, close _ l refl refl, l.kept)

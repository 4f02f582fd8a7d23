-- ===== src/Types/Tables/Canonical.antt =====
-- The constructors of composite types in src/Types.cpp against `operator==` of src/AST.h.
use oxide_lang_reupload.Prelude.{
  ℕ, ◌≡◌, refl, sym, ap, ◌↔◌, true, List, some, get_elem?, get_elem?-append_left,
}
use mathlib.Core.Path.{fun_ext}
use oxide_lang_reupload.Prelude.Int.{ℤ, pos, pos_part}
use oxide_lang_reupload.Types.Base.{Tag, i64, BType, btype_eq, plain}
use oxide_lang_reupload.Types.Equality.{
  SameType, btype_eq→SameType, btype_eq_refl, btype_eq_sym, btype_eq_trans, btype_eq_test,
}
use oxide_lang_reupload.Types.Tables.{
  Tables, intern, intern_type, entry_or, or_default, make_unary, make_array_type, make_dyn_array,
  make_ptr, make_set_type, make_hset_type, make_channel_type, make_map_type, array_elem,
  dyn_array_elem, pointee, set_elem_type, map_key_type, map_val_type, channel_elem_type,
}
use oxide_lang_reupload.Types.Tables.Intern.{intern-Holds, intern_stable, intern_idem}
use oxide_lang_reupload.Types.Tables.Growth.{
  Extends, Extends-refl, Extends-trans, Reach, Reach-Extends, intern_type-Extends,
}

-- The constructors with one element.
pub data Unary : Type 0 where
  dyn_array ptr set hset channel : Unary

unfoldable pub make : Unary → BType → Tables → Tables × BType
make dyn_array = make_dyn_array
make ptr = make_ptr
make set = make_set_type
make hset = make_hset_type
make channel = make_channel_type

unfoldable pub element : Unary → Tables → BType → BType
element dyn_array = dyn_array_elem
element ptr = pointee
element set = set_elem_type
element hset = set_elem_type
element channel = channel_elem_type

held :
    (e : BType) (s t : Tables)
    → Extends (intern_type e s).0 t
    → (y : BType) × (get_elem? t.types (intern_type e s).1 ≡ some y) × (btype_eq y e ≡ true)
unfolding intern_type
held e s t x =
    let found = intern (λ y. btype_eq y e) e s.types in
    let (y, at, same) = intern-Holds (λ y. btype_eq y e) e s.types (btype_eq_refl e) in
    let (more, grown) = x.types in
    (y, rw grown (get_elem?-append_left found.0 more found.1 at), same)

-- What a guarded read of a held position gives.
read_held :
    (types : List BType) (i : ℕ) (e : BType)
    → (y : BType) × (get_elem? types i ≡ some y) × (btype_eq y e ≡ true)
    → SameType (entry_or (plain i64) types (pos i)) e
read_held types i e (y, at, same) = rw (at, or_default) (btype_eq→SameType y e same)

-- In every later state of the tables the element of a type is the one that it was made from, in
-- the fields that `operator==` compares.
pub element-make :
    (k : Unary) (e : BType) (s t : Tables)
    → Reach (make k e s).0 t
    → SameType (element k t (make k e s).1) e
unfolding make element make_dyn_array make_ptr make_set_type make_hset_type make_channel_type
    dyn_array_elem pointee set_elem_type channel_elem_type
element-make dyn_array e s t r = read_held t.types _ e (held e s t (Reach-Extends r))
element-make ptr e s t r = read_held t.types _ e (held e s t (Reach-Extends r))
element-make set e s t r = read_held t.types _ e (held e s t (Reach-Extends r))
element-make hset e s t r = read_held t.types _ e (held e s t (Reach-Extends r))
element-make channel e s t r = read_held t.types _ e (held e s t (Reach-Extends r))

-- An array type keeps its length and its element.
pub array_elem-make_array_type :
    (e : BType) (n : ℤ) (s t : Tables)
    → Reach (make_array_type e n s).0 t
    → SameType (array_elem t (make_array_type e n s).1) e × ((make_array_type e n s).1.count ≡ n)
unfolding make_array_type array_elem
array_elem-make_array_type e n s t r = (read_held t.types _ e (held e s t (Reach-Extends r)), refl)

-- A map type keeps its key and its value.
pub map_types-make_map_type :
    (k v : BType) (s t : Tables)
    → Reach (make_map_type k v s).0 t
    → SameType (map_key_type t (make_map_type k v s).1) k
      × SameType (map_val_type t (make_map_type k v s).1) v
unfolding make_map_type map_key_type map_val_type
map_types-make_map_type k v s t r =
    let later = Reach-Extends r in
    let s₁ = (intern_type k s).0 in
    (
      read_held t.types _ k (held k s t (Extends-trans (intern_type-Extends v s₁) later)),
      read_held t.types _ v (held v s₁ t later),
    )

-- Two searches find one position exactly when the types are equal.
same_position :
    (a b : BType) (s t : Tables)
    → Extends (intern_type a s).0 t
    → ((intern_type a s).1 ≡ (intern_type b t).1) ↔ (btype_eq a b ≡ true)
same_position a b s t x = (
  λ e.
      let t' = (intern_type b t).0 in
      let (y, at, ya) = held a s t' (Extends-trans x (intern_type-Extends b t)) in
      let (z, at', zb) = held b t t' (Extends-refl t') in
      let both : y ≡ z = cc (at, e, at') in btype_eq_trans a y b (btype_eq_sym y a ya) (rw both zb),
  λ e.
      let (more, grown) = x.types in
      let test = fun_ext (btype_eq_test a b e) in
      unfold intern_type in
      (rw grown
        (rw (← test) (sym (intern_stable (λ y. btype_eq y a) a b s.types more (btype_eq_refl a))))),
)

-- Two types with the same tag and no other field are equal when their positions are.
position_iff :
    (g : Tag) (i j : ℕ)
    → (btype_eq (record (plain g) { elem = pos i }) (record (plain g) { elem = pos j }) ≡ true)
      ↔ (i ≡ j)
position_iff g i j = (
  λ h. ap pos_part (btype_eq→SameType _ _ h).same_elem,
  λ e. rw e (btype_eq_refl (record (plain g) { elem = pos j })),
)

made_iff :
    (g : Tag) (a b : BType) (s t : Tables)
    → Extends (intern_type a s).0 t
    → (btype_eq (make_unary g a s).1 (make_unary g b t).1 ≡ true) ↔ (btype_eq a b ≡ true)
made_iff g a b s t x =
    let positions = position_iff g (intern_type a s).1 (intern_type b t).1 in
    let types = same_position a b s t x in
    (λ h. types.0 (positions.0 h), λ h. positions.1 (types.1 h))

-- The two types are equal by `operator==` exactly when their elements are, whatever else was made
-- between them.
pub make-injective :
    (k : Unary) (a b : BType) (s t : Tables)
    → Reach (make k a s).0 t
    → (btype_eq (make k a s).1 (make k b t).1 ≡ true) ↔ (btype_eq a b ≡ true)
unfolding make make_dyn_array make_ptr make_set_type make_hset_type make_channel_type
make-injective dyn_array a b s t r = made_iff _ a b s t (Reach-Extends r)
make-injective ptr a b s t r = made_iff _ a b s t (Reach-Extends r)
make-injective set a b s t r = made_iff _ a b s t (Reach-Extends r)
make-injective hset a b s t r = made_iff _ a b s t (Reach-Extends r)
make-injective channel a b s t r = made_iff _ a b s t (Reach-Extends r)

intern_type_again :
    (e e' : BType) (s : Tables)
    → btype_eq e e' ≡ true
    → intern_type e' (intern_type e s).0 ≡ intern_type e s
unfolding intern_type
intern_type_again e e' s h =
    let test = fun_ext (btype_eq_test e e' h) in
    rw (← test) (rw (intern_idem (λ y. btype_eq y e) e e' s.types (btype_eq_refl e)))

made_again :
    (g : Tag) (e e' : BType) (s : Tables)
    → btype_eq e e' ≡ true
    → make_unary g e' (make_unary g e s).0 ≡ make_unary g e s
made_again g e e' s h = rw (intern_type_again e e' s h)

-- Where two element types agree in the fields that `operator==` compares, making the composite type
-- of the second after that of the first changes no table and gives the first composite type.
pub make_again :
    (k : Unary) (e e' : BType) (s : Tables)
    → btype_eq e e' ≡ true
    → make k e' (make k e s).0 ≡ make k e s
unfolding make make_dyn_array make_ptr make_set_type make_hset_type make_channel_type
make_again dyn_array e e' s h = made_again _ e e' s h
make_again ptr e e' s h = made_again _ e e' s h
make_again set e e' s h = made_again _ e e' s h
make_again hset e e' s h = made_again _ e e' s h
make_again channel e e' s h = made_again _ e e' s h

-- ===== src/Types/Tables.antt =====
-- src/Types.cpp: the interning tables behind composite types. A composite `BType` holds positions
-- in them; a static table of the source is a field of `Tables`, and each function passes it on.
pub mod Intern
pub mod Growth
pub mod Canonical
use oxide_lang_reupload.Prelude.{
  ℕ, Text, text_eq, Bool, true, false, ◌&&◌, List, [], ◌∷◌, ◌++◌, Option, none, some, not, length,
  get_elem?, find_index, if◌then◌else◌,
}
use oxide_lang_reupload.Prelude.Int.{ℤ, pos, negsuc}
use oxide_lang_reupload.Types.Base.{
  Tag, i64, array, dynarray, ptr, map_, set_, hmap_, hset_, fn_, generic_, channel_, enum_, tag_eq,
  BType, plain, btype_eq,
}
use oxide_lang_reupload.Types.Equality.{btypes_eq}

pub record FnSig : Type 0 where
  pub params : List BType
  pub ret : BType

pub record GenericInst : Type 0 where
  pub base : Text
  pub args : List BType
  pub is_fn : Bool

-- `typeTable()`, `fnSigTable()` and `genericInstTable()`.
pub record Tables : Type 0 where
  pub types : List BType
  pub fn_sigs : List FnSig
  pub generic_insts : List GenericInst

-- A read guarded by `ix < 0 || (size_t)ix >= t.size()`.
abbrev pub entry {ℓ} : {A : Type ℓ} → List A → ℤ → Option A
entry t (pos i) = get_elem? t i
entry t (negsuc i) = none

abbrev pub or_default {ℓ} : {A : Type ℓ} → A → Option A → A
or_default d none = d
or_default d (some x) = x

abbrev pub entry_or {ℓ} : {A : Type ℓ} → A → List A → ℤ → A
entry_or d t ix = or_default d (entry t ix)

-- The position of an element that passes the test, else of `x` behind the last one. The loop is
-- written out in most constructors of the source.
unfoldable pub place {ℓ} : {A : Type ℓ} → A → List A → Option ℕ → List A × ℕ
place x t (some i) = (t, i)
place x t none = (t ++ x ∷ [], length t)

unfoldable pub intern {ℓ} : {A : Type ℓ} → (A → Bool) → A → List A → List A × ℕ
unfolding find_index place
intern same x t = place x t (find_index same t)

unfoldable pub intern_type : BType → Tables → Tables × ℕ
unfolding intern
intern_type x s = let (t, i) = intern (λ y. btype_eq y x) x s.types in (record s { types = t }, i)

unfoldable pub make_array_type : BType → ℤ → Tables → Tables × BType
unfolding intern_type
make_array_type e n s =
    let (s', i) = intern_type e s in (s', record (plain array) { count = n; elem = pos i })

-- The constructors that hold one interned element.
abbrev pub make_unary : Tag → BType → Tables → Tables × BType
make_unary tag e s = let (s', i) = intern_type e s in (s', record (plain tag) { elem = pos i })

unfoldable pub make_dyn_array : BType → Tables → Tables × BType
unfolding intern_type
make_dyn_array e s = make_unary dynarray e s

unfoldable pub make_ptr : BType → Tables → Tables × BType
unfolding intern_type
make_ptr e s = make_unary ptr e s

unfoldable pub make_set_type : BType → Tables → Tables × BType
unfolding intern_type
make_set_type e s = make_unary set_ e s

unfoldable pub make_hset_type : BType → Tables → Tables × BType
unfolding intern_type
make_hset_type e s = make_unary hset_ e s

unfoldable pub make_channel_type : BType → Tables → Tables × BType
unfolding intern_type
make_channel_type e s = make_unary channel_ e s

-- The key is interned before the value.
abbrev pub make_pair : Tag → BType → BType → Tables → Tables × BType
make_pair tag k v s =
    let (s₁, i) = intern_type k s in
    let (s₂, j) = intern_type v s₁ in (s₂, record (plain tag) { elem = pos i; count = pos j })

unfoldable pub make_map_type : BType → BType → Tables → Tables × BType
unfolding intern_type
make_map_type k v s = make_pair map_ k v s

unfoldable pub make_hmap_type : BType → BType → Tables → Tables × BType
unfolding intern_type
make_hmap_type k v s = make_pair hmap_ k v s

abbrev pub has_tag : BType → Tag → Bool
has_tag t g = tag_eq t.tag g

unfoldable pub array_elem : Tables → BType → BType
array_elem s a = if has_tag a array then entry_or (plain i64) s.types a.elem else plain i64

unfoldable pub dyn_array_elem : Tables → BType → BType
dyn_array_elem s a = if has_tag a dynarray then entry_or (plain i64) s.types a.elem else plain i64

unfoldable pub pointee : Tables → BType → BType
pointee s p = if has_tag p ptr then entry_or (plain i64) s.types p.elem else plain i64

unfoldable pub channel_elem_type : Tables → BType → BType
channel_elem_type s c =
    if has_tag c channel_ then entry_or (plain i64) s.types c.elem else plain i64

abbrev pub is_either : BType → Tag → Tag → Bool
is_either t g h = elim (has_tag t g) [ true ↦ true | false ↦ has_tag t h ]

unfoldable pub set_elem_type : Tables → BType → BType
set_elem_type s t =
    if is_either t set_ hset_ then entry_or (plain i64) s.types t.elem else plain i64

unfoldable pub map_key_type : Tables → BType → BType
map_key_type s m = if is_either m map_ hmap_ then entry_or (plain i64) s.types m.elem else plain i64

unfoldable pub map_val_type : Tables → BType → BType
map_val_type s m =
    if is_either m map_ hmap_ then entry_or (plain i64) s.types m.count else plain i64

abbrev pub same_sig : List BType → BType → FnSig → Bool
same_sig ps r f = btype_eq f.ret r && btypes_eq f.params ps

unfoldable pub make_fn_type : List BType → BType → Tables → Tables × BType
unfolding intern
make_fn_type ps r s =
    let (t, i) = intern (same_sig ps r) (record { params = ps; ret = r }) s.fn_sigs in
    (record s { fn_sigs = t }, record (plain fn_) { elem = pos i })

abbrev pub fn_sig? : Tables → BType → Option FnSig
fn_sig? s t = if has_tag t fn_ then entry s.fn_sigs t.elem else none

unfoldable pub fn_params : Tables → BType → List BType
fn_params s t = elim (fn_sig? s t) [ none ↦ [] | some f ↦ f.params ]

unfoldable pub fn_ret : Tables → BType → BType
fn_ret s t = elim (fn_sig? s t) [ none ↦ plain i64 | some f ↦ f.ret ]

abbrev pub bool_eq : Bool → Bool → Bool
bool_eq a b = if a then b else not b

abbrev pub same_inst : Text → List BType → Bool → GenericInst → Bool
same_inst b as' f g = text_eq g.base b && bool_eq g.is_fn f && btypes_eq g.args as'

unfoldable pub make_generic_inst : Text → List BType → Bool → Tables → Tables × BType
unfolding intern
make_generic_inst b as' f s =
    let gi : GenericInst = record { base = b; args = as'; is_fn = f } in
    let (t, i) = intern (same_inst b as' f) gi s.generic_insts in
    (record s { generic_insts = t }, record (plain generic_) { elem = pos i })

unfoldable pub is_generic_inst : BType → Bool
is_generic_inst t = has_tag t generic_

abbrev pub generic_inst? : Tables → BType → Option GenericInst
generic_inst? s t = if has_tag t generic_ then entry s.generic_insts t.elem else none

-- The fallback of the source is a default-constructed `GenericInst`.
unfoldable pub generic_inst : Tables → BType → GenericInst
generic_inst s t = elim (generic_inst? s t) [
  | none ↦ record { base = []; args = []; is_fn = false }
  | some g ↦ g
]

unfoldable pub generic_inst_base : Tables → BType → Text
generic_inst_base s t = elim (generic_inst? s t) [ none ↦ [] | some g ↦ g.base ]

unfoldable pub generic_inst_args : Tables → BType → List BType
generic_inst_args s t = elim (generic_inst? s t) [ none ↦ [] | some g ↦ g.args ]

unfoldable pub generic_inst_is_fn : Tables → BType → Bool
generic_inst_is_fn s t = elim (generic_inst? s t) [ none ↦ false | some g ↦ g.is_fn ]

unfoldable pub make_enum_type : Text → BType
make_enum_type name = record (plain enum_) { struct_name = name }

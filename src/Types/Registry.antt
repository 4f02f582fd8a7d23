-- ===== src/Types/Registry.antt =====
-- src/Types.cpp: the registries of names, each a static `std::map` of the source.
pub mod Lookup
use oxide_lang_reupload.Prelude.{
  ℕ, suc, Text, text_eq, Bool, true, false, List, [], ◌∷◌, ◌++◌, map, Option, none, some,
  find_index, if◌then◌else◌,
}
use oxide_lang_reupload.Prelude.Int.{ℤ, pos, negsuc}
use oxide_lang_reupload.Prelude.Map.{Map, find, assign}
use oxide_lang_reupload.Types.Base.{BType, i64, plain}
use oxide_lang_reupload.Types.Tables.{or_default}

-- A pointer to a part of the syntax tree, which the registries only store.
abbrev pub Pointer : Type 0
Pointer = ℕ

pub record RangeTypeEntry : Type 0 where
  pub target : BType
  pub expr : Pointer

pub record ConceptReq : Type 0 where
  pub name : Text
  pub has_self : Bool
  pub self_by_ref : Bool
  pub params : List BType
  pub ret_type : BType

pub record ConceptDef : Type 0 where
  pub name : Text
  pub reqs : List ConceptReq
  pub self_param : Text

-- The parsed form: a parameter still has its name.
pub record ConceptReqDecl : Type 0 where
  pub name : Text
  pub has_self : Bool
  pub self_by_ref : Bool
  pub params : List (Text × BType)
  pub ret_type : BType

pub record ConceptDecl : Type 0 where
  pub name : Text
  pub self_param : Text
  pub reqs : List ConceptReqDecl

pub record StructField : Type 0 where
  pub name : Text
  pub type : BType
  pub offset : ℤ
  pub is_private : Bool

-- `base` is a pointer into the registry, held as the key of the entry it points to.
pub record StructDef : Type 0 where
  pub name : Text
  pub fields : List StructField
  pub size : ℤ
  pub align : ℤ
  pub generic_of : Text
  pub generic_args : List BType
  pub is_opaque : Bool
  pub has_drop : Bool
  pub has_clone : Bool
  pub base_name : Text
  pub base : Option Text
  pub has_virtuals : Bool
  pub vtable_slots : List Text

pub record EnumDef : Type 0 where
  pub name : Text
  pub variants : List Text

-- The static maps of the source.
pub record Registry : Type 0 where
  pub generic_structs : Map Pointer
  pub generic_fns : Map Pointer
  pub aliases : Map BType
  pub ranges : Map RangeTypeEntry
  pub concepts : Map ConceptDef
  pub structs : Map StructDef
  pub enums : Map EnumDef

unfoldable pub register_generic_struct : Text → Pointer → Registry → Registry
register_generic_struct name tmpl r = record r {
  generic_structs = assign name tmpl r.generic_structs;
}

unfoldable pub find_generic_struct : Registry → Text → Option Pointer
find_generic_struct r name = find name r.generic_structs

unfoldable pub register_generic_fn : Text → Pointer → Registry → Registry
register_generic_fn name tmpl r = record r { generic_fns = assign name tmpl r.generic_fns }

unfoldable pub find_generic_fn : Registry → Text → Option Pointer
find_generic_fn r name = find name r.generic_fns

unfoldable pub register_alias : Text → BType → Registry → Registry
register_alias name target r = record r { aliases = assign name target r.aliases }

abbrev pub is_some {ℓ} : {A : Type ℓ} → Option A → Bool
is_some none = false
is_some (some x) = true

unfoldable pub is_alias_name : Registry → Text → Bool
is_alias_name r name = is_some (find name r.aliases)

unfoldable pub resolve_alias : Registry → Text → Bool × BType
resolve_alias r name = (is_some (find name r.aliases), or_default (plain i64) (find name r.aliases))

unfoldable pub register_range_type : Text → BType → Pointer → Registry → Registry
register_range_type name target expr r = record r {
  ranges = assign name (record { target = target; expr = expr }) r.ranges;
}

unfoldable pub find_range_type : Registry → Text → Option RangeTypeEntry
find_range_type r name = find name r.ranges

abbrev pub param_type : Text × BType → BType
param_type (name, type) = type

abbrev pub concept_req : ConceptReqDecl → ConceptReq
concept_req q = record {
  name = q.name;
  has_self = q.has_self;
  self_by_ref = q.self_by_ref;
  params = map param_type q.params;
  ret_type = q.ret_type;
}

unfoldable pub register_concept_def : ConceptDecl → Registry → Registry
register_concept_def c r =
    let def : ConceptDef = record {
      name = c.name;
      self_param = c.self_param;
      reqs = map concept_req c.reqs;
    } in
    record r { concepts = assign c.name def r.concepts }

unfoldable pub find_concept_def : Registry → Text → Option ConceptDef
find_concept_def r name = find name r.concepts

abbrev pub value {ℓ} : {V : Type ℓ} → Text × V → V
value (k, v) = v

unfoldable pub all_concept_defs : Registry → List ConceptDef
all_concept_defs r = map value r.concepts

abbrev pub empty_struct : Text → StructDef
empty_struct n = record {
  name = n;
  fields = [];
  size = pos 0;
  align = pos 0;
  generic_of = [];
  generic_args = [];
  is_opaque = false;
  has_drop = false;
  has_clone = false;
  base_name = [];
  base = none;
  has_virtuals = false;
  vtable_slots = [];
}

-- An entry that is there is left alone. The pointer returned is the key.
abbrev pub register_entry {ℓ} : {V : Type ℓ} → V → Text → Map V → Map V
register_entry d name m = elim (find name m) [ none ↦ assign name d m | some x ↦ m ]

unfoldable pub register_struct : Text → Registry → Registry
register_struct name r = record r { structs = register_entry (empty_struct name) name r.structs }

unfoldable pub find_struct : Registry → Text → Option StructDef
find_struct r name = find name r.structs

unfoldable pub all_struct_defs : Registry → List StructDef
all_struct_defs r = map value r.structs

abbrev pub index_or_minus_one : Option ℕ → ℤ
index_or_minus_one none = negsuc 0
index_or_minus_one (some i) = pos i

-- A null pointer is `none`.
unfoldable pub struct_field_index : Option StructDef → Text → ℤ
struct_field_index none field = negsuc 0
struct_field_index (some d) field =
    index_or_minus_one (find_index (λ f. text_eq f.name field) d.fields)

abbrev pub empty_enum : Text → EnumDef
empty_enum n = record { name = n; variants = [] }

unfoldable pub register_enum : Text → Registry → Registry
register_enum name r = record r { enums = register_entry (empty_enum name) name r.enums }

unfoldable pub find_enum : Registry → Text → Option EnumDef
find_enum r name = find name r.enums

-- The first enum in the order of the names that has the variant, and its position there.
unfoldable pub resolve_variant_in : Text → Map EnumDef → Option EnumDef × ℤ
resolve_variant_in name [] = (none, negsuc 0)
resolve_variant_in name ((k, d) ∷ m) =
    let rest = resolve_variant_in name m in
    let here = find_index (λ v. text_eq v name) d.variants in
    if is_some here then (some d, index_or_minus_one here) else rest

unfoldable pub resolve_enum_variant : Registry → Text → Option EnumDef × ℤ
unfolding resolve_variant_in
resolve_enum_variant r name = resolve_variant_in name r.enums

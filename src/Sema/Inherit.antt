-- ===== src/Sema/Inherit.antt =====
-- src/Sema.cpp, `isBaseOf` and `implicitAssignable` (and the copy of `isBaseOf` in src/IRGen.cpp):
-- single inheritance along the chain of base pointers.
pub mod Ancestors
use oxide_lang_reupload.Prelude.{
  ℕ, zero, suc, Text, text_eq, any, List, [], ◌∷◌, Option, none, some, Bool, true, false, ◌&&◌,
  ◌||◌, if◌then◌else◌,
}
use oxide_lang_reupload.Types.Base.{
  BType, btype_eq, struct_, ptr, array, dynarray, i64, u8, i8, char_, void_, tag_eq, plain,
}
use oxide_lang_reupload.Types.Tables.{Tables, pointee}
use oxide_lang_reupload.Types.Registry.{Registry, StructDef, find_struct}

-- The structs from `d` up the base pointers, at most as many as the fuel. A cycle, on which the loop
-- of the source does not end, uses the fuel up.
abbrev pub up_from : (Option Text → List StructDef) → Option StructDef → List StructDef
up_from above none = []
up_from above (some d) = d ∷ above d.base

abbrev pub struct_at : Registry → Option Text → Option StructDef
struct_at r none = none
struct_at r (some k) = find_struct r k

unfoldable pub levels : ℕ → Registry → Option Text → List StructDef
unfolding find_struct
levels zero r k = []
levels (suc n) r k = up_from (levels n r) (struct_at r k)

-- `d->base && d->base->name == parent`.
abbrev pub is_named : Text → Option StructDef → Bool
is_named parent none = false
is_named parent (some d) = text_eq d.name parent

abbrev pub base_is : Registry → Text → StructDef → Bool
base_is r parent d = is_named parent (struct_at r d.base)

unfoldable pub is_base_of : ℕ → Registry → Text → Text → Bool
unfolding levels find_struct
is_base_of n r parent child =
    if text_eq parent child then false else any (base_is r parent) (levels n r (some child))

-- Both are structs, and a pointer to the first is a pointer to a struct derived from the second.
abbrev is_upcast : ℕ → Registry → BType → BType → Bool
is_upcast n r fp tp =
    tag_eq fp.tag struct_ && tag_eq tp.tag struct_ && is_base_of n r tp.struct_name fp.struct_name

unfoldable pub implicit_assignable : ℕ → Tables → Registry → BType → BType → Bool
unfolding btype_eq is_base_of pointee
implicit_assignable n s r from to =
    if btype_eq from to
    then true
    else if tag_eq from.tag ptr && tag_eq to.tag ptr
    then is_upcast n r (pointee s from) (pointee s to)
    else false

-- ===== src/Sema/Scopes.antt =====
-- src/Sema.h, `Scope` and `Entry`, and the scope operations of src/Sema.cpp.
pub mod Refinement
pub mod Blocks
pub mod Hint
use oxide_lang_reupload.Prelude.{
  ℕ, Text, codes, text_eq, any, List, [], ◌∷◌, ◌++◌, map, Option, none, some, Bool, true, false,
  not, ◌&&◌, ◌||◌, if◌then◌else◌,
}
use oxide_lang_reupload.Prelude.Map.{Map, find, assign}
use oxide_lang_reupload.Types.Base.{BType, void_, struct_, plain, tag_eq}
use oxide_lang_reupload.Types.Registry.{Registry, StructDef, find_struct, is_some}

pub record VarInfo : Type 0 where
  pub type : BType
  pub is_mut : Bool
  pub found : Bool

pub record SemanticError : Type 0 where
  pub msg : Text
  pub line : ℕ
  pub col : ℕ
  pub hint : Text

pub record Entry : Type 0 where
  pub type : BType
  pub is_mut : Bool
  pub is_global : Bool
  pub has_drop : Bool

pub record Scope : Type 0 where
  pub vars : Map Entry
  pub drop_vars : List Text

-- `scopes_` with its back first, and `errs`.
pub record Scopes : Type 0 where
  pub scopes : List Scope
  pub errs : List SemanticError

abbrev pub no_var : VarInfo
no_var = record { type = plain void_; is_mut = false; found = false }

abbrev pub var_info : Entry → VarInfo
var_info e = record { type = e.type; is_mut = e.is_mut; found = true }

abbrev pub info_or : VarInfo → Option Entry → VarInfo
info_or outer none = outer
info_or outer (some e) = var_info e

-- The loop of `lookup`, from the innermost scope outwards.
unfoldable pub lookup_in : List Scope → Text → VarInfo
lookup_in [] name = no_var
lookup_in (s ∷ ss) name = info_or (lookup_in ss name) (find name s.vars)

unfoldable pub lookup : Scopes → Text → VarInfo
unfolding lookup_in
lookup st name = lookup_in st.scopes name

abbrev pub empty_scope : Scope
empty_scope = record { vars = []; drop_vars = [] }

unfoldable pub push_scope : Scopes → Scopes
push_scope st = record st { scopes = empty_scope ∷ st.scopes }

-- `scopes_.pop_back()`, undefined on no scope.
abbrev pub without_back : List Scope → Option (List Scope)
without_back [] = none
without_back (s ∷ ss) = some ss

abbrev pub with_scopes : Scopes → Option (List Scope) → Option Scopes
with_scopes st none = none
with_scopes st (some ss) = some (record st { scopes = ss })

unfoldable pub pop_scope : Scopes → Option Scopes
pop_scope st = with_scopes st (without_back st.scopes)

-- `while (scopes_.size() > 1) scopes_.pop_back();`
unfoldable pub only_globals : List Scope → List Scope
only_globals [] = []
only_globals (s ∷ []) = s ∷ []
only_globals (s ∷ t ∷ ss) = only_globals (t ∷ ss)

unfoldable pub leave_to_globals : Scopes → Scopes
unfolding only_globals
leave_to_globals st = record st { scopes = only_globals st.scopes }

unfoldable pub err_at : List SemanticError → ℕ → Text → List SemanticError
err_at errs line m = errs ++ record { msg = m; line = line; col = 0; hint = [] } ∷ []

abbrev pub base_has : (StructDef → Bool) → Registry → Option Text → Bool
base_has has r none = false
base_has has r (some b) = elim (find_struct r b) [ none ↦ false | some d ↦ has d ]

abbrev pub entry_has : (StructDef → Bool) → Registry → Option StructDef → Bool
entry_has has r none = false
entry_has has r (some d) = if has d then true else base_has has r d.base

unfoldable pub struct_has_drop : Registry → Text → Bool
struct_has_drop r sn = entry_has (λ d. d.has_drop) r (find_struct r sn)

unfoldable pub struct_has_clone : Registry → Text → Bool
struct_has_clone r sn = entry_has (λ d. d.has_clone) r (find_struct r sn)

-- The arguments of `declare`.
pub record Declaration : Type 0 where
  pub name : Text
  pub type : BType
  pub is_mut : Bool
  pub is_global : Bool
  pub allow_redecl : Bool
  pub line : ℕ

abbrev pub redeclaration : Text → Text
redeclaration name = codes "redeclaration of '" ++ name ++ codes "' in the same scope"

abbrev pub entry_of : Registry → Declaration → Entry
entry_of r d = record {
  type = d.type;
  is_mut = d.is_mut;
  is_global = d.is_global;
  has_drop = tag_eq d.type.tag struct_ && struct_has_drop r d.type.struct_name;
}

-- `scopes_.back()` is undefined on no scope.
abbrev pub declare_in : Registry → Declaration → List SemanticError → List Scope → Option Scopes
declare_in r d errs [] = none
declare_in r d errs (s ∷ ss) = some (record {
  scopes = record s { vars = assign d.name (entry_of r d) s.vars } ∷ ss;
  errs =
      if not d.allow_redecl && is_some (find d.name s.vars)
      then err_at errs d.line (redeclaration d.name)
      else errs;
})

unfoldable pub declare : Registry → Declaration → Scopes → Option Scopes
unfolding struct_has_drop err_at
declare r d st = declare_in r d st.errs st.scopes

abbrev pub record_in : Text → List Scope → Option (List Scope)
record_in name [] = none
record_in name (s ∷ ss) = some (
    (if any (text_eq name) s.drop_vars
      then s
      else record s { drop_vars = s.drop_vars ++ name ∷ [] })
    ∷ ss)

unfoldable pub record_drop_local : Text → Scopes → Option Scopes
record_drop_local name st = with_scopes st (record_in name st.scopes)

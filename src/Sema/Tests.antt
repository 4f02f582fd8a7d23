-- ===== src/Sema/Tests.antt =====
-- Runs of the type checker's helpers, and the properties at concrete inputs.
use oxide_lang_reupload.Prelude.{
  Option, none, text_eq, text_eq_iff, Bool-cases, inl, inr, if◌then◌else◌, ◌<◌, ◌↔◌, sym, ap, ◌∙◌,
  arith, ℕ, ◌+◌, ◌/◌, ◌≤◌, Text, codes, length, List, [], ◌∷◌, ◌++◌, some, true, false, ◌≡◌, refl,
  ◌⊎◌,
}
use oxide_lang_reupload.Prelude.Map.{assign, find}
use oxide_lang_reupload.Types.Base.{BType, plain, i64, str}
use oxide_lang_reupload.Types.Registry.{Registry, StructDef, empty_struct, find_struct}
use oxide_lang_reupload.Sema.Inherit.{is_base_of}
use oxide_lang_reupload.Sema.Inherit.Ancestors.{Above, is_base_of-Above}
use oxide_lang_reupload.Sema.Suggest.{
  edit_dist, suggest, first_row, fill_row, fill_rows, last_entry, consider, consider_all,
}
use oxide_lang_reupload.Sema.Suggest.Edits.{Edits, edit_dist-IsLeast}
use oxide_lang_reupload.Sema.Suggest.Nearest.{IsNearest, suggest-IsNearest}
use oxide_lang_reupload.Sema.Scopes.{
  Scopes, Scope, Declaration, SemanticError, lookup_in, empty_scope, redeclaration, entry_of,
}
use oxide_lang_reupload.Sema.Scopes.Refinement.{Op, push, pop, bind, run, env_run, Agree, run-Agree}
use oxide_lang_reupload.Sema.Scopes.Blocks.{
  Balanced, nothing, binding, block, block-scopes, redeclared,
}
use oxide_lang_reupload.Sema.Scopes.Hint.{undeclared, undeclared-found}

kitten : edit_dist (codes "kitten") (codes "sitting") ≡ 3
unfolding edit_dist first_row fill_row fill_rows last_entry
kitten = refl

abbrev names : List Text
names = codes "counter" ∷ [] ∷ codes "count" ∷ codes "total" ∷ []

suggested : suggest (codes "cuont") names ≡ codes "count"
unfolding suggest consider_all consider edit_dist first_row fill_row fill_rows last_entry
suggested = refl

edit_dist-IsLeast_example :
    Edits (codes "kitten") (codes "sitting") (edit_dist (codes "kitten") (codes "sitting"))
    × ((n : ℕ)
        → Edits (codes "kitten") (codes "sitting") n
        → edit_dist (codes "kitten") (codes "sitting") ≤ n)
edit_dist-IsLeast_example = edit_dist-IsLeast (codes "kitten") (codes "sitting")

suggest-IsNearest_example : IsNearest (codes "cuont") names (suggest (codes "cuont") names)
suggest-IsNearest_example = suggest-IsNearest (codes "cuont") names

abbrev no_names : Registry
no_names = record {
  generic_structs = [];
  generic_fns = [];
  aliases = [];
  ranges = [];
  concepts = [];
  structs = [];
  enums = [];
}

abbrev x_at : BType → ℕ → Declaration
x_at t line = record {
  name = codes "x";
  type = t;
  is_mut = true;
  is_global = false;
  allow_redecl = false;
  line = line;
}

-- `{ let x: i64; { let x: str; } let x: str; }`
abbrev shadowing : List Op
shadowing =
    push
    ∷ bind (x_at (plain i64) 1)
    ∷ push
    ∷ bind (x_at (plain str) 2)
    ∷ pop
    ∷ bind (x_at (plain str) 3)
    ∷ pop
    ∷ []

abbrev start : Scopes
start = record { scopes = empty_scope ∷ []; errs = [] }

abbrev inner : List Op
inner = push ∷ bind (x_at (plain str) 2) ∷ pop ∷ []

inner-Balanced : Balanced inner
inner-Balanced = block (binding nothing) nothing

run-Agree_example :
    Agree (run no_names shadowing start) (env_run shadowing (lookup_in (empty_scope ∷ []) ∷ []))
run-Agree_example =
    run-Agree no_names shadowing start (lookup_in (empty_scope ∷ []) ∷ []) (λ name. refl, tt)

block-scopes_example :
    (new : List SemanticError) × (run no_names (push ∷ inner ++ pop ∷ []) start
      ≡ some (record start { errs = [] ++ new }))
block-scopes_example = block-scopes no_names inner-Balanced start

redeclared_example :
    (t : Scope) × (new : List SemanticError) × (run no_names
        (bind (x_at (plain i64) 1) ∷ inner ++ bind (x_at (plain str) 3) ∷ [])
        start
      ≡ some (record {
        scopes =
            record t { vars = assign (codes "x") (entry_of no_names (x_at (plain str) 3)) t.vars }
            ∷ [];
        errs =
            ([] ++ new)
            ++ record { msg = redeclaration (codes "x"); line = 3; col = 0; hint = [] } ∷ [];
      }))
redeclared_example =
    redeclared no_names inner-Balanced (x_at (plain i64) 1) (x_at (plain str) 3) refl refl
      empty_scope [] []

abbrev declared : List Scope
declared =
    record { vars = (codes "count", entry_of no_names (x_at (plain i64) 1)) ∷ []; drop_vars = [] }
    ∷ empty_scope
    ∷ []

undeclared-found_example :
    ((undeclared declared (codes "cuont") 7 3).hint ≡ [])
    ⊎ ((c : Text) × ((undeclared declared (codes "cuont") 7 3).hint
          ≡ codes "did you mean '" ++ c ++ codes "'?")
        × ((lookup_in declared c).found ≡ true)
        × (edit_dist (codes "cuont") c ≤ length (codes "cuont") / 2 + 2))
undeclared-found_example = undeclared-found declared (codes "cuont") 7 3

abbrev base_struct : StructDef
base_struct = empty_struct (codes "Base")

abbrev derived_struct : StructDef
derived_struct = record (empty_struct (codes "Derived")) { base = some (codes "Base") }

-- `struct Derived: Base`.
abbrev two_structs : Registry
two_structs = record no_names {
  structs = (codes "Base", base_struct) ∷ (codes "Derived", derived_struct) ∷ [];
}

abbrev depth : Text → ℕ
depth k = if text_eq k (codes "Derived") then 1 else 0

abbrev name_or : Text → Option StructDef → Text
name_or k none = k
name_or k (some d) = d.name

abbrev base_or : Option StructDef → Option Text
base_or none = none
base_or (some d) = d.base

abbrev text_or : Option Text → Text
text_or none = []
text_or (some t) = t

-- What the registry of two structs finds.
found_two :
    (k : Text) (d : StructDef)
    → find_struct two_structs k ≡ some d
    → ((codes "Base" ≡ k) × (some base_struct ≡ some d))
      ⊎ ((codes "Derived" ≡ k) × (some derived_struct ≡ some d))
unfolding find_struct find
found_two k d h = elim (Bool-cases (text_eq (codes "Base") k)) [
  | inl e ↦ inl ((text_eq_iff (codes "Base") k).0 e, rw e at h)
  | inr e ↦ elim (Bool-cases (text_eq (codes "Derived") k)) [
    | inl f ↦ inr ((text_eq_iff (codes "Derived") k).0 f, rw (e, f) at h)
    | inr f ↦ ground (arith, rw (e, f) at h)
  ]
]

named_two : (k : Text) (d : StructDef) → find_struct two_structs k ≡ some d → d.name ≡ k
named_two k d h = elim (found_two k d h) [
  | inl (e, f) ↦ sym (ap (name_or []) f) ∙ e
  | inr (e, f) ↦ sym (ap (name_or []) f) ∙ e
]

falls_two :
    (k : Text) (d : StructDef) (b : Text)
    → find_struct two_structs k ≡ some d
    → d.base ≡ some b
    → depth b < depth k
unfolding text_eq
falls_two k d b h e = elim (found_two k d h) [
  | inl (same, f) ↦ ground (arith, ap base_or f ∙ e)
  | inr (same, f) ↦
      let up : codes "Base" ≡ b = ap text_or (ap base_or f ∙ e) in rw (← up, ← same) (omega arith)
]

is_base_of-Above_example :
    (is_base_of 2 two_structs (codes "Base") (codes "Derived") ≡ true)
    ↔ Above two_structs (codes "Base") (codes "Derived")
unfolding text_eq
is_base_of-Above_example =
    is_base_of-Above two_structs depth named_two falls_two 2 (codes "Base") (codes "Derived")
      (omega arith)

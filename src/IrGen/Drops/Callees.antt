-- ===== src/IrGen/Drops/Callees.antt =====
-- Which destructors the code of src/IRGen.cpp calls for a local.
use oxide_lang_reupload.Prelude.{
  ◌++◌, append_assoc, append-nil, Option, none, ℕ, Text, text_eq, List, [], ◌∷◌, some,
  if◌then◌else◌, Bool-cases, ◌≡◌, refl, sym, ◌∙◌, ap, inl, inr,
}
use oxide_lang_reupload.Prelude.Map.{Map}
use oxide_lang_reupload.Types.Base.{struct_, tag_eq}
use oxide_lang_reupload.Types.Registry.{Registry, StructDef}
use oxide_lang_reupload.Sema.Inherit.{levels}
use oxide_lang_reupload.IrGen.Drops.{
  Instr, is_called_drop, call_if, Output, drop_levels, emit_drop_for,
}
use oxide_lang_reupload.IrGen.Drops.Steps.{Local, drop_all}

-- The destructors that are called, each with the struct it is of.
abbrev pub callees : List Instr → List (Text × Text)
callees [] = []
callees (Instr.bitcast k host storage level ∷ is) = callees is
callees (Instr.call mangled level address ∷ is) = (mangled, level) ∷ callees is

callees-append : (xs ys : List Instr) → callees (xs ++ ys) ≡ callees xs ++ callees ys
callees-append [] ys = refl
callees-append (Instr.bitcast k host storage level ∷ xs) ys = callees-append xs ys
callees-append (Instr.call mangled level address ∷ xs) ys =
    ap (◌∷◌ (mangled, level)) (callees-append xs ys)

-- The destructor of a struct, where it has one.
abbrev own_destructor : Text → Option Text → List (Text × Text)
own_destructor level none = []
own_destructor level (some mangled) = (mangled, level) ∷ []

module _ (n : ℕ) (r : Registry) (methods : Map (Map Text)) where
  -- Those of a struct and of its bases, its own first.
  abbrev destructors : List StructDef → List (Text × Text)
  destructors [] = []
  destructors (d ∷ ds) =
      let bases = destructors ds in
      if d.has_drop then own_destructor d.name (is_called_drop methods d.name) ++ bases else bases

  abbrev pub destructors_of : Local → List (Text × Text)
  destructors_of l =
      if tag_eq l.type.tag struct_ then destructors (levels n r (some l.type.struct_name)) else []

  abbrev pub all_destructors : List Local → List (Text × Text)
  all_destructors [] = []
  all_destructors (l ∷ ls) = destructors_of l ++ all_destructors ls

  callees-call_if :
      (host storage level : Text) (m : Option Text) (o : Output)
      → callees (call_if n r methods host storage level m o).out
        ≡ callees o.out ++ own_destructor level m
  callees-call_if host storage level none o = sym (append-nil (callees o.out))
  callees-call_if host storage level (some mangled) o = elim (Bool-cases (text_eq level host)) [
    | inl e ↦ rw e (callees-append o.out _)
    | inr e ↦ rw e (callees-append o.out _)
  ]

  callees-drop_levels :
      (host storage : Text) (ds : List StructDef) (o : Output)
      → callees (drop_levels n r methods host storage ds o).out ≡ callees o.out ++ destructors ds
  unfolding drop_levels
  callees-drop_levels host storage [] o = sym (append-nil (callees o.out))
  callees-drop_levels host storage (d ∷ ds) o = elim (Bool-cases d.has_drop) [
    | inl e ↦
        let m = is_called_drop methods d.name in
        rw e (
          callees-drop_levels host storage ds (call_if n r methods host storage d.name m o)
          ∙ ap (λ x. x ++ destructors ds) (callees-call_if host storage d.name m o)
          ∙ append_assoc (callees o.out) (own_destructor d.name m) (destructors ds))
    | inr e ↦ rw e (callees-drop_levels host storage ds o)
  ]

  callees-emit_drop_for :
      (l : Local) (o : Output)
      → callees (emit_drop_for n r methods l.storage l.type o).out
        ≡ callees o.out ++ destructors_of l
  unfolding emit_drop_for
  callees-emit_drop_for l o = elim (Bool-cases (tag_eq l.type.tag struct_)) [
    | inl e ↦
        rw e (
          callees-drop_levels l.type.struct_name l.storage (levels n r (some l.type.struct_name)) o)
    | inr e ↦ rw e (sym (append-nil (callees o.out)))
  ]

  pub callees-drop_all :
      (ls : List Local) (o : Output)
      → callees (drop_all n r methods ls o).out ≡ callees o.out ++ all_destructors ls
  unfolding drop_all
  callees-drop_all [] o = sym (append-nil (callees o.out))
  callees-drop_all (l ∷ ls) o =
      callees-drop_all ls (emit_drop_for n r methods l.storage l.type o)
      ∙ ap (λ x. x ++ all_destructors ls) (callees-emit_drop_for l o)
      ∙ append_assoc (callees o.out) (destructors_of l) (all_destructors ls)

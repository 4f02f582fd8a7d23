-- ===== src/IrGen/Drops/Steps.antt =====
-- Blocks of declarations and moves for the drop lists of src/IRGen.cpp.
use oxide_lang_reupload.Prelude.{
  ℕ, Text, text_eq, any, All, List, [], ◌∷◌, Bool, true, false, ◌&&◌, if◌then◌else◌, ◌≡◌,
}
use oxide_lang_reupload.Prelude.Map.{Map}
use oxide_lang_reupload.Types.Base.{BType, struct_, tag_eq}
use oxide_lang_reupload.Types.Registry.{Registry}
use oxide_lang_reupload.IrGen.Drops.{
  Output, Gen, is_local, is_move_only_struct, declare_var, mark_moved_out, emit_drop_for,
}

pub record Local : Type 0 where
  pub name : Text
  pub storage : Text
  pub type : BType

-- Another name than those of the locals.
abbrev pub Fresh : Text → List Local → Type 0
Fresh name = All (λ l. text_eq name l.name ≡ false)

-- No two locals have the same name, and none is a global.
abbrev pub AreDistinct : List Local → Type 0
AreDistinct [] = Unit
AreDistinct (l ∷ ls) = Fresh l.name ls × (is_local l.storage ≡ true) × AreDistinct ls

-- What a statement of a block does to the locals: `moved x` is a move out of the local `x`, which
-- `let c = x` makes before it declares `c`.
pub data Step : Type 0 where
  declared : Local → Step
  moved : Text → Step

-- The locals that are declared, the last one first.
abbrev pub locals_of : List Step → List Local
locals_of [] = []
locals_of (Step.declared l ∷ ss) = l ∷ locals_of ss
locals_of (Step.moved x ∷ ss) = locals_of ss

abbrev pub without_local : Text → List Local → List Local
without_local x [] = []
without_local x (l ∷ ls) =
    let rest = without_local x ls in if text_eq l.name x then ls else l ∷ rest

-- The locals that still own their value.
abbrev pub live : List Step → List Local
live [] = []
live (Step.declared l ∷ ss) = l ∷ live ss
live (Step.moved x ∷ ss) = without_local x (live ss)

module _ (n : ℕ) (r : Registry) (methods : Map (Map Text)) where
  -- The statements of a block, the last one first.
  unfoldable pub run_steps : List Step → Gen → Gen
  unfolding declare_var mark_moved_out
  run_steps [] g = g
  run_steps (Step.declared l ∷ ss) g =
      declare_var n r methods l.name l.storage l.type (run_steps ss g)
  run_steps (Step.moved x ∷ ss) g = mark_moved_out x (run_steps ss g)

  -- The destructors of the locals, one after the other.
  unfoldable pub drop_all : List Local → Output → Output
  unfolding emit_drop_for
  drop_all [] o = o
  drop_all (l ∷ ls) o = drop_all ls (emit_drop_for n r methods l.storage l.type o)

  abbrev pub drops : Local → Bool
  drops l =
      tag_eq l.type.tag struct_
      && is_local l.storage
      && is_move_only_struct n r methods l.type.struct_name

  -- A local is moved while it owns a value with a destructor.
  abbrev pub AreMoves : List Step → Type 0
  AreMoves [] = Unit
  AreMoves (Step.declared l ∷ ss) = AreMoves ss
  AreMoves (Step.moved x ∷ ss) =
      (any (λ l. text_eq l.name x && drops l) (live ss) ≡ true) × AreMoves ss

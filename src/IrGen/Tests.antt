-- ===== src/IrGen/Tests.antt =====
-- The properties of the code generator at a concrete block.
use oxide_lang_reupload.Prelude.{
  Text, codes, text_eq, List, [], ◌∷◌, ◌++◌, some, true, false, ◌≡◌, refl,
}
use oxide_lang_reupload.Prelude.Map.{Map, find}
use oxide_lang_reupload.Types.Base.{BType, plain, i64, struct_}
use oxide_lang_reupload.Types.Registry.{Registry, StructDef, Pointer, empty_struct, find_struct}
use oxide_lang_reupload.Sema.Inherit.{levels}
use oxide_lang_reupload.IrGen.Drops.{
  Gen, Instr, Address, push_scope, pop_scope_with_drops, drop_levels, emit_drop_for,
  is_move_only_struct,
}
use oxide_lang_reupload.IrGen.Drops.Steps.{Local, Step, live, run_steps, drop_all}
use oxide_lang_reupload.IrGen.Drops.Callees.{callees, all_destructors}
use oxide_lang_reupload.IrGen.Drops.Blocks.{pop_scope_with_drops-drop_all}

abbrev file : StructDef
file = record (empty_struct (codes "File")) { has_drop = true }

abbrev log : StructDef
log = record (empty_struct (codes "Log")) { base = some (codes "File") }

-- `struct Log: File`, and `File` has a destructor.
abbrev types : Registry
types = record {
  generic_structs = [];
  generic_fns = [];
  aliases = [];
  ranges = [];
  concepts = [];
  structs = (codes "File", file) ∷ (codes "Log", log) ∷ [];
  enums = [];
}

abbrev methods : Map (Map Text)
methods = (codes "File", (codes "drop", codes "__oxm_File__drop") ∷ []) ∷ []

abbrev of_struct : Text → BType
of_struct name = record (plain struct_) { struct_name = name }

abbrev a_file : Local
a_file = record { name = codes "a"; storage = codes "%a"; type = of_struct (codes "File") }

abbrev a_number : Local
a_number = record { name = codes "i"; storage = codes "%i"; type = plain i64 }

abbrev a_log : Local
a_log = record { name = codes "b"; storage = codes "%b"; type = of_struct (codes "Log") }

abbrev a_copy : Local
a_copy = record { name = codes "c"; storage = codes "%c"; type = of_struct (codes "File") }

-- `{ let a: File; let i: i64; let b: Log; let c = a; }`, the last one first.
abbrev block : List Step
block =
    Step.declared a_copy
    ∷ Step.moved (codes "a")
    ∷ Step.declared a_log
    ∷ Step.declared a_number
    ∷ Step.declared a_file
    ∷ []

abbrev start : Gen
start = record {
  scopes = [] ∷ [];
  scope_drop_vars = [] ∷ [];
  suppress_drop = [];
  terminated = false;
  output = record { label_seq = 5; out = [] };
}

abbrev no_stmt : Pointer → Gen → Gen
no_stmt body g = g

dropped : drop_all 2 types methods (live block) start.output ≡ record {
  label_seq = 6;
  out =
      Instr.call (codes "__oxm_File__drop") (codes "File") (Address.slot (codes "%c"))
      ∷ Instr.bitcast 5 (codes "Log") (codes "%b") (codes "File")
      ∷ Instr.call (codes "__oxm_File__drop") (codes "File") (Address.cast 5)
      ∷ [];
}
unfolding drop_all emit_drop_for drop_levels levels find_struct find text_eq
dropped = refl

pop_scope_with_drops-drop_all_example :
    (pop_scope_with_drops 2 types methods no_stmt
        (run_steps 2 types methods block (push_scope start))
      ≡ record start { output = drop_all 2 types methods (live block) start.output })
    × (callees (drop_all 2 types methods (live block) start.output).out
        ≡ callees start.output.out ++ all_destructors 2 types methods (live block))
unfolding text_eq is_move_only_struct levels find_struct find
pop_scope_with_drops-drop_all_example =
    pop_scope_with_drops-drop_all 2 types methods no_stmt block start
      (
        (refl, (refl, (refl, tt))),
        refl,
        ((refl, (refl, tt)), refl, ((refl, tt), refl, (tt, refl, tt))),
      )
      (refl, tt) refl refl

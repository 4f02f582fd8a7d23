-- ===== src/IrGen/Drops.antt =====
-- src/IRGen.h, the scopes and drop lists, and the destructor calls of src/IRGen.cpp.
pub mod Steps
pub mod Callees
pub mod Blocks
use oxide_lang_reupload.Prelude.{
  ℕ, zero, suc, ◌-◌, length, Text, codes, text_eq, any, List, [], ◌∷◌, ◌++◌, Option, none, some,
  Bool, true, false, not, ◌&&◌, ◌||◌, ◌==◌, if◌then◌else◌,
}
use oxide_lang_reupload.Prelude.Map.{Map, find, assign}
use oxide_lang_reupload.Types.Base.{BType, struct_, void_, plain, tag_eq}
use oxide_lang_reupload.Types.Registry.{Registry, StructDef, Pointer, find_struct}
use oxide_lang_reupload.Sema.Inherit.{levels}

-- A local to destroy, or a `defer` body.
pub data DropEntry : Type 0 where
  var : Text → DropEntry
  defer : Pointer → DropEntry

-- The address passed to a destructor: the slot, or the result `%dropbc<n>` of a bitcast.
pub data Address : Type 0 where
  slot : Text → Address
  cast : ℕ → Address

-- `%dropbc<n> = bitcast <host>* <storage> to <level>*`, and `call void @<mangled>(<level>* <ptr>)`.
pub data Instr : Type 0 where
  bitcast : ℕ → Text → Text → Text → Instr
  call : Text → Text → Address → Instr

-- `labelSeq_` and the instructions written to `out_`.
pub record Output : Type 0 where
  pub label_seq : ℕ
  pub out : List Instr

-- The vectors have their backs first.
pub record Gen : Type 0 where
  pub scopes : List (Map (Text × BType))
  pub scope_drop_vars : List (List DropEntry)
  pub suppress_drop : List Text
  pub terminated : Bool
  pub output : Output

unfoldable pub find_var_in : List (Map (Text × BType)) → Text → Text × BType
find_var_in [] name = ([], plain void_)
find_var_in (s ∷ ss) name =
    let outer = find_var_in ss name in elim (find name s) [ none ↦ outer | some l ↦ l ]

unfoldable pub push_scope : Gen → Gen
push_scope g = record g { scopes = [] ∷ g.scopes; scope_drop_vars = [] ∷ g.scope_drop_vars }

abbrev pub rest_of {ℓ} : {A : Type ℓ} → List A → List A
rest_of [] = []
rest_of (x ∷ xs) = xs

-- Both vectors are as long, and not empty.
unfoldable pub pop_scope : Gen → Gen
pop_scope g = record g { scopes = rest_of g.scopes; scope_drop_vars = rest_of g.scope_drop_vars }

abbrev pub is_var : Text → DropEntry → Bool
is_var name (var x) = text_eq x name
is_var name (defer body) = false

-- Storage that is no global: globals start with `@`.
abbrev pub is_local : Text → Bool
is_local [] = false
is_local (c ∷ s) = not (c == 64)

abbrev pub add_drop : Text → List DropEntry → List DropEntry
add_drop name dv = if any (is_var name) dv then dv else var name ∷ dv

abbrev pub on_back {ℓ} : {A : Type ℓ} → (A → A) → List A → List A
on_back f [] = []
on_back f (x ∷ xs) = f x ∷ xs

abbrev pub is_called_drop : Map (Map Text) → Text → Option Text
is_called_drop methods sn = elim (find sn methods) [ none ↦ none | some m ↦ find (codes "drop") m ]

-- `r` is the registry of structs, `n` a bound on the chains of base pointers, and `methods` has the
-- mangled name of each method.
module _ (n : ℕ) (r : Registry) (methods : Map (Map Text)) where
  -- Some level of the base chain has a destructor (`declareVar`, `isMoveOnlyStruct`).
  unfoldable pub is_move_only_struct : Text → Bool
  unfolding levels
  is_move_only_struct sn = any (λ d. d.has_drop) (levels n r (some sn))

  unfoldable pub declare_var : Text → Text → BType → Gen → Gen
  unfolding is_move_only_struct
  declare_var name storage t g =
      let drop = tag_eq t.tag struct_ && is_local storage && is_move_only_struct t.struct_name in
      record g {
        scopes = on_back (assign name (storage, t)) g.scopes;
        scope_drop_vars =
            if drop then on_back (add_drop name) g.scope_drop_vars else g.scope_drop_vars;
      }

  -- The call for one level of the chain.
  abbrev pub call_drop : Text → Text → Text → Text → Output → Output
  call_drop host storage level mangled o =
      if text_eq level host
      then record o { out = o.out ++ call mangled level (slot storage) ∷ [] }
      else record {
        label_seq = suc o.label_seq;
        out =
            o.out
            ++ bitcast o.label_seq host storage level ∷ call mangled level (cast o.label_seq) ∷ [];
      }

  abbrev pub call_if : Text → Text → Text → Option Text → Output → Output
  call_if host storage level none o = o
  call_if host storage level (some mangled) o = call_drop host storage level mangled o

  -- The loop over the levels, the most derived first.
  unfoldable pub drop_levels : Text → Text → List StructDef → Output → Output
  drop_levels host storage [] o = o
  drop_levels host storage (d ∷ ds) o =
      drop_levels host storage ds
        (if d.has_drop then call_if host storage d.name (is_called_drop methods d.name) o else o)

  unfoldable pub emit_drop_for : Text → BType → Output → Output
  unfolding drop_levels levels
  emit_drop_for storage t o =
      if tag_eq t.tag struct_
      then drop_levels t.struct_name storage (levels n r (some t.struct_name)) o
      else o

  abbrev pub emit_local : Option (Text × BType) → Output → Output
  emit_local none o = o
  emit_local (some (storage, t)) o = emit_drop_for storage t o

  -- `gen_stmt` generates the code of a statement.
  module _ (gen_stmt : Pointer → Gen → Gen) where
    unfoldable pub emit_defer : Pointer → Gen → Gen
    emit_defer body g = record (gen_stmt body (record g { terminated = false })) {
      terminated = g.terminated;
    }

    -- The loop over a scope's drop list.
    unfoldable pub emit_entries : Map (Text × BType) → List DropEntry → Gen → Gen
    unfolding emit_defer emit_drop_for
    emit_entries vars [] g = g
    emit_entries vars (var x ∷ dv) g = emit_entries vars dv (
        if any (text_eq x) g.suppress_drop
        then g
        else record g { output = emit_local (find x vars) g.output })
    emit_entries vars (defer body ∷ dv) g = emit_entries vars dv (emit_defer body g)

    abbrev pub scope_drops : List (Map (Text × BType)) → List (List DropEntry) → Gen → Gen
    scope_drops (vars ∷ ss) (dv ∷ dvs) g = emit_entries vars dv g
    scope_drops _ _ g = g

    -- The loop of `emitScopeUnwind` over `count` scopes, the innermost first.
    unfoldable pub emit_scopes : ℕ → List (Map (Text × BType)) → List (List DropEntry) → Gen → Gen
    unfolding emit_entries
    emit_scopes zero ss dvs g = g
    emit_scopes (suc count) ss dvs g =
        emit_scopes count (rest_of ss) (rest_of dvs) (scope_drops ss dvs g)

    unfoldable pub emit_scope_unwind : ℕ → Gen → Gen
    unfolding emit_scopes
    emit_scope_unwind to g =
        emit_scopes (length g.scope_drop_vars - to) g.scopes g.scope_drop_vars g

    unfoldable pub pop_scope_with_drops : Gen → Gen
    unfolding emit_entries pop_scope
    pop_scope_with_drops g =
        pop_scope (if g.terminated then g else scope_drops g.scopes g.scope_drop_vars g)

abbrev pub without_var : Text → List DropEntry → List DropEntry
without_var name [] = []
without_var name (e ∷ dv) = let rest = without_var name dv in if is_var name e then dv else e ∷ rest

-- The first entry of the name is taken out of the innermost list. It is the only one: `declareVar`
-- adds no name twice.
unfoldable pub exclude_drop : Text → Gen → Gen
exclude_drop name g = record g { scope_drop_vars = on_back (without_var name) g.scope_drop_vars }

-- The first list with the name, from the innermost scope outwards, loses its entry.
abbrev pub take_out : Text → List (List DropEntry) → List (List DropEntry)
take_out name [] = []
take_out name (dv ∷ dvs) =
    let outer = take_out name dvs in
    if any (is_var name) dv then without_var name dv ∷ dvs else dv ∷ outer

unfoldable pub mark_moved_out : Text → Gen → Gen
mark_moved_out name g = record g { scope_drop_vars = take_out name g.scope_drop_vars }

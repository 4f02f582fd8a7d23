-- ===== src/Types/Tables/Growth.antt =====
-- How the tables of src/Types.cpp evolve over constructor calls.
use oxide_lang_reupload.Prelude.{
  Text, ◌≡◌, sym, ◌∙◌, Bool, List, [], ◌++◌, append_assoc, append-nil,
}
use oxide_lang_reupload.Prelude.Int.{ℤ}
use oxide_lang_reupload.Types.Base.{BType, btype_eq}
use oxide_lang_reupload.Types.Tables.{
  Tables, FnSig, GenericInst, intern_type, make_array_type, make_dyn_array, make_ptr, make_set_type,
  make_hset_type, make_channel_type, make_map_type, make_hmap_type, make_fn_type, make_generic_inst,
  same_sig, same_inst,
}
use oxide_lang_reupload.Types.Tables.Intern.{intern_extends}

-- One call of a constructor.
pub data Step : Tables → Tables → Type 0 where
  array : (e : BType) (n : ℤ) (s : Tables) → Step s (make_array_type e n s).0
  dyn_array : (e : BType) (s : Tables) → Step s (make_dyn_array e s).0
  ptr : (e : BType) (s : Tables) → Step s (make_ptr e s).0
  set : (e : BType) (s : Tables) → Step s (make_set_type e s).0
  hset : (e : BType) (s : Tables) → Step s (make_hset_type e s).0
  channel : (e : BType) (s : Tables) → Step s (make_channel_type e s).0
  map_ : (k v : BType) (s : Tables) → Step s (make_map_type k v s).0
  hmap : (k v : BType) (s : Tables) → Step s (make_hmap_type k v s).0
  fn : (ps : List BType) (r : BType) (s : Tables) → Step s (make_fn_type ps r s).0
  generic :
      (b : Text) (as' : List BType) (f : Bool) (s : Tables) → Step s (make_generic_inst b as' f s).0

-- Any number of calls.
pub data Reach (s : Tables) : Tables → Type 0 where
  here : Reach s s
  next : {t u : Tables} → Reach s t → Step t u → Reach s u

-- Each table of the first state is a prefix of the second's.
pub record Extends (s t : Tables) : Type 0 where
  pub types : (more : List BType) × (t.types ≡ s.types ++ more)
  pub fn_sigs : (more : List FnSig) × (t.fn_sigs ≡ s.fn_sigs ++ more)
  pub generic_insts : (more : List GenericInst) × (t.generic_insts ≡ s.generic_insts ++ more)

abbrev nothing {ℓ} : {A : Type ℓ} (l : List A) → (more : List A) × (l ≡ l ++ more)
nothing l = ([], sym (append-nil l))

pub Extends-refl : (s : Tables) → Extends s s
Extends-refl s = record {
  types = nothing s.types;
  fn_sigs = nothing s.fn_sigs;
  generic_insts = nothing s.generic_insts;
}

append_twice {ℓ} :
    {A : Type ℓ} (a b c : List A)
    → (m : List A) × (b ≡ a ++ m)
    → (m : List A) × (c ≡ b ++ m)
    → (m : List A) × (c ≡ a ++ m)
append_twice a b c (m, p) (n, q) = (m ++ n, q ∙ rw p (append_assoc a m n))

pub Extends-trans : {s t u : Tables} → Extends s t → Extends t u → Extends s u
Extends-trans h k = record {
  types = append_twice _ _ _ h.types k.types;
  fn_sigs = append_twice _ _ _ h.fn_sigs k.fn_sigs;
  generic_insts = append_twice _ _ _ h.generic_insts k.generic_insts;
}

pub intern_type-Extends : (e : BType) (s : Tables) → Extends s (intern_type e s).0
unfolding intern_type
intern_type-Extends e s = record {
  types = intern_extends (λ y. btype_eq y e) e s.types;
  fn_sigs = nothing s.fn_sigs;
  generic_insts = nothing s.generic_insts;
}

Step-Extends : {s t : Tables} → Step s t → Extends s t
unfolding make_array_type make_dyn_array make_ptr make_set_type make_hset_type make_channel_type
    make_map_type make_hmap_type make_fn_type make_generic_inst
Step-Extends (array e n s) = intern_type-Extends e s
Step-Extends (dyn_array e s) = intern_type-Extends e s
Step-Extends (ptr e s) = intern_type-Extends e s
Step-Extends (set e s) = intern_type-Extends e s
Step-Extends (hset e s) = intern_type-Extends e s
Step-Extends (channel e s) = intern_type-Extends e s
Step-Extends (map_ k v s) =
    Extends-trans (intern_type-Extends k s) (intern_type-Extends v (intern_type k s).0)
Step-Extends (hmap k v s) =
    Extends-trans (intern_type-Extends k s) (intern_type-Extends v (intern_type k s).0)
Step-Extends (fn ps r s) = record {
  types = nothing s.types;
  fn_sigs = intern_extends (same_sig ps r) (record { params = ps; ret = r }) s.fn_sigs;
  generic_insts = nothing s.generic_insts;
}
Step-Extends (generic b as' f s) = record {
  types = nothing s.types;
  fn_sigs = nothing s.fn_sigs;
  generic_insts =
      intern_extends (same_inst b as' f) (record { base = b; args = as'; is_fn = f })
        s.generic_insts;
}

pub Reach-Extends : {s t : Tables} → Reach s t → Extends s t
Reach-Extends {s} here = Extends-refl s
Reach-Extends (next r st) = Extends-trans (Reach-Extends r) (Step-Extends st)

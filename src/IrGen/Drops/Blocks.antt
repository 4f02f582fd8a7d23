-- ===== src/IrGen/Drops/Blocks.antt =====
-- The destructors that run where a block ends.
use oxide_lang_reupload.Prelude.{
  ◌++◌, ℕ, Text, text_eq, text_eq_iff, text_eq_refl, any, All, List, [], ◌∷◌, some, Bool, true,
  false, ◌&&◌, if◌then◌else◌, Bool-cases, ◌≡◌, refl, sym, ◌∙◌, ap, subst, inl, inr, arith,
}
use oxide_lang_reupload.Prelude.Map.{Map, find, assign, find-assign}
use oxide_lang_reupload.Types.Base.{BType, struct_, tag_eq}
use oxide_lang_reupload.Types.Registry.{Registry, StructDef, Pointer}
use oxide_lang_reupload.Sema.Inherit.{levels}
use oxide_lang_reupload.IrGen.Drops.{
  DropEntry, var, Output, Gen, push_scope, pop_scope, is_var, is_local, add_drop, on_back,
  is_move_only_struct, declare_var, without_var, take_out, mark_moved_out, drop_levels,
  emit_drop_for, emit_local, emit_entries, pop_scope_with_drops,
}
use oxide_lang_reupload.IrGen.Drops.Steps.{
  Local, Fresh, AreDistinct, Step, locals_of, without_local, live, run_steps, drop_all, drops,
  AreMoves,
}
use oxide_lang_reupload.IrGen.Drops.Callees.{callees, all_destructors, callees-drop_all}

unequal_bools : ¬ (false ≡ true)
unequal_bools h = ground arith

module _ (n : ℕ) (r : Registry) (methods : Map (Map Text)) where
  abbrev vars_of : List Local → Map (Text × BType)
  vars_of [] = []
  vars_of (l ∷ ls) = assign l.name (l.storage, l.type) (vars_of ls)

  abbrev drops_of : List Local → List DropEntry
  drops_of [] = []
  drops_of (l ∷ ls) = if drops n r methods l then add_drop l.name (drops_of ls) else drops_of ls

  if_back :
      (b : Bool) (name : Text) (dv : List DropEntry) (dvs : List (List DropEntry))
      → (if b then on_back (add_drop name) (dv ∷ dvs) else dv ∷ dvs)
        ≡ (if b then add_drop name dv else dv) ∷ dvs
  if_back true name dv dvs = refl
  if_back false name dv dvs = refl

  no_swap : (a b : Text) → text_eq a b ≡ false → text_eq b a ≡ false
  no_swap a b h = elim (Bool-cases (text_eq b a)) [
    | inl e ↦ cc ((text_eq_iff b a).0 e, text_eq_refl a, h)
    | inr e ↦ e
  ]

  add_drop-fresh :
      (name x : Text) (dv : List DropEntry)
      → text_eq name x ≡ false
      → any (is_var name) dv ≡ false
      → any (is_var name) (add_drop x dv) ≡ false
  add_drop-fresh name x dv f h = elim (Bool-cases (any (is_var x) dv)) [
    | inl e ↦ rw e h
    | inr e ↦ rw (e, no_swap name x f) h
  ]

  Fresh-drops_of :
      (name : Text) (ls : List Local) → Fresh name ls → any (is_var name) (drops_of ls) ≡ false
  Fresh-drops_of name [] f = refl
  Fresh-drops_of name (l ∷ ls) (f, fs) = elim (Bool-cases (drops n r methods l)) [
    | inl e ↦ rw e (add_drop-fresh name l.name (drops_of ls) f (Fresh-drops_of name ls fs))
    | inr e ↦ rw e (Fresh-drops_of name ls fs)
  ]

  without_local-All :
      (P : Local → Type 0) (x : Text) (ls : List Local) → All P ls → All P (without_local x ls)
  without_local-All P x [] f = tt
  without_local-All P x (l ∷ ls) (f, fs) = elim (Bool-cases (text_eq l.name x)) [
    | inl e ↦ rw e fs
    | inr e ↦ rw e (f, without_local-All P x ls fs)
  ]

  live-All : (P : Local → Type 0) (ss : List Step) → All P (locals_of ss) → All P (live ss)
  live-All P [] f = tt
  live-All P (Step.declared l ∷ ss) (f, fs) = (f, live-All P ss fs)
  live-All P (Step.moved x ∷ ss) f = without_local-All P x (live ss) (live-All P ss f)

  without_local-Fresh :
      (name x : Text) (ls : List Local) → Fresh name ls → Fresh name (without_local x ls)
  without_local-Fresh name x ls f = without_local-All (λ l. text_eq name l.name ≡ false) x ls f

  without_local-AreDistinct :
      (x : Text) (ls : List Local) → AreDistinct ls → AreDistinct (without_local x ls)
  without_local-AreDistinct x [] d = tt
  without_local-AreDistinct x (l ∷ ls) (f, k, d) = elim (Bool-cases (text_eq l.name x)) [
    | inl e ↦ rw e d
    | inr e ↦ rw e (without_local-Fresh l.name x ls f, k, without_local-AreDistinct x ls d)
  ]

  live-AreDistinct : (ss : List Step) → AreDistinct (locals_of ss) → AreDistinct (live ss)
  live-AreDistinct [] d = tt
  live-AreDistinct (Step.declared l ∷ ss) (f, k, d) =
      (live-All (λ q. text_eq l.name q.name ≡ false) ss f, k, live-AreDistinct ss d)
  live-AreDistinct (Step.moved x ∷ ss) d =
      without_local-AreDistinct x (live ss) (live-AreDistinct ss d)

  none_named :
      (x : Text) (ls : List Local)
      → Fresh x ls
      → any (λ l. text_eq l.name x && drops n r methods l) ls ≡ false
  none_named x [] f = refl
  none_named x (l ∷ ls) (f, fs) = rw (no_swap x l.name f) (none_named x ls fs)

  without_local-drops_of :
      (x : Text) (ls : List Local)
      → AreDistinct ls
      → any (λ l. text_eq l.name x && drops n r methods l) ls ≡ true
      → (any (is_var x) (drops_of ls) ≡ true)
        × (without_var x (drops_of ls) ≡ drops_of (without_local x ls))
  without_local-drops_of x [] d h = absurd (ground (arith, h))
  without_local-drops_of x (l ∷ ls) (f, k, d) h = elim (Bool-cases (text_eq l.name x)) [
    | inl e ↦ elim (Bool-cases (drops n r methods l)) [
      | inl a ↦ rw (a, Fresh-drops_of l.name ls f, e) (refl, refl)
      | inr a ↦
          let missing = none_named l.name ls f in
          let same = (text_eq_iff l.name x).0 e in
          absurd (
            unequal_bools (
              sym (
                subst (λ y. any (λ q. text_eq q.name y && drops n r methods q) ls ≡ false) same
                  missing)
              ∙ (rw (e, a) at h)))
    ]
    | inr e ↦
        let (p, q) = without_local-drops_of x ls d (rw e at h) in
        elim (Bool-cases (drops n r methods l)) [
          | inl a ↦
              rw (a, Fresh-drops_of l.name ls f, e)
                (rw
                  (
                    a,
                    Fresh-drops_of l.name (without_local x ls) (without_local-Fresh l.name x ls f),
                  )
                  (p, ap (◌∷◌ (var l.name)) q))
          | inr a ↦ rw (a, e) (rw a (p, q))
        ]
  ]

  ran :
      (ss : List Step) (g : Gen)
      → AreDistinct (locals_of ss)
      → AreMoves n r methods ss
      → run_steps n r methods ss (push_scope g) ≡ record g {
        scopes = vars_of (locals_of ss) ∷ g.scopes;
        scope_drop_vars = drops_of (live ss) ∷ g.scope_drop_vars;
      }
  unfolding run_steps declare_var push_scope mark_moved_out
  ran [] g d m = refl
  ran (Step.declared l ∷ ss) g (f, k, d) m =
      ap (declare_var n r methods l.name l.storage l.type) (ran ss g d m)
      ∙ ap (λ v. record g { scopes = vars_of (l ∷ locals_of ss) ∷ g.scopes; scope_drop_vars = v })
          (if_back (drops n r methods l) l.name (drops_of (live ss)) g.scope_drop_vars)
  ran (Step.moved x ∷ ss) g d (here, m) =
      let (p, q) = without_local-drops_of x (live ss) (live-AreDistinct ss d) here in
      let after : List (List DropEntry) → Gen =
        λ v. record g { scopes = vars_of (locals_of ss) ∷ g.scopes; scope_drop_vars = v } in
      ap (mark_moved_out x) (ran ss g d m)
      ∙ ap
          (λ b. after (
            if b
            then without_var x (drops_of (live ss)) ∷ g.scope_drop_vars
            else drops_of (live ss) ∷ take_out x g.scope_drop_vars))
          p
      ∙ ap (λ v. after (v ∷ g.scope_drop_vars)) q

  abbrev Bound : Map (Text × BType) → List Local → Type 0
  Bound m = All (λ (l : Local). find l.name m ≡ some (l.storage, l.type))

  Fresh-Bound :
      (name : Text) (v : Text × BType) (m : Map (Text × BType)) (ls : List Local)
      → Fresh name ls
      → Bound m ls
      → Bound (assign name v m) ls
  Fresh-Bound name v m [] f b = tt
  Fresh-Bound name v m (l ∷ ls) (f, fs) (b, bs) =
      (rw (find-assign name l.name v m, f) b, Fresh-Bound name v m ls fs bs)

  vars_of-Bound : (ls : List Local) → AreDistinct ls → Bound (vars_of ls) ls
  vars_of-Bound [] d = tt
  vars_of-Bound (l ∷ ls) (f, s, d) = (
    rw (find-assign l.name l.name (l.storage, l.type) (vars_of ls), text_eq_refl l.name) refl,
    Fresh-Bound l.name (l.storage, l.type) (vars_of ls) ls f (vars_of-Bound ls d),
  )

  -- A struct without a destructor at any level emits nothing.
  drop_levels-none :
      (host storage : Text) (ds : List StructDef) (o : Output)
      → any (λ d. d.has_drop) ds ≡ false
      → drop_levels n r methods host storage ds o ≡ o
  unfolding drop_levels
  drop_levels-none host storage [] o h = refl
  drop_levels-none host storage (d ∷ ds) o h = elim (Bool-cases d.has_drop) [
    | inl e ↦ absurd (unequal_bools (sym h ∙ rw e refl))
    | inr e ↦ rw e (drop_levels-none host storage ds o (rw e at h))
  ]

  emit_drop_for-none :
      (l : Local) (o : Output)
      → is_local l.storage ≡ true
      → drops n r methods l ≡ false
      → emit_drop_for n r methods l.storage l.type o ≡ o
  unfolding emit_drop_for is_move_only_struct
  emit_drop_for-none l o s h = elim (Bool-cases (tag_eq l.type.tag struct_)) [
    | inl e ↦ rw e (
        drop_levels-none l.type.struct_name l.storage (levels n r (some l.type.struct_name)) o
          (rw (e, s) at h))
    | inr e ↦ rw e refl
  ]

  module _ (gen_stmt : Pointer → Gen → Gen) where
    emit_entries-drop_all :
        (m : Map (Text × BType)) (ls : List Local) (g : Gen)
        → AreDistinct ls
        → Bound m ls
        → g.suppress_drop ≡ []
        → emit_entries n r methods gen_stmt m (drops_of ls) g
          ≡ record g { output = drop_all n r methods ls g.output }
    unfolding emit_entries drop_all
    emit_entries-drop_all m [] g d b s = refl
    emit_entries-drop_all m (l ∷ ls) g (f, k, d) (b, bs) s =
        elim (Bool-cases (drops n r methods l)) [
          | inl e ↦
              let x = l.name in
              let dv = drops_of ls in
              let emit = emit_entries n r methods gen_stmt m in
              let o = emit_drop_for n r methods l.storage l.type g.output in
              ap (λ a. emit (if a then add_drop x dv else dv) g) e
              ∙ ap (λ a. emit (if a then dv else var x ∷ dv) g) (Fresh-drops_of x ls f)
              ∙ ap
                  (λ q. emit dv (
                    if any (text_eq x) q
                    then g
                    else record g { output = emit_local n r methods (find x m) g.output }))
                  s
              ∙ ap (λ q. emit dv (record g { output = emit_local n r methods q g.output })) b
              ∙ emit_entries-drop_all m ls (record g { output = o }) d bs s
          | inr e ↦
              ap
                (λ a.
                  emit_entries n r methods gen_stmt m
                    (if a then add_drop l.name (drops_of ls) else drops_of ls) g)
                e
              ∙ emit_entries-drop_all m ls g d bs s
              ∙ ap (λ o. record g { output = drop_all n r methods ls o })
                  (sym (emit_drop_for-none l g.output k e))
        ]

    -- The end of a block runs the destructors of the locals that still own their value, each once,
    -- the last one declared first: after a block that declares locals of different names and moves
    -- some of them out, each at most once and only where its type has a destructor, with no `defer`,
    -- where the block does not end in a jump and no local is moved into a return value, the scopes are
    -- those before the block, and what was emitted is the destructor calls of the locals that were
    -- not moved, in the reverse of their order: for each local of a struct type, the destructor of
    -- the struct and then those of its bases, the nearest first, where they have one.
    pub pop_scope_with_drops-drop_all :
        (ss : List Step) (g : Gen)
        → AreDistinct (locals_of ss)
        → AreMoves n r methods ss
        → g.suppress_drop ≡ []
        → g.terminated ≡ false
        → (pop_scope_with_drops n r methods gen_stmt (run_steps n r methods ss (push_scope g))
            ≡ record g { output = drop_all n r methods (live ss) g.output })
          × (callees (drop_all n r methods (live ss) g.output).out
              ≡ callees g.output.out ++ all_destructors n r methods (live ss))
    unfolding pop_scope_with_drops pop_scope
    pop_scope_with_drops-drop_all ss g d m s t =
        let vars = vars_of (locals_of ss) in
        let inside : Gen = record g {
          scopes = vars ∷ g.scopes;
          scope_drop_vars = drops_of (live ss) ∷ g.scope_drop_vars;
        } in
        let emitted = emit_entries n r methods gen_stmt vars (drops_of (live ss)) inside in
        let bound =
          live-All (λ l. find l.name vars ≡ some (l.storage, l.type)) ss
            (vars_of-Bound (locals_of ss) d) in
        (
          ap (pop_scope_with_drops n r methods gen_stmt) (ran ss g d m)
              ∙ ap (λ a. pop_scope (if a then inside else emitted)) t
              ∙ ap pop_scope
                  (emit_entries-drop_all vars (live ss) inside (live-AreDistinct ss d) bound s),
          callees-drop_all n r methods (live ss) g.output,
        )

-- ===== src/Sema/Scopes/Blocks.antt =====
-- What a block of src/Sema.cpp leaves behind: the sequences of scope operations between a
-- `pushScope` and its `popScope`.
use oxide_lang_reupload.Prelude.{
  Text, text_eq, text_eq_refl, any, List, [], ◌∷◌, ◌++◌, append_assoc, append-nil, Option, none,
  some, Bool, true, false, not, ◌&&◌, if◌then◌else◌, Bool-cases, ◌≡◌, refl, sym, ◌∙◌, ap, subst,
  inl, inr,
}
use oxide_lang_reupload.Prelude.Map.{find, assign, find-assign}
use oxide_lang_reupload.Types.Registry.{Registry, is_some}
use oxide_lang_reupload.Sema.Scopes.{
  Scope, Scopes, SemanticError, Declaration, empty_scope, push_scope, pop_scope, declare, err_at,
  record_drop_local, entry_of, redeclaration,
}
use oxide_lang_reupload.Sema.Scopes.Refinement.{Op, push, pop, bind, drops, step, run, and_then}

-- Every scope opened is closed, and no scope is closed that was open before.
pub data Balanced : List Op → Type 0 where
  nothing : Balanced []
  binding : {d : Declaration} {os : List Op} → Balanced os → Balanced (bind d ∷ os)
  dropping : {n : Text} {os : List Op} → Balanced os → Balanced (drops n ∷ os)
  block : {os ps : List Op} → Balanced os → Balanced ps → Balanced (push ∷ os ++ pop ∷ ps)

and_then-run :
    (r : Registry) (os ps : List Op)
    → ((st : Scopes) → run r (os ++ ps) st ≡ and_then (run r ps) (run r os st))
    → (o : Option Scopes)
    → and_then (run r (os ++ ps)) o ≡ and_then (run r ps) (and_then (run r os) o)
and_then-run r os ps h none = refl
and_then-run r os ps h (some st) = h st

run-append :
    (r : Registry) (os ps : List Op) (st : Scopes)
    → run r (os ++ ps) st ≡ and_then (run r ps) (run r os st)
unfolding run
run-append r [] ps st = refl
run-append r (o ∷ os) ps st = and_then-run r os ps (run-append r os ps) (step r o st)

-- No name of the first scope is missing in the second.
abbrev Keeps : Scope → Scope → Type 0
Keeps s t = (name : Text) → is_some (find name s.vars) ≡ true → is_some (find name t.vars) ≡ true

-- A run that changes the innermost scope only, where it keeps every name, and adds to the errors.
abbrev Changes : Registry → List Op → Scope → List Scope → List SemanticError → Scopes → Type 0
Changes r os s ss errs st =
    (t : Scope) × (new : List SemanticError) × (run r os st
      ≡ some (record { scopes = t ∷ ss; errs = errs ++ new }))
    × Keeps s t

-- Errors added before the run are added by it.
earlier_errs :
    (r : Registry) (os : List Op) (s t : Scope) (ss : List Scope)
    (errs extra errs' : List SemanticError)
    → errs' ≡ errs ++ extra
    → Keeps s t
    → Changes r os t ss errs' (record { scopes = t ∷ ss; errs = errs' })
    → Changes r os s ss errs (record { scopes = t ∷ ss; errs = errs' })
earlier_errs r os s t ss errs extra errs' e k (u, new, f, l) = (
  u,
  extra ++ new,
  f
      ∙ ap (λ z. some (record { scopes = u ∷ ss; errs = z }))
          (ap (λ z. z ++ new) e ∙ append_assoc errs extra new),
  λ name h. l name (k name h),
)

if-append :
    (b : Bool) (errs extra : List SemanticError)
    → (if b then errs ++ extra else errs) ≡ errs ++ (if b then extra else [])
if-append true errs extra = refl
if-append false errs extra = sym (append-nil errs)

assign-Keeps :
    (r : Registry) (d : Declaration) (s : Scope)
    → Keeps s (record s { vars = assign d.name (entry_of r d) s.vars })
assign-Keeps r d s name h = elim (Bool-cases (text_eq d.name name)) [
  | inl k ↦ rw (find-assign d.name name (entry_of r d) s.vars, k) refl
  | inr k ↦ rw (find-assign d.name name (entry_of r d) s.vars, k) h
]

record-Keeps :
    (n : Text) (s : Scope)
    → Keeps s
        (if any (text_eq n) s.drop_vars then s else record s { drop_vars = s.drop_vars ++ n ∷ [] })
record-Keeps n s name h = elim (Bool-cases (any (text_eq n) s.drop_vars)) [
  | inl k ↦ rw k h
  | inr k ↦ rw k h
]

-- The run of a block and of what follows it, from the runs of both.
block-run :
    (r : Registry) (os ps : List Op) (s : Scope) (ss : List Scope) (errs : List SemanticError)
    → Changes r os empty_scope (s ∷ ss) errs (record { scopes = empty_scope ∷ s ∷ ss; errs = errs })
    → ((errs' : List SemanticError)
        → Changes r ps s ss errs' (record { scopes = s ∷ ss; errs = errs' }))
    → Changes r (push ∷ os ++ pop ∷ ps) s ss errs (record { scopes = s ∷ ss; errs = errs })
unfolding run step push_scope pop_scope
block-run r os ps s ss errs (t, new, e, k) h =
    let (u, more, f, l) =
      earlier_errs r ps s s ss errs new (errs ++ new) refl (λ name p. p) (h (errs ++ new)) in
    (
      u,
      more,
      run-append r os (pop ∷ ps) (record { scopes = empty_scope ∷ s ∷ ss; errs = errs })
          ∙ ap (and_then (run r (pop ∷ ps))) e
          ∙ f,
      l,
    )

Balanced-Changes :
    (r : Registry) {os : List Op}
    → Balanced os
    → (s : Scope) (ss : List Scope) (errs : List SemanticError)
    → Changes r os s ss errs (record { scopes = s ∷ ss; errs = errs })
unfolding run step push_scope pop_scope declare record_drop_local err_at
Balanced-Changes r nothing s ss errs = (
  s,
  [],
  ap (λ e. some (record { scopes = s ∷ ss; errs = e })) (sym (append-nil errs)),
  λ name h. h,
)
Balanced-Changes r (binding {d = d} {os = os} b) s ss errs =
    let t : Scope = record s { vars = assign d.name (entry_of r d) s.vars } in
    let clash = not d.allow_redecl && is_some (find d.name s.vars) in
    let extra : List SemanticError =
      record { msg = redeclaration d.name; line = d.line; col = 0; hint = [] } ∷ [] in
    earlier_errs r os s t ss errs (if clash then extra else [])
      (if clash then errs ++ extra else errs) (if-append clash errs extra) (assign-Keeps r d s)
      (Balanced-Changes r b t ss (if clash then errs ++ extra else errs))
Balanced-Changes r (dropping {n = n} {os = os} b) s ss errs =
    let t : Scope =
      if any (text_eq n) s.drop_vars then s else record s { drop_vars = s.drop_vars ++ n ∷ [] } in
    earlier_errs r os s t ss errs [] errs (sym (append-nil errs)) (record-Keeps n s)
      (Balanced-Changes r b t ss errs)
Balanced-Changes r (block {os = os} {ps = ps} b c) s ss errs =
    block-run r os ps s ss errs (Balanced-Changes r b empty_scope (s ∷ ss) errs)
      (Balanced-Changes r c s ss)

-- A block leaves no name behind: whatever is declared, dropped, opened and closed inside, the scopes
-- after it are those before it, the run is defined, and the errors before it are kept.
pub block-scopes :
    (r : Registry) {os : List Op}
    → Balanced os
    → (st : Scopes)
    → (new : List SemanticError) × (run r (push ∷ os ++ pop ∷ []) st
        ≡ some (record st { errs = st.errs ++ new }))
unfolding run step push_scope pop_scope
block-scopes r {os} b st =
    let (t, new, e, k) = Balanced-Changes r b empty_scope st.scopes st.errs in
    (
      new,
      run-append r os (pop ∷ []) (record { scopes = empty_scope ∷ st.scopes; errs = st.errs })
          ∙ ap (and_then (run r (pop ∷ []))) e,
    )

assign-found :
    (r : Registry) (d : Declaration) (s : Scope)
    → is_some (find d.name (assign d.name (entry_of r d) s.vars)) ≡ true
assign-found r d s = rw (find-assign d.name d.name (entry_of r d) s.vars, text_eq_refl d.name) refl

clash-report :
    (r : Registry) (e : Declaration) (u : Scope) (ss : List Scope) (errs : List SemanticError)
    → e.allow_redecl ≡ false
    → is_some (find e.name u.vars) ≡ true
    → run r (bind e ∷ []) (record { scopes = u ∷ ss; errs = errs })
      ≡ some (record {
        scopes = record u { vars = assign e.name (entry_of r e) u.vars } ∷ ss;
        errs =
            errs ++ record { msg = redeclaration e.name; line = e.line; col = 0; hint = [] } ∷ [];
      })
unfolding run step declare err_at
clash-report r e u ss errs a h = rw (a, h) refl

-- A name declared twice in one scope is reported, whatever balanced blocks and declarations stand
-- between: after a declaration, a second one that is not an allowed redeclaration of its name ends
-- the errors with the message on the name at the second one's line. The new binding is made still.
pub redeclared :
    (r : Registry) {os : List Op}
    → Balanced os
    → (d e : Declaration) → d.name ≡ e.name
    → e.allow_redecl ≡ false
    → (s : Scope) (ss : List Scope) (errs : List SemanticError)
    → (t : Scope) × (new : List SemanticError) × (run r
          (bind d ∷ os ++ bind e ∷ [])
          (record { scopes = s ∷ ss; errs = errs })
        ≡ some (record {
          scopes = record t { vars = assign e.name (entry_of r e) t.vars } ∷ ss;
          errs =
              (errs ++ new)
              ++ record { msg = redeclaration e.name; line = e.line; col = 0; hint = [] } ∷ [];
        }))
unfolding run step declare err_at
redeclared r {os} b d e n a s ss errs =
    let t : Scope = record s { vars = assign d.name (entry_of r d) s.vars } in
    let clash = not d.allow_redecl && is_some (find d.name s.vars) in
    let extra : List SemanticError =
      record { msg = redeclaration d.name; line = d.line; col = 0; hint = [] } ∷ [] in
    let errs' = if clash then errs ++ extra else errs in
    let (u, new, f, k) =
      earlier_errs r os t t ss errs (if clash then extra else []) errs' (if-append clash errs extra)
        (λ name h. h) (Balanced-Changes r b t ss errs') in
    (
      u,
      new,
      run-append r os (bind e ∷ []) (record { scopes = t ∷ ss; errs = errs' })
          ∙ ap (and_then (run r (bind e ∷ []))) f
          ∙ clash-report r e u ss (errs ++ new) a
              (k e.name (subst (λ z. is_some (find z t.vars) ≡ true) n (assign-found r d s))),
    )

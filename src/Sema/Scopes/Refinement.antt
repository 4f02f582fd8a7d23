-- ===== src/Sema/Scopes/Refinement.antt =====
-- The scopes of src/Sema.cpp as a stack of environments: functions from names to what they denote.
use oxide_lang_reupload.Prelude.{
  Text, text_eq, any, List, [], ◌∷◌, ◌++◌, Option, none, some, Bool, true, false, if◌then◌else◌,
  Bool-cases, ◌≡◌, refl, ◌∙◌, ap, inl, inr, arith,
}
use oxide_lang_reupload.Prelude.Map.{find, assign, find-assign}
use oxide_lang_reupload.Types.Registry.{Registry}
use oxide_lang_reupload.Sema.Scopes.{
  VarInfo, Entry, SemanticError, info_or, Scope, Scopes, Declaration, no_var, var_info, lookup_in,
  push_scope, pop_scope, declare, record_drop_local, entry_of, declare_in, record_in, without_back,
  with_scopes,
}

-- The operations of the type checker on its scopes.
pub data Op : Type 0 where
  push pop : Op
  bind : Declaration → Op
  drops : Text → Op

unfoldable pub step : Registry → Op → Scopes → Option Scopes
unfolding push_scope pop_scope declare record_drop_local
step r push st = some (push_scope st)
step r pop st = pop_scope st
step r (bind d) st = declare r d st
step r (drops name) st = record_drop_local name st

abbrev pub and_then {ℓ κ} : {A : Type ℓ} {B : Type κ} → (A → Option B) → Option A → Option B
and_then f none = none
and_then f (some a) = f a

unfoldable pub run : Registry → List Op → Scopes → Option Scopes
unfolding step
run r [] st = some st
run r (o ∷ os) st = and_then (run r os) (step r o st)

abbrev pub Env : Type 0
Env = Text → VarInfo

abbrev pub innermost : List Env → Env
innermost [] = λ name. no_var
innermost (e ∷ es) = e

-- A name bound in an environment.
abbrev pub bound : Declaration → Env → Env
bound d e = λ name.
    if text_eq d.name name
    then record { type = d.type; is_mut = d.is_mut; found = true }
    else e name

-- The same operations on environments. A block starts with the environment around it.
abbrev pub env_step : Op → List Env → Option (List Env)
env_step push es = some (innermost es ∷ es)
env_step pop [] = none
env_step pop (e ∷ es) = some es
env_step (bind d) [] = none
env_step (bind d) (e ∷ es) = some (bound d e ∷ es)
env_step (drops name) [] = none
env_step (drops name) (e ∷ es) = some (e ∷ es)

unfoldable pub env_run : List Op → List Env → Option (List Env)
env_run [] es = some es
env_run (o ∷ os) es = and_then (env_run os) (env_step o es)

-- From every scope outwards, a name denotes what the environment says.
abbrev pub Matches : List Scope → List Env → Type 0
Matches [] [] = Unit
Matches [] (e ∷ es) = ¬ Unit
Matches (s ∷ ss) [] = ¬ Unit
Matches (s ∷ ss) (e ∷ es) = ((name : Text) → lookup_in (s ∷ ss) name ≡ e name) × Matches ss es

-- Both are undefined, or both are defined and match.
abbrev pub Agree : Option Scopes → Option (List Env) → Type 0
Agree none none = Unit
Agree none (some es) = ¬ Unit
Agree (some st) none = ¬ Unit
Agree (some st) (some es) = Matches st.scopes es

lookup_in-innermost :
    (ss : List Scope) (es : List Env) (name : Text)
    → Matches ss es
    → lookup_in ss name ≡ innermost es name
unfolding lookup_in
lookup_in-innermost [] [] name m = refl
lookup_in-innermost [] (e ∷ es) name m = ground arith
lookup_in-innermost (s ∷ ss) [] name m = ground arith
lookup_in-innermost (s ∷ ss) (e ∷ es) name (h, m) = h name

bound_or :
    (e : Entry) (outer : VarInfo) (o : Option Entry) (b : Bool)
    → info_or outer (if b then some e else o) ≡ (if b then var_info e else info_or outer o)
bound_or e outer o true = refl
bound_or e outer o false = refl

bound-ap :
    (d : Declaration) (e f : Env) (name : Text) → e name ≡ f name → bound d e name ≡ bound d f name
bound-ap d e f name h = elim (Bool-cases (text_eq d.name name)) [
  | inl k ↦ rw k refl
  | inr k ↦ rw k h
]

lookup_in-assign :
    (r : Registry) (d : Declaration) (s : Scope) (ss : List Scope) (name : Text)
    → lookup_in (record s { vars = assign d.name (entry_of r d) s.vars } ∷ ss) name
      ≡ bound d (lookup_in (s ∷ ss)) name
unfolding lookup_in
lookup_in-assign r d s ss name =
    ap (info_or (lookup_in ss name)) (find-assign d.name name (entry_of r d) s.vars)
    ∙ bound_or (entry_of r d) (lookup_in ss name) (find name s.vars) (text_eq d.name name)

-- A scope's drop list plays no part in the meaning of names.
lookup_in-drops :
    (s : Scope) (dv : List Text) (ss : List Scope) (name : Text)
    → lookup_in (record s { drop_vars = dv } ∷ ss) name ≡ lookup_in (s ∷ ss) name
unfolding lookup_in
lookup_in-drops s dv ss name = refl

pop-Agree :
    (st : Scopes) (ss : List Scope) (es : List Env)
    → Matches ss es
    → Agree (with_scopes st (without_back ss)) (env_step pop es)
pop-Agree st [] [] m = tt
pop-Agree st [] (e ∷ es) m = m
pop-Agree st (s ∷ ss) [] m = m
pop-Agree st (s ∷ ss) (e ∷ es) (h, m) = m

bind-Agree :
    (r : Registry) (d : Declaration) (errs : List SemanticError) (ss : List Scope) (es : List Env)
    → Matches ss es
    → Agree (declare_in r d errs ss) (env_step (bind d) es)
bind-Agree r d errs [] [] m = tt
bind-Agree r d errs [] (e ∷ es) m = m
bind-Agree r d errs (s ∷ ss) [] m = m
bind-Agree r d errs (s ∷ ss) (e ∷ es) (h, m) =
    (λ name. lookup_in-assign r d s ss name ∙ bound-ap d (lookup_in (s ∷ ss)) e name (h name), m)

drops-Agree :
    (n : Text) (st : Scopes) (ss : List Scope) (es : List Env)
    → Matches ss es
    → Agree (with_scopes st (record_in n ss)) (env_step (drops n) es)
drops-Agree n st [] [] m = tt
drops-Agree n st [] (e ∷ es) m = m
drops-Agree n st (s ∷ ss) [] m = m
drops-Agree n st (s ∷ ss) (e ∷ es) (h, m) = elim (Bool-cases (any (text_eq n) s.drop_vars)) [
  | inl k ↦ rw k (h, m)
  | inr k ↦ rw k (λ name. lookup_in-drops s (s.drop_vars ++ n ∷ []) ss name ∙ h name, m)
]

step-Agree :
    (r : Registry) (o : Op) (st : Scopes) (es : List Env)
    → Matches st.scopes es
    → Agree (step r o st) (env_step o es)
unfolding step push_scope pop_scope declare record_drop_local lookup_in find
step-Agree r push st es m = (λ name. lookup_in-innermost st.scopes es name m, m)
step-Agree r pop st es m = pop-Agree st st.scopes es m
step-Agree r (bind d) st es m = bind-Agree r d st.errs st.scopes es m
step-Agree r (drops n) st es m = drops-Agree n st st.scopes es m

and_then-Agree :
    (f : Scopes → Option Scopes) (g : List Env → Option (List Env))
    → ((st : Scopes) (es : List Env) → Matches st.scopes es → Agree (f st) (g es))
    → (a : Option Scopes) (b : Option (List Env)) → Agree a b
    → Agree (and_then f a) (and_then g b)
and_then-Agree f g h none none m = tt
and_then-Agree f g h none (some es) m = absurd (m tt)
and_then-Agree f g h (some st) none m = absurd (m tt)
and_then-Agree f g h (some st) (some es) m = h st es m

-- The scopes implement a stack of environments. From scopes that match a stack, any sequence of
-- opening and closing scopes, declarations and drop records is undefined on one exactly when it is
-- on the other, and otherwise ends in scopes that match: from every scope outwards, `lookup`
-- finds for each name what the environment holds.
pub run-Agree :
    (r : Registry) (os : List Op) (st : Scopes) (es : List Env)
    → Matches st.scopes es
    → Agree (run r os st) (env_run os es)
unfolding run env_run
run-Agree r [] st es m = m
run-Agree r (o ∷ os) st es m =
    and_then-Agree (run r os) (env_run os) (run-Agree r os) (step r o st) (env_step o es)
      (step-Agree r o st es m)

-- ===== src/Sema/Scopes/Hint.antt =====
-- src/Sema.cpp, the `VarRef` case of `checkExpr` for a name that is not declared: the hint made from the names in scope.
use oxide_lang_reupload.Prelude.{
  ℕ, zero, suc, ◌+◌, ◌/◌, ◌≤◌, Text, codes, text_eq, text_eq_iff, List, [], ◌∷◌, ◌++◌, map, true,
  length, if◌then◌else◌, Bool-cases, ◌≡◌, refl, ap, inl, inr, ◌⊎◌, arith,
}
use oxide_lang_reupload.Prelude.Map.{Map, find}
use oxide_lang_reupload.Sema.Suggest.{suggest, is_empty, edit_dist}
use oxide_lang_reupload.Sema.Suggest.Nearest.{IsNearest, Among, suggest-IsNearest}
use oxide_lang_reupload.Sema.Scopes.{Entry, Scope, VarInfo, SemanticError, lookup_in, info_or}

abbrev pub key {ℓ} : {V : Type ℓ} → Text × V → Text
key (k, v) = k

-- The candidates: the names of every scope, innermost first.
unfoldable pub names_in_scope : List Scope → List Text
names_in_scope [] = []
names_in_scope (s ∷ ss) = map key s.vars ++ names_in_scope ss

abbrev pub hint_of : Text → Text
hint_of s = if is_empty s then [] else codes "did you mean '" ++ s ++ codes "'?"

-- The error reported.
unfoldable pub undeclared : List Scope → Text → ℕ → ℕ → SemanticError
unfolding names_in_scope suggest
undeclared ss name line col = record {
  msg = codes "use of undeclared variable '" ++ name ++ codes "'";
  line = line;
  col = col;
  hint = hint_of (suggest name (names_in_scope ss));
}

found_here :
    (c : Text) (m : Map Entry) (outer : VarInfo) (rest : List Text)
    → (Among c rest → outer.found ≡ true)
    → Among c (map key m ++ rest)
    → (info_or outer (find c m)).found ≡ true
unfolding find
found_here c [] outer rest h a = h a
found_here c ((k, e) ∷ m) outer rest h (zero, a) = rw ((text_eq_iff k c).1 (ground arith)) refl
found_here c ((k, e) ∷ m) outer rest h (suc i, a) = elim (Bool-cases (text_eq k c)) [
  | inl t ↦ rw t refl
  | inr f ↦ rw f (found_here c m outer rest h (i, a))
]

names_in_scope-found :
    (ss : List Scope) (c : Text) → Among c (names_in_scope ss) → (lookup_in ss c).found ≡ true
unfolding names_in_scope lookup_in
names_in_scope-found [] c (i, a) = ground arith
names_in_scope-found (s ∷ ss) c a =
    found_here c s.vars (lookup_in ss c) (names_in_scope ss) (names_in_scope-found ss c) a

nearest-found :
    (ss : List Scope) (name c : Text)
    → IsNearest name (names_in_scope ss) c
    → (c ≡ []) ⊎ ((lookup_in ss c).found ≡ true × (edit_dist name c ≤ length name / 2 + 2))
nearest-found ss name [] h = inl refl
nearest-found ss name (x ∷ c) (a, b, h) = inr (names_in_scope-found ss (x ∷ c) a, b)

-- The hint on an undeclared variable names nothing, or a variable that `lookup` finds in the same
-- scopes, at most half the length of the name plus two edits away from it.
pub undeclared-found :
    (ss : List Scope) (name : Text) (line col : ℕ)
    → ((undeclared ss name line col).hint ≡ [])
      ⊎ ((c : Text) × ((undeclared ss name line col).hint
            ≡ codes "did you mean '" ++ c ++ codes "'?")
          × ((lookup_in ss c).found ≡ true)
          × (edit_dist name c ≤ length name / 2 + 2))
unfolding undeclared
undeclared-found ss name line col =
    elim (nearest-found ss name (suggest name (names_in_scope ss))
      (suggest-IsNearest name (names_in_scope ss))) [
        | inl e ↦ inl (ap hint_of e)
        | inr (f, b) ↦ elim (Bool-cases (is_empty (suggest name (names_in_scope ss)))) [
          | inl h ↦ inl (rw h refl)
          | inr h ↦ inr (suggest name (names_in_scope ss), rw h refl, f, b)
        ]
      ]

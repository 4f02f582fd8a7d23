-- ===== src/Sema/Suggest/Nearest.antt =====
-- The candidate that `suggest` of src/Sema.cpp returns.
use oxide_lang_reupload.Prelude.{
  ℕ, suc, ◌+◌, ◌/◌, ◌≤◌, Text, length, get_elem?, All, List, [], ◌∷◌, some, false, ltb, ltb→lt,
  Bool-cases, ◌≡◌, refl, sym, ap, ◌∙◌, subst, inl, inr, ◌⊎◌, arith,
}
use oxide_lang_reupload.Sema.Suggest.{
  min, edit_dist, Best, consider, consider_all, suggest, unless_far, is_empty,
}

-- An empty candidate is passed over; another one is at least `n` edits away.
abbrev pub AtLeast : ℕ → Text → Text → Type 0
AtLeast n name [] = Unit
AtLeast n name (x ∷ c) = n ≤ edit_dist name (x ∷ c)

abbrev pub Among : Text → List Text → Type 0
Among c cands = (i : ℕ) × (get_elem? cands i ≡ some c)

-- The best candidate of those gone through is one of them, at the distance held.
abbrev Holds : Text → List Text → Best → Type 0
Holds name cands s =
    (is_empty s.best ≡ false) × (s.best_d ≡ edit_dist name s.best) × Among s.best cands

Among-later : {c : Text} (d : Text) (cands : List Text) → Among c cands → Among c (d ∷ cands)
Among-later d cands (i, e) = (suc i, e)

consider_le : (name c : Text) (s : Best) → (consider name c s).best_d ≤ s.best_d
unfolding consider
consider_le name [] s = omega arith
consider_le name (x ∷ c) s = elim (Bool-cases (ltb (edit_dist name (x ∷ c)) s.best_d)) [
  | inl h ↦ rw h (omega (arith, ltb→lt _ _ h))
  | inr h ↦ rw h (omega arith)
]

consider-AtLeast : (name c : Text) (s : Best) → AtLeast (consider name c s).best_d name c
unfolding consider
consider-AtLeast name [] s = tt
consider-AtLeast name (x ∷ c) s = elim (Bool-cases (ltb (edit_dist name (x ∷ c)) s.best_d)) [
  | inl h ↦ rw h (omega arith)
  | inr h ↦ rw h (ground arith)
]

AtLeast-trans : (n m : ℕ) (name c : Text) → m ≤ n → AtLeast n name c → AtLeast m name c
AtLeast-trans n m name [] h a = tt
AtLeast-trans n m name (x ∷ c) h a = omega arith

consider_all_le :
    (name : Text) (cands : List Text) (s : Best) → (consider_all name cands s).best_d ≤ s.best_d
unfolding consider_all
consider_all_le name [] s = omega arith
consider_all_le name (c ∷ cands) s =
    omega (arith, consider_le name c s, consider_all_le name cands (consider name c s))

consider_all-AtLeast :
    (name : Text) (cands : List Text) (s : Best)
    → All (AtLeast (consider_all name cands s).best_d name) cands
unfolding consider_all
consider_all-AtLeast name [] s = tt
consider_all-AtLeast name (c ∷ cands) s =
    let t = consider name c s in
    (
      AtLeast-trans t.best_d (consider_all name cands t).best_d name c
          (consider_all_le name cands t) (consider-AtLeast name c s),
      consider_all-AtLeast name cands t,
    )

-- A turn keeps the best so far or takes the candidate.
consider-cases :
    (name c : Text) (s : Best)
    → (consider name c s ≡ s)
      ⊎ ((is_empty c ≡ false)
          × (consider name c s ≡ record { best = c; best_d = edit_dist name c }))
unfolding consider
consider-cases name [] s = inl refl
consider-cases name (x ∷ c) s = elim (Bool-cases (ltb (edit_dist name (x ∷ c)) s.best_d)) [
  | inl h ↦ rw h (inr (refl, refl))
  | inr h ↦ rw h (inl refl)
]

consider_all-cases :
    (name : Text) (cands : List Text) (s : Best)
    → (consider_all name cands s ≡ s) ⊎ Holds name cands (consider_all name cands s)
unfolding consider_all
consider_all-cases name [] s = inl refl
consider_all-cases name (c ∷ cands) s = elim (consider_all-cases name cands (consider name c s)) [
  | inr (e, d, m) ↦ inr (e, d, Among-later c cands m)
  | inl k ↦ elim (consider-cases name c s) [
    | inl l ↦ inl (k ∙ l)
    | inr (e, l) ↦ inr (subst (Holds name (c ∷ cands)) (sym (k ∙ l)) (e, refl, (0, refl)))
  ]
]

All-AtLeast-trans :
    (n m : ℕ) (name : Text) (cands : List Text)
    → m ≤ n
    → All (AtLeast n name) cands
    → All (AtLeast m name) cands
All-AtLeast-trans n m name [] h a = tt
All-AtLeast-trans n m name (c ∷ cands) h (a, b) =
    (AtLeast-trans n m name c h a, All-AtLeast-trans n m name cands h b)

-- What a suggestion promises. Nothing is suggested if every candidate is too far away, and what is
-- suggested is a candidate close enough, with no other one closer.
abbrev pub IsNearest : Text → List Text → Text → Type 0
IsNearest name cands [] = All (AtLeast (min 1000 (length name / 2 + 3)) name) cands
IsNearest name cands (x ∷ c) =
    Among (x ∷ c) cands
    × (edit_dist name (x ∷ c) ≤ length name / 2 + 2)
    × All (AtLeast (edit_dist name (x ∷ c)) name) cands

abbrev start : Best
start = record { best = []; best_d = 1000 }

unless_far-IsNearest :
    (name : Text) (cands : List Text) (best : Text) (d : ℕ)
    → (best ≡ [] × (d ≡ 1000)) ⊎ Holds name cands (record { best = best; best_d = d })
    → All (AtLeast d name) cands
    → IsNearest name cands (unless_far name (record { best = best; best_d = d }))
unless_far-IsNearest name cands [] d (inl (e, k)) a =
    All-AtLeast-trans d (min 1000 (length name / 2 + 3)) name cands (ground arith) a
unless_far-IsNearest name cands [] d (inr (e, h, m)) a = ground arith
unless_far-IsNearest name cands (x ∷ c) d (inl (e, k)) a = ground arith
unless_far-IsNearest name cands (x ∷ c) d (inr (e, k, m)) a =
    elim (Bool-cases (ltb (length name / 2 + 2) d)) [
      | inl h ↦
          rw h (All-AtLeast-trans d (min 1000 (length name / 2 + 3)) name cands (ground arith) a)
      | inr h ↦ rw h (m, ground arith, subst (λ n. All (AtLeast n name) cands) k a)
    ]

start-or-Holds :
    (name : Text) (cands : List Text) (s : Best)
    → (s ≡ start) ⊎ Holds name cands s
    → (s.best ≡ [] × (s.best_d ≡ 1000)) ⊎ Holds name cands s
start-or-Holds name cands s (inl e) =
    inl (ap (λ (r : Best). r.best) e, ap (λ (r : Best). r.best_d) e)
start-or-Holds name cands s (inr h) = inr h

-- The name suggested is a candidate that is not empty and at most half the length of the wanted
-- name plus two edits away, and no other candidate is closer. When none is suggested, every
-- candidate is empty, or further away than that, or at least 1000 edits away.
pub suggest-IsNearest :
    (name : Text) (cands : List Text) → IsNearest name cands (suggest name cands)
unfolding suggest
suggest-IsNearest name cands =
    let s = consider_all name cands start in
    unless_far-IsNearest name cands s.best s.best_d
      (start-or-Holds name cands s (consider_all-cases name cands start))
      (consider_all-AtLeast name cands start)

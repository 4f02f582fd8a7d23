-- ===== src/Types/Tables/Intern.antt =====
-- The search-or-append loop of the constructors in src/Types.cpp, over any table.
use oxide_lang_reupload.Prelude.{
  ℕ, zero, suc, ◌≡◌, refl, sym, Bool, true, false, List, [], ◌∷◌, ◌++◌, append-nil, Option, none,
  some, arith, length, get_elem?, find_index, get_elem?-append_left, get_elem?-append_end,
}
use oxide_lang_reupload.Types.Tables.{intern, place}

module _ {ℓ} {A : Type ℓ} (same : A → Bool) where
  -- What a found position holds.
  abbrev pub Holds : List A → ℕ → Type ℓ
  Holds t i = (y : A) × (get_elem? t i ≡ some y) × (same y ≡ true)

  pub find_index-Holds : (t : List A) (i : ℕ) → find_index same t ≡ some i → Holds t i
  unfolding find_index
  find_index-Holds [] i h = ground arith
  find_index-Holds (x ∷ t) zero h = (x, refl, ground arith)
  find_index-Holds (x ∷ t) (suc i) h =
      let (y, at, yes') = find_index-Holds t i (ground arith) in (y, at, yes')

  pub find_index-none :
      (t : List A) (i : ℕ) {y : A}
      → find_index same t ≡ none
      → get_elem? t i ≡ some y
      → same y ≡ false
  unfolding find_index
  find_index-none [] i h e = ground arith
  find_index-none (x ∷ t) zero h e = ground arith
  find_index-none (x ∷ t) (suc i) h e = find_index-none t i (ground arith) e

  pub find_index-append :
      (t : List A) (x : A)
      → find_index same t ≡ none
      → same x ≡ true
      → find_index same (t ++ x ∷ []) ≡ some (length t)
  unfolding find_index
  find_index-append [] x h s = ground arith
  find_index-append (y ∷ t) x h s = ground (arith, find_index-append t x)

  place-Holds :
      (x : A) (t : List A) (o : Option ℕ)
      → same x ≡ true
      → find_index same t ≡ o
      → Holds (place x t o).0 (place x t o).1
  unfolding place
  place-Holds x t none s e = (x, get_elem?-append_end t x, s)
  place-Holds x t (some i) s e = find_index-Holds t i e

  -- The position returned holds an element that passes the test.
  pub intern-Holds :
      (x : A) (t : List A) → same x ≡ true → Holds (intern same x t).0 (intern same x t).1
  unfolding intern
  intern-Holds x t s = place-Holds x t (find_index same t) s refl

  place_keeps :
      (x : A) (t : List A) (o : Option ℕ) (i : ℕ) {y : A}
      → get_elem? t i ≡ some y
      → get_elem? (place x t o).0 i ≡ some y
  unfolding place
  place_keeps x t none i h = get_elem?-append_left t (x ∷ []) i h
  place_keeps x t (some j) i h = h

  -- What the table holds stays where it is.
  pub intern_keeps :
      (x : A) (t : List A) (i : ℕ) {y : A}
      → get_elem? t i ≡ some y
      → get_elem? (intern same x t).0 i ≡ some y
  unfolding intern
  intern_keeps x t = place_keeps x t (find_index same t)

  place_found :
      (x z : A) (t : List A) (o : Option ℕ)
      → find_index same t ≡ o
      → same x ≡ true
      → intern same z (place x t o).0 ≡ place x t o
  unfolding place intern
  place_found x z t none e s = rw (find_index-append t x e s)
  place_found x z t (some i) e s = rw e

  -- A second search with the same test finds the first one's position.
  pub intern_idem :
      (x z : A) (t : List A) → same x ≡ true → intern same z (intern same x t).0 ≡ intern same x t
  unfolding intern
  intern_idem x z t s = place_found x z t (find_index same t) refl s

  -- A table only grows at its end.
  pub intern_extends : (x : A) (t : List A) → (more : List A) × ((intern same x t).0 ≡ t ++ more)
  unfolding intern
  intern_extends x t = place_extends x t (find_index same t)
    where
      place_extends :
          (x : A) (t : List A) (o : Option ℕ) → (more : List A) × ((place x t o).0 ≡ t ++ more)
      place_extends x t none = (x ∷ [], unfold place in refl)
      place_extends x t (some i) = ([], unfold place in sym (append-nil t))

  find_index-append_left :
      (t more : List A) (i : ℕ) → find_index same t ≡ some i → find_index same (t ++ more) ≡ some i
  unfolding find_index
  find_index-append_left [] more i h = ground arith
  find_index-append_left (y ∷ t) more zero h = ground (arith)
  find_index-append_left (y ∷ t) more (suc i) h = ground (arith, find_index-append_left t more i)

  place_position :
      (x : A) (t : List A) (o : Option ℕ)
      → find_index same t ≡ o
      → same x ≡ true
      → find_index same (place x t o).0 ≡ some (place x t o).1
  unfolding place
  place_position x t none e s = find_index-append t x e s
  place_position x t (some i) e s = e

  -- However the table grows afterwards, the same search gives the same position.
  pub intern_stable :
      (x z : A) (t more : List A)
      → same x ≡ true
      → (intern same z ((intern same x t).0 ++ more)).1 ≡ (intern same x t).1
  unfolding intern
  intern_stable x z t more s =
      let held = place_position x t (find_index same t) refl s in
      rw (find_index-append_left _ more _ held, place)

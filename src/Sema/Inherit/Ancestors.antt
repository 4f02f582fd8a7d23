-- ===== src/Sema/Inherit/Ancestors.antt =====
-- What `isBaseOf` decides.
use oxide_lang_reupload.Prelude.{
  ℕ, zero, suc, ◌<◌, Text, text_eq, text_eq_iff, any, [], Option, none, some, Bool, true, false,
  ◌||◌, Bool-cases, ◌≡◌, ◌↔◌, refl, sym, ◌∙◌, ap, subst, inl, inr, arith,
}
use oxide_lang_reupload.Types.Registry.{Registry, StructDef, find_struct}
use oxide_lang_reupload.Sema.Inherit.{up_from, struct_at, levels, is_named, base_is, is_base_of}

-- `Above r p c`: the struct `p` is met on the base pointers strictly above `c`.
pub data Above (r : Registry) : Text → Text → Type 0 where
  parent :
      {p c : Text} {d e : StructDef}
      → find_struct r c ≡ some d
      → d.base ≡ some p
      → find_struct r p ≡ some e
      → Above r p c
  ancestor :
      {p b c : Text} {d : StructDef}
      → find_struct r c ≡ some d
      → d.base ≡ some b
      → Above r p b
      → Above r p c

unequal_bools : ¬ (false ≡ true)
unequal_bools h = ground arith

module _ (r : Registry) (rank : Text → ℕ)
    (named : (k : Text) (d : StructDef) → find_struct r k ≡ some d → d.name ≡ k)
    (falls : (k : Text) (d : StructDef) (b : Text)
      → find_struct r k ≡ some d
      → d.base ≡ some b
      → rank b < rank k) where
  Above-rank : {p c : Text} → Above r p c → rank p < rank c
  Above-rank (parent f b g) = falls _ _ _ f b
  Above-rank (ancestor {b = q} f b a) = omega (arith, falls _ _ q f b, Above-rank a)

  named_at :
      (p b : Text) (o : Option StructDef)
      → find_struct r b ≡ o
      → is_named p o ≡ true
      → (e : StructDef) × ((find_struct r p ≡ some e) × (b ≡ p))
  named_at p b none f h = ground arith
  named_at p b (some e) f h =
      let same = sym (named b e f) ∙ (text_eq_iff e.name p).0 h in
      (e, (subst (λ z. find_struct r z ≡ some e) same f, same))

  base_parent :
      (p c : Text) (d : StructDef) (o : Option Text)
      → find_struct r c ≡ some d
      → d.base ≡ o
      → is_named p (struct_at r o) ≡ true
      → Above r p c
  base_parent p c d none f b h = ground arith
  base_parent p c d (some k) f b h =
      let (e, (g, same)) = named_at p k (find_struct r k) refl h in parent f (b ∙ ap some same) g

  levels-none : (n : ℕ) → levels n r none ≡ []
  unfolding levels
  levels-none zero = refl
  levels-none (suc n) = refl

  met_higher :
      (n : ℕ) (p c : Text) (d : StructDef) (o : Option Text)
      → ((k : Text) → any (base_is r p) (levels n r (some k)) ≡ true → Above r p k)
      → find_struct r c ≡ some d
      → d.base ≡ o
      → any (base_is r p) (levels n r o) ≡ true
      → Above r p c
  met_higher n p c d none ih f b h =
      absurd (unequal_bools (ap (any (base_is r p)) (sym (levels-none n)) ∙ h))
  met_higher n p c d (some k) ih f b h = ancestor f b (ih k h)

  met_at :
      (n : ℕ) (p c : Text) (o : Option StructDef)
      → ((k : Text) → any (base_is r p) (levels n r (some k)) ≡ true → Above r p k)
      → find_struct r c ≡ o
      → any (base_is r p) (up_from (levels n r) o) ≡ true
      → Above r p c
  met_at n p c none ih f h = ground arith
  met_at n p c (some d) ih f h = elim (Bool-cases (base_is r p d)) [
    | inl b ↦ base_parent p c d d.base f refl b
    | inr b ↦ met_higher n p c d d.base ih f refl (rw b at h)
  ]

  met : (n : ℕ) (p c : Text) → any (base_is r p) (levels n r (some c)) ≡ true → Above r p c
  unfolding levels
  met zero p c h = ground arith
  met (suc n) p c h = met_at n p c (find_struct r c) (met n p) refl h

  or_true : (a : Bool) → (a || true) ≡ true
  or_true true = refl
  or_true false = refl

  found :
      {p c : Text} (n : ℕ)
      → Above r p c
      → rank c < n
      → any (base_is r p) (levels n r (some c)) ≡ true
  unfolding levels
  found zero a l = ground arith
  found {p} (suc n) (parent {d = d} {e = e} f b g) l =
      rw (f, b, g, (text_eq_iff e.name p).1 (named p e g)) refl
  found {p} {c} (suc n) (ancestor {b = k} {d = d} f b a) l =
      rw (f, b, found n a (omega (arith, falls c d k f b))) (or_true (is_named p (find_struct r k)))

  -- `isBaseOf` decides whether the first struct is strictly above the second one on the base
  -- pointers, in a registry whose entries carry the name they are registered under and whose base
  -- pointers have no cycle (a rank falls along them), with fuel above the rank of the second struct.
  pub is_base_of-Above :
      (n : ℕ) (p c : Text) → rank c < n → (is_base_of n r p c ≡ true) ↔ Above r p c
  unfolding is_base_of
  is_base_of-Above n p c l = elim (Bool-cases (text_eq p c)) [
    | inl e ↦ (
      λ h. absurd (unequal_bools (rw e at h)),
      λ a. absurd (omega (arith, rw ((text_eq_iff p c).0 e) at (Above-rank a))),
    )
    | inr e ↦ (λ h. met n p c (rw e at h), λ a. rw e (found n a l))
  ]

-- ===== src/Splitter/Sound.antt =====
-- The split of src/ProofSplitter.cpp against the meaning of its goals.
use oxide_lang_reupload.Prelude.{
  ℕ, ◌≤◌, Text, Bool, true, false, not, ◌&&◌, &&_iff, ◌≡◌, refl, ap, sym, subst, ◌∙◌, ◌↔◌, ◌⊎◌, inl,
  inr, List, [], ◌∷◌, ◌++◌, All, all, arith, Bool-cases, none, some, Option-cases, length, leb,
}
use oxide_lang_reupload.Prelude.Int.{ℤ, pos, ltb_ℤ}
use oxide_lang_reupload.Types.Base.{BType}
use oxide_lang_reupload.Splitter.Expr.{
  not_, land, lor, Expr, absent, unary, binary, ternary, quant, contains_quantifier,
}
use oxide_lang_reupload.Splitter.Split.{
  ProofGoal, sub_label, not_text, implied_pair, quant_literal_range, half, count, alone, isolate,
  unroll, split_quant, split_branch, split_term, split_goal, goals_to_discharge, or_itself,
}
use oxide_lang_reupload.Splitter.Meaning.{
  Env, bind, Reading, eval, Holds, Proves, Valid, Encodes, truth, all_from, past_end, reached,
  IsSmall,
}
use oxide_lang_reupload.Splitter.Instances.{instances_sound, instances_complete}
use oxide_lang_reupload.Splitter.Ranges.{
  All-append, truth-of_bool, all_from_both, implied_both, implied_pair-is, all_from_none,
  quant_literal_range-Found, Found,
}

-- The conditions under which the split keeps the meaning of an expression.
module _ (R : Reading) (says : Text → Env → Bool) (lower : Expr → Text) where
  abbrev pub Splits : Expr → Type 0
  Splits (binary land a b) = Splits a × Splits b
  Splits (ternary c t e) = Encodes R says lower c
  Splits (quant all b ty lo hi inc body) =
      ((all ≡ true) ⊎ (implied_pair body ≡ none))
      × (reached b body ≡ true)
      × IsSmall lo
      × IsSmall hi
  Splits _ = Unit

  abbrev Each : List ProofGoal → Type 0
  Each gs = All (Valid R says) gs

  isolate_sound :
      (e : Expr) (label : Text) (ps : List Text) (g : Bool)
      → Each (isolate e label ps g)
      → Proves R says e ps
  unfolding isolate
  isolate_sound e label ps g h = elim (Bool-cases (leb 2 (length ps))) [
    | inl many ↦ ((All-append (Valid R says) (alone label e g 0 ps) _).0 (rw many at h)).1.0
    | inr few ↦ (rw few at h).0
  ]

  isolate_complete :
      (e : Expr) (label : Text) (ps : List Text) (g : Bool)
      → length ps ≤ 1
      → Proves R says e ps
      → Each (isolate e label ps g)
  unfolding isolate
  isolate_complete e label ps g few h =
      let none_alone : leb 2 (length ps) ≡ false = ground arith in rw none_alone (h, tt)

  module _ (b : Text) (lo hi : Expr) (inc : Bool) (body : Expr) (ps : List Text) where
    -- The test that the quantifier makes at a number.
    abbrev at_number : Env → ℤ → Bool
    at_number env k = truth (eval R body (bind b k env))

    -- A forall holds where the body does at each number of its range.
    Holds-quant :
        (ty : BType) (x y : ℤ) (env : Env)
        → Found R true lo hi inc x y
        → Holds R (quant true b ty lo hi inc body) env
          ↔ (all_from (at_number env) (count x y) x ≡ true)
    unfolding eval
    Holds-quant ty x y env f =
        let value = truth-of_bool (all_from (at_number env) (count x y) x) in
        rw (f.low env, f.high env) (λ h. sym value ∙ h, λ h. value ∙ h)

    unroll_sound :
        (ty : BType) (from : ℕ) (y : ℤ) (label : Text) (g : Bool)
        → Found R true lo hi inc (pos from) y
        → reached b body ≡ true
        → Each (unroll (some (pos from, y)) b body (quant true b ty lo hi inc body) label ps g)
        → Proves R says (quant true b ty lo hi inc body) ps
    unfolding unroll
    unroll_sound ty from y label g f r h = elim (Bool-cases (ltb_ℤ y (pos from))) [
      | inl empty ↦ λ env hp.
          let no_number : count (pos from) y ≡ 0 = ground arith in
          (Holds-quant ty (pos from) y env f).1
            (rw no_number (all_from_none (at_number env) (pos from)))
      | inr range ↦ elim (Bool-cases (leb (count (pos from) y) 1024)) [
        | inl few ↦ λ env hp. (Holds-quant ty (pos from) y env f).1 (
            instances_sound R says b body ps r (count (pos from) y) from 0 label
              (rw (range, few) at h) env hp)
        | inr many ↦
            isolate_sound (quant true b ty lo hi inc body) label ps g (rw (range, many) at h)
      ]
    ]

    unroll_complete :
        (ty : BType) (from : ℕ) (y : ℤ) (label : Text) (g : Bool)
        → Found R true lo hi inc (pos from) y
        → reached b body ≡ true
        → length ps ≤ 1
        → Proves R says (quant true b ty lo hi inc body) ps
        → Each (unroll (some (pos from, y)) b body (quant true b ty lo hi inc body) label ps g)
    unfolding unroll eval
    unroll_complete ty from y label g f r few h = elim (Bool-cases (ltb_ℤ y (pos from))) [
      | inl empty ↦ rw empty (λ env hp. refl, tt)
      | inr range ↦ elim (Bool-cases (leb (count (pos from) y) 1024)) [
        | inl small ↦
            rw (range, small)
              (instances_complete R says b body ps r (count (pos from) y) from 0 label
                (λ env hp. (Holds-quant ty (pos from) y env f).0 (h env hp)))
        | inr many ↦
            rw (range, many) (isolate_complete (quant true b ty lo hi inc body) label ps g few h)
      ]
    ]

    at_bounds_iff :
        (al : Bool) (ty : BType) (x y : ℤ) (label : Text) (g : Bool)
        → Found R al lo hi inc x y
        → reached b body ≡ true
        → let q = quant al b ty lo hi inc body in
          let gs = unroll (some (x, y)) b body q label ps g in
          (Each gs → Proves R says q ps) × (length ps ≤ 1 → Proves R says q ps → Each gs)
    at_bounds_iff false ty x y label g f r = cc (f.is_all)
    at_bounds_iff true ty x y label g f r =
        let f' = subst (λ z. Found R true lo hi inc z y) f.from_is f in
        rw f.from_is
          (unroll_sound ty f.from y label g f' r, unroll_complete ty f.from y label g f' r)

    -- Strategy 3, whether bounds are found or not.
    unroll_iff :
        (al : Bool) (ty : BType) (label : Text) (g : Bool)
        → reached b body ≡ true
        → IsSmall lo
        → IsSmall hi
        → let q = quant al b ty lo hi inc body in
          let gs = unroll (quant_literal_range al ty lo hi inc) b body q label ps g in
          (Each gs → Proves R says q ps) × (length ps ≤ 1 → Proves R says q ps → Each gs)
    unfolding unroll
    unroll_iff al ty label g r sl sh = elim (Option-cases (quant_literal_range al ty lo hi inc)) [
      | inl e ↦
          let q = quant al b ty lo hi inc body in
          rw e (isolate_sound q label ps g, isolate_complete q label ps g)
      | inr ((x, y), e) ↦
          rw e (
            at_bounds_iff al ty x y label g (quant_literal_range-Found R al ty lo hi inc sl sh e) r)
    ]

  -- A forall over an implication into a conjunction is the two foralls over its halves.
  Holds-implied :
      (b : Text) (ty : BType) (lo hi : Expr) (inc : Bool) (a c d : Expr) (env : Env)
      → Holds R (quant true b ty lo hi inc (binary lor (unary not_ a) (binary land c d))) env
        ↔ (Holds R (half b ty lo hi inc a c) env × Holds R (half b ty lo hi inc a d) env)
  unfolding eval
  Holds-implied b ty lo hi inc a c d env =
      let k₀ = eval R lo env in
      let n = count k₀ (past_end inc (eval R hi env)) in
      let whole : ℤ → Bool =
        λ k. truth (eval R (binary lor (unary not_ a) (binary land c d)) (bind b k env)) in
      let left : ℤ → Bool = λ k. truth (eval R (binary lor (unary not_ a) c) (bind b k env)) in
      let right : ℤ → Bool = λ k. truth (eval R (binary lor (unary not_ a) d) (bind b k env)) in
      let value = λ (p : ℤ → Bool). truth-of_bool (all_from p n k₀) in
      let both =
        all_from_both left right whole
          (λ k.
            implied_both (truth (eval R a (bind b k env))) (truth (eval R c (bind b k env)))
              (truth (eval R d (bind b k env))))
          n k₀ in
      (
        λ h. let (x, y) = both.0 (sym (value whole) ∙ h) in (value left ∙ x, value right ∙ y),
        λ (x, y). value whole ∙ both.1 (sym (value left) ∙ x, sym (value right) ∙ y),
      )

  -- What a strategy keeps: its goals prove the expression, and follow from it under at most one
  -- premise.
  abbrev Keeps : Expr → List Text → List ProofGoal → Type 0
  Keeps e ps gs = (Each gs → Proves R says e ps) × (length ps ≤ 1 → Proves R says e ps → Each gs)

  split_quant-Keeps :
      (al : Bool) (b : Text) (ty : BType) (lo hi : Expr) (inc : Bool) (body : Expr) (label : Text)
      (ps : List Text) (g : Bool)
      → Splits (quant al b ty lo hi inc body)
      → Keeps
          (quant al b ty lo hi inc body)
          ps
          (split_quant (implied_pair body) al b ty lo hi inc body label ps g)
  unfolding split_quant
  split_quant-Keeps al b ty lo hi inc body label ps g (universal, r, sl, sh) =
      elim (Option-cases (implied_pair body)) [
        | inl none_found ↦ rw none_found (unroll_iff b lo hi inc body ps al ty label g r sl sh)
        | inr ((a, c, d), e) ↦ elim universal [
          | inl is ↦
              let parts = λ (env : Env). Holds-implied b ty lo hi inc a c d env in
              rw (e, is, implied_pair-is body e)
                (
                  λ (v, (w, _)) env hp. (parts env).1 (v env hp, w env hp),
                  λ few h. (
                    λ env hp. ((parts env).0 (h env hp)).0,
                    (λ env hp. ((parts env).0 (h env hp)).1, tt),
                  ),
                )
          | inr none_there ↦ cc (none_there, e)
        ]
      ]

  -- A premise behind the others.
  all-end :
      (p : Text) (ps : List Text) (env : Env)
      → (all (λ q. says q env) (ps ++ p ∷ []) ≡ true)
        ↔ ((all (λ q. says q env) ps ≡ true) × (says p env ≡ true))
  all-end p [] env = ground arith
  all-end p (q ∷ ps) env = let rest = all-end p ps env in ground (arith, rest.0, rest.1)

  branch-Keeps :
      (c t e : Expr) (label : Text) (ps : List Text)
      → Encodes R says lower c
      → Keeps (ternary c t e) ps (split_branch lower c t e label ps)
  unfolding eval
  branch-Keeps c t e label ps enc = (
    λ (v, (w, _)) env hp. elim (Bool-cases (truth (eval R c env))) [
      | inl on ↦ rw on (v env ((all-end (lower c) ps env).1 (hp, (enc env).0 ∙ on)))
      | inr off ↦
          rw off (w env ((all-end (not_text (lower c)) ps env).1 (hp, (enc env).1 ∙ ap not off)))
    ],
    λ few h. (
      λ env hp.
          let (given, on) = (all-end (lower c) ps env).0 hp in
          rw (sym (enc env).0 ∙ on) at (h env given),
      (
        λ env hp.
            let (given, off) = (all-end (not_text (lower c)) ps env).0 hp in
            let is_false : truth (eval R c env) ≡ false = ground (arith, (enc env).1) in
            rw is_false at (h env given),
        tt,
      ),
    ),
  )

  split_term-Keeps :
      (e : Expr) (label : Text) (ps : List Text) (g : Bool)
      → Splits e
      → Keeps e ps (split_term lower e label ps g)
  unfolding split_term eval
  split_term-Keeps absent label ps g h = (λ (v, _). v, λ few v. (v, tt))
  split_term-Keeps (binary land a b) label ps g (ha, hb) =
      let left = split_term lower a (sub_label label 0) ps (not (contains_quantifier a)) in
      let right = split_term lower b (sub_label label 1) ps (not (contains_quantifier b)) in
      let parts = All-append (Valid R says) left right in
      let (a_sound, a_complete) =
        split_term-Keeps a (sub_label label 0) ps (not (contains_quantifier a)) ha in
      let (b_sound, b_complete) =
        split_term-Keeps b (sub_label label 1) ps (not (contains_quantifier b)) hb in
      let value = λ (env : Env). truth-of_bool (truth (eval R a env) && truth (eval R b env)) in
      (
        λ v env hp.
            value env ∙ (&&_iff _ _).1 (a_sound (parts.0 v).0 env hp, b_sound (parts.0 v).1 env hp),
        λ few v.
            let halves = λ (env : Env) (hp : all (λ p. says p env) ps ≡ true).
              (&&_iff (truth (eval R a env)) (truth (eval R b env))).0
                (sym (value env) ∙ v env hp) in
            parts.1 (
              a_complete few (λ env hp. (halves env hp).0),
              b_complete few (λ env hp. (halves env hp).1),
            ),
      )
  split_term-Keeps (quant al b ty lo hi inc body) label ps g h =
      split_quant-Keeps al b ty lo hi inc body label ps g h
  split_term-Keeps (ternary c t e) label ps g h = branch-Keeps c t e label ps h
  split_term-Keeps e label ps g h = (isolate_sound e label ps g, isolate_complete e label ps g)

  -- Where each goal that `smtDischargeGoal` emits holds under its premises, the goal that it was
  -- given does. The conditions of the split are: each condition of a branch is encoded as what it
  -- means; a quantifier over an implication into a conjunction is a forall; literal bounds fit in
  -- `long long`; and the substitution reaches the quantified variable wherever the body mentions it.
  pub goals_to_discharge_sound :
      (g : ProofGoal)
      → Splits g.term
      → All (Valid R says) (goals_to_discharge lower g)
      → Valid R says g
  unfolding goals_to_discharge split_goal
  goals_to_discharge_sound g h v = given (split_goal lower g) refl v
    where
      given :
          (gs : List ProofGoal)
          → split_goal lower g ≡ gs
          → All (Valid R says) (or_itself g gs)
          → Valid R says g
      given [] e w = w.0
      given (x ∷ xs) e w =
          (split_term-Keeps g.term g.label g.premises g.is_ground h).0
            (subst (λ z. All (Valid R says) z) (sym e) w)

  -- Under the same conditions, a goal with at most one premise that holds is emitted as goals that
  -- hold: the split loses nothing.
  pub goals_to_discharge_complete :
      (g : ProofGoal)
      → Splits g.term
      → length g.premises ≤ 1
      → Valid R says g
      → All (Valid R says) (goals_to_discharge lower g)
  unfolding goals_to_discharge split_goal
  goals_to_discharge_complete g h few v =
      given (split_goal lower g)
        ((split_term-Keeps g.term g.label g.premises g.is_ground h).1 few v)
    where
      given : (gs : List ProofGoal) → All (Valid R says) gs → All (Valid R says) (or_itself g gs)
      given [] w = (v, tt)
      given (x ∷ xs) w = w

-- ===== src/Splitter/Instances.antt =====
-- What `substBinder` of src/ProofSplitter.cpp does to the meaning of a quantifier's body.
use oxide_lang_reupload.Prelude.{
  ℕ, zero, suc, ◌+◌, Text, text_eq, Bool, true, false, ◌&&◌, &&_iff, ◌≡◌, refl, ap, sym, subst,
  List, ◌∷◌, All, all, arith, inl, inr, Bool-cases,
}
use oxide_lang_reupload.Prelude.Int.{ℤ, pos, ◌+ℤ◌, pos-+ℤ}
use oxide_lang_reupload.Splitter.Expr.{
  Expr, absent, int_lit, float_lit, bool_lit, str_lit, char_lit, var_ref, unary, binary, ternary,
  cast, old, index, field, call, method_call, quant, other, Exprs, no_args, arg,
}
use oxide_lang_reupload.Splitter.Subst.{subst_binder}
use oxide_lang_reupload.Splitter.Split.{instances}
use oxide_lang_reupload.Splitter.Meaning.{
  Env, bind, Reading, eval, eval_args, Valid, truth, all_from, avoids, avoid_args, reached,
}

-- Equal arguments give equal results.
both {ℓ} : {A B C : Type ℓ} (f : A → B → C) {x y : A} {u v : B} → x ≡ y → u ≡ v → f x u ≡ f y v
both f p q = rw (p, q) refl

module _ (R : Reading) (b : Text) (k : ℤ) where
  mutual
    unfolding eval avoids

    -- Binding a variable changes no expression that avoids it.
    pub eval-bind :
        (e : Expr) (env : Env) → avoids b e ≡ true → eval R e (bind b k env) ≡ eval R e env
    eval-bind absent env h = refl
    eval-bind (int_lit v) env h = refl
    eval-bind (float_lit s f) env h = refl
    eval-bind (bool_lit v) env h = refl
    eval-bind (str_lit s) env h = refl
    eval-bind (char_lit v) env h = refl
    eval-bind (var_ref x) env h =
        let differs : text_eq x b ≡ false = ground arith in rw differs refl
    eval-bind (unary op e) env h = rw (eval-bind e env h) refl
    eval-bind (binary op l r) env h =
        let (hl, hr) = (&&_iff (avoids b l) (avoids b r)).0 h in
        rw (eval-bind l env hl, eval-bind r env hr) refl
    eval-bind (ternary c t e) env h =
        let (hct, he) = (&&_iff (avoids b c && avoids b t) (avoids b e)).0 h in
        let (hc, ht) = (&&_iff (avoids b c) (avoids b t)).0 hct in
        rw (eval-bind c env hc, eval-bind t env ht, eval-bind e env he) refl
    eval-bind (cast ty e) env h = ap (R.cast_value ty) (eval-bind e env h)
    eval-bind (old e) env h = eval-bind e (record { now = env.before; before = env.before }) h
    eval-bind (index a i) env h =
        let (ha, hi) = (&&_iff (avoids b a) (avoids b i)).0 h in
        both R.index_value (eval-bind a env ha) (eval-bind i env hi)
    eval-bind (field e f) env h = ap (λ x. R.field_value x f) (eval-bind e env h)
    eval-bind (call f callee args) env h =
        let (hc, ha) = (&&_iff (avoids b callee) (avoid_args b args)).0 h in
        both (R.call_value f) (eval-bind callee env hc) (eval_args-bind args env ha)
    eval-bind (method_call f e args) env h =
        let (he, ha) = (&&_iff (avoids b e) (avoid_args b args)).0 h in
        both (R.call_value f) (eval-bind e env he) (eval_args-bind args env ha)
    eval-bind (quant al x ty lo hi inc body) env h = absurd (ground arith)
    eval-bind (other n) env h = absurd (ground arith)

    pub eval_args-bind :
        (es : Exprs) (env : Env)
        → avoid_args b es ≡ true
        → eval_args R es (bind b k env) ≡ eval_args R es env
    eval_args-bind no_args env h = refl
    eval_args-bind (arg e es) env h =
        let (he, hs) = (&&_iff (avoids b e) (avoid_args b es)).0 h in
        both ◌∷◌ (eval-bind e env he) (eval_args-bind es env hs)

module _ (R : Reading) (b : Text) (n : ℕ) where
  -- An instance of a body means what the body means where the variable has the number.
  pub eval-subst_binder :
      (e : Expr) (env : Env)
      → reached b e ≡ true
      → eval R (subst_binder e b (pos n)) env ≡ eval R e (bind b (pos n) env)
  unfolding eval subst_binder reached
  eval-subst_binder (var_ref x) env h = elim (Bool-cases (text_eq x b)) [
    | inl same ↦ rw same refl
    | inr other' ↦ rw other' refl
  ]
  eval-subst_binder (unary op e) env h = rw (eval-subst_binder e env h) refl
  eval-subst_binder (binary op l r) env h =
      let (hl, hr) = (&&_iff (reached b l) (reached b r)).0 h in
      rw (eval-subst_binder l env hl, eval-subst_binder r env hr) refl
  eval-subst_binder (ternary c t e) env h =
      let (hct, he) = (&&_iff (reached b c && reached b t) (reached b e)).0 h in
      let (hc, ht) = (&&_iff (reached b c) (reached b t)).0 hct in
      rw (eval-subst_binder c env hc, eval-subst_binder t env ht, eval-subst_binder e env he) refl
  eval-subst_binder (cast ty e) env h = ap (R.cast_value ty) (eval-subst_binder e env h)
  eval-subst_binder (old e) env h =
      eval-subst_binder e (record { now = env.before; before = env.before }) h
  eval-subst_binder (index a i) env h =
      let (ha, hi) = (&&_iff (reached b a) (reached b i)).0 h in
      both R.index_value (eval-subst_binder a env ha) (eval-subst_binder i env hi)
  eval-subst_binder (field e f) env h = ap (λ x. R.field_value x f) (eval-subst_binder e env h)
  eval-subst_binder e env h = sym (eval-bind R b (pos n) e env h)

module _ (R : Reading) (says : Text → Env → Bool) (b : Text) (body : Expr) (ps : List Text)
    (r : reached b body ≡ true) where
  instance_at :
      (n : ℕ) (env : Env)
      → eval R (subst_binder body b (pos n)) env ≡ eval R body (bind b (pos n) env)
  instance_at n env = eval-subst_binder R b n body env r

  -- Where each instance follows from the premises, so does the body at each number.
  pub instances_sound :
      (n k i : ℕ) (label : Text)
      → All (Valid R says) (instances n (pos k) i label ps b body)
      → (env : Env) → all (λ p. says p env) ps ≡ true
      → all_from (λ j. truth (eval R body (bind b j env))) n (pos k) ≡ true
  unfolding instances all_from
  instances_sound zero k i label h env hp = refl
  instances_sound (suc n) k i label (v, vs) env hp =
      let first : truth (eval R body (bind b (pos k) env)) ≡ true =
        rw (instance_at k env) at (v env hp) in
      let rest = instances_sound n (k + 1) (i + 1) label (rw (pos-+ℤ k 1) at vs) env hp in
      rw (first, pos-+ℤ k 1) rest

  pub instances_complete :
      (n k i : ℕ) (label : Text)
      → ((env : Env)
          → all (λ p. says p env) ps ≡ true
          → all_from (λ j. truth (eval R body (bind b j env))) n (pos k) ≡ true)
      → All (Valid R says) (instances n (pos k) i label ps b body)
  unfolding instances all_from
  instances_complete zero k i label h = tt
  instances_complete (suc n) k i label h =
      let here = λ (env : Env). truth (eval R body (bind b (pos k) env)) in
      let others = λ (env : Env). all_from (λ j. truth (eval R body (bind b j env))) n in
      let both = λ (env : Env) (hp : all (λ p. says p env) ps ≡ true).
        (&&_iff (here env) (others env (pos k +ℤ pos 1))).0 (h env hp) in
      let rest =
        instances_complete n (k + 1) (i + 1) label
          (λ env hp. subst (λ z. others env z ≡ true) (pos-+ℤ k 1) (both env hp).1) in
      (λ env hp. rw (instance_at k env) (both env hp).0, rw (pos-+ℤ k 1) rest)

-- ===== src/Splitter/Meaning.antt =====
-- What the expressions of a proof goal mean, for src/ProofSplitter.cpp.
use oxide_lang_reupload.Prelude.{
  ℕ, zero, suc, ◌^◌, ◌<◌, ◌+◌, Text, text_eq, Bool, true, false, not, ◌&&◌, ◌||◌, ◌≡◌, List, [],
  ◌∷◌, if◌then◌else◌, all,
}
use oxide_lang_reupload.Prelude.Int.{ℤ, pos, eqb_ℤ, ◌+ℤ◌}
use oxide_lang_reupload.Types.Base.{BType}
use oxide_lang_reupload.Splitter.Expr.{
  UnaryOp, not_, BinaryOp, land, lor, Expr, absent, int_lit, float_lit, bool_lit, str_lit, char_lit,
  var_ref, unary, binary, ternary, cast, old, index, field, call, method_call, quant, other, Exprs,
  no_args, arg,
}
use oxide_lang_reupload.Splitter.Split.{ProofGoal, count, not_text}

-- The values of the variables, now and before the call.
pub record Env : Type 0 where
  pub now : Text → ℤ
  pub before : Text → ℤ

abbrev pub set : Text → ℤ → (Text → ℤ) → Text → ℤ
set b k vars x = if text_eq x b then k else vars x

-- A quantified variable has one value, also before the call.
abbrev pub bind : Text → ℤ → Env → Env
bind b k env = record { now = set b k env.now; before = set b k env.before }

-- Every value is a number, with 0 for false. The operations that the splitter does not know are
-- any functions.
pub record Reading : Type 0 where
  pub float_value : Text → Bool → ℤ
  pub str_value : Text → ℤ
  pub unary_value : UnaryOp → ℤ → ℤ
  pub binary_value : BinaryOp → ℤ → ℤ → ℤ
  pub cast_value : BType → ℤ → ℤ
  pub index_value : ℤ → ℤ → ℤ
  pub field_value : ℤ → Text → ℤ
  pub call_value : Text → ℤ → List ℤ → ℤ
  pub other_value : ℕ → Env → ℤ

abbrev pub truth : ℤ → Bool
truth v = not (eqb_ℤ v (pos 0))

abbrev pub of_bool : Bool → ℤ
of_bool b = if b then pos 1 else pos 0

-- A test on `n` numbers from `k` on.
unfoldable pub all_from : (ℤ → Bool) → ℕ → ℤ → Bool
all_from p zero k = true
all_from p (suc n) k = p k && all_from p n (k +ℤ pos 1)

unfoldable pub any_from : (ℤ → Bool) → ℕ → ℤ → Bool
any_from p zero k = false
any_from p (suc n) k = p k || any_from p n (k +ℤ pos 1)

abbrev pub quantified : Bool → (ℤ → Bool) → ℤ → ℤ → Bool
quantified all p lo hi = if all then all_from p (count lo hi) lo else any_from p (count lo hi) lo

abbrev pub past_end : Bool → ℤ → ℤ
past_end inc hi = if inc then hi +ℤ pos 1 else hi

module _ (R : Reading) where
  abbrev pub unary_of : UnaryOp → ℤ → ℤ
  unary_of not_ v = of_bool (not (truth v))
  unary_of op v = R.unary_value op v

  abbrev pub binary_of : BinaryOp → ℤ → ℤ → ℤ
  binary_of land v w = of_bool (truth v && truth w)
  binary_of lor v w = of_bool (truth v || truth w)
  binary_of op v w = R.binary_value op v w

  unfoldable mutual
    pub eval : Expr → Env → ℤ
    eval absent env = pos 0
    eval (int_lit v) env = pos v
    eval (float_lit s f) env = R.float_value s f
    eval (bool_lit b) env = of_bool b
    eval (str_lit s) env = R.str_value s
    eval (char_lit c) env = pos c
    eval (var_ref x) env = env.now x
    eval (unary op e) env = unary_of op (eval e env)
    eval (binary op a b) env = binary_of op (eval a env) (eval b env)
    eval (ternary c t e) env =
        let x = eval t env in let y = eval e env in if truth (eval c env) then x else y
    eval (cast ty e) env = R.cast_value ty (eval e env)
    eval (old e) env = eval e (record { now = env.before; before = env.before })
    eval (index a i) env = R.index_value (eval a env) (eval i env)
    eval (field e f) env = R.field_value (eval e env) f
    eval (call f callee args) env = R.call_value f (eval callee env) (eval_args args env)
    eval (method_call f e args) env = R.call_value f (eval e env) (eval_args args env)
    eval (quant all b ty lo hi inc body) env = of_bool (
        quantified all (λ k. truth (eval body (bind b k env))) (eval lo env)
          (past_end inc (eval hi env)))
    eval (other n) env = R.other_value n env

    pub eval_args : Exprs → Env → List ℤ
    eval_args no_args env = []
    eval_args (arg e es) env = eval e env ∷ eval_args es env

  -- The expression is true.
  abbrev pub Holds : Expr → Env → Type 0
  Holds e env = truth (eval e env) ≡ true

  -- `says` is what a premise of the solver's language states.
  module _ (says : Text → Env → Bool) where
    -- The expression is true wherever the premises are.
    abbrev pub Proves : Expr → List Text → Type 0
    Proves e ps = (env : Env) → all (λ p. says p env) ps ≡ true → Holds e env

    abbrev pub Valid : ProofGoal → Type 0
    Valid g = Proves g.term g.premises

    -- The encoder and the solver agree with the meaning of a condition and its negation.
    abbrev pub Encodes : (Expr → Text) → Expr → Type 0
    Encodes lower c =
        (env : Env)
        → (says (lower c) env ≡ truth (eval c env))
          × (says (not_text (lower c)) env ≡ not (truth (eval c env)))

-- The expression does not mention the variable, and has no quantifier and no opaque node.
unfoldable mutual
  pub avoids : Text → Expr → Bool
  avoids b (var_ref x) = not (text_eq x b)
  avoids b (unary op e) = avoids b e
  avoids b (binary op l r) = avoids b l && avoids b r
  avoids b (ternary c t e) = avoids b c && avoids b t && avoids b e
  avoids b (cast ty e) = avoids b e
  avoids b (old e) = avoids b e
  avoids b (index a i) = avoids b a && avoids b i
  avoids b (field e f) = avoids b e
  avoids b (call f callee args) = avoids b callee && avoid_args b args
  avoids b (method_call f e args) = avoids b e && avoid_args b args
  avoids b (quant all x ty lo hi inc body) = false
  avoids b (other n) = false
  avoids b _ = true

  pub avoid_args : Text → Exprs → Bool
  avoid_args b no_args = true
  avoid_args b (arg e es) = avoids b e && avoid_args b es

-- The substitution reaches the variable wherever it is mentioned.
unfoldable pub reached : Text → Expr → Bool
unfolding avoids
reached b (var_ref x) = true
reached b (unary op e) = reached b e
reached b (binary op l r) = reached b l && reached b r
reached b (ternary c t e) = reached b c && reached b t && reached b e
reached b (cast ty e) = reached b e
reached b (old e) = reached b e
reached b (index a i) = reached b a && reached b i
reached b (field e f) = reached b e
reached b e = avoids b e

-- A bound that `long long` holds, also behind `hi + 1`.
abbrev pub IsSmall : Expr → Type 0
IsSmall (int_lit v) = v + 1 < 2 ^ 63
IsSmall _ = Unit

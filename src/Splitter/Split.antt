-- ===== src/Splitter/Split.antt =====
-- `splitGoal` of src/ProofSplitter.cpp.
use oxide_lang_reupload.Prelude.{
  ℕ, zero, suc, ◌+◌, ◌-◌, ◌/◌, ◌%◌, Text, codes, Bool, true, false, not, ◌||◌, List, [], ◌∷◌, ◌++◌,
  Option, none, some, ltb, leb, if◌then◌else◌, length,
}
use oxide_lang_reupload.Prelude.Int.{ℤ, pos, pos_part, neg_part, ltb_ℤ, ◌+ℤ◌}
use oxide_lang_reupload.Types.Base.{BType, i64, i32, u64, u32}
use oxide_lang_reupload.Types.Tables.{has_tag}
use oxide_lang_reupload.Splitter.Expr.{
  Expr, absent, int_lit, bool_lit, unary, not_, binary, land, lor, ternary, quant,
  contains_quantifier,
}
use oxide_lang_reupload.Splitter.Subst.{subst_binder, as_i64}

pub record ProofGoal : Type 0 where
  pub label : Text
  pub term : Expr
  pub premises : List Text
  pub is_ground : Bool

-- `std::to_string`, on fuel.
unfoldable pub digits_of : ℕ → ℕ → Text
digits_of zero n = []
digits_of (suc fuel) n =
    let rest = digits_of fuel (n / 10) in
    if ltb n 10 then (48 + n) ∷ [] else rest ++ (48 + n % 10) ∷ []

abbrev pub to_string : ℕ → Text
to_string n = digits_of (suc n) n

unfoldable pub sub_label : Text → ℕ → Text
unfolding digits_of
sub_label label i = label ++ codes "#s" ++ to_string i

-- The parts of a body `!A || (C && D)`: what `matchDesugaredImplies` and the test behind it find.
abbrev pub implied_pair : Expr → Option (Expr × Expr × Expr)
implied_pair (binary lor (unary not_ a) (binary land c d)) = some (a, c, d)
implied_pair _ = none

abbrev pub literal : Expr → Option ℕ
literal (int_lit v) = some v
literal _ = none

abbrev pub unrolls_type : BType → Bool
unrolls_type t = has_tag t i64 || has_tag t i32 || has_tag t u64 || has_tag t u32

abbrev pub range_of : Option ℕ → Option ℕ → Bool → Option (ℤ × ℤ)
range_of (some lo) (some hi) inc = some (as_i64 lo, (if inc then as_i64 hi +ℤ pos 1 else as_i64 hi))
range_of _ _ inc = none

-- The bounds to unroll between, the upper one exclusive. No overflow of `hi + 1` is modelled.
abbrev pub quant_literal_range : Bool → BType → Expr → Expr → Bool → Option (ℤ × ℤ)
quant_literal_range all ty lo hi inc =
    if all then (if unrolls_type ty then range_of (literal lo) (literal hi) inc else none) else none

abbrev pub goal : Text → Expr → List Text → Bool → ProofGoal
goal label e ps ground' = record { label = label; term = e; premises = ps; is_ground = ground' }

-- The forall over one half of an implication's consequent.
abbrev pub half : Text → BType → Expr → Expr → Bool → Expr → Expr → Expr
half b ty lo hi inc a c = quant true b ty lo hi inc (binary lor (unary not_ a) c)

-- The instances of the body from `k` on, `n` of them.
unfoldable pub instances : ℕ → ℤ → ℕ → Text → List Text → Text → Expr → List ProofGoal
unfolding subst_binder
instances zero k i label ps b body = []
instances (suc n) k i label ps b body =
    goal (sub_label label i) (subst_binder body b k) ps true
    ∷ instances n (k +ℤ pos 1) (i + 1) label ps b body

-- `b - a`, where it is not negative.
abbrev pub count : ℤ → ℤ → ℕ
count a b = (pos_part b + neg_part a) - (pos_part a + neg_part b)

-- Each premise alone, from number `i` on.
abbrev pub alone : Text → Expr → Bool → ℕ → List Text → List ProofGoal
alone label e g i [] = []
alone label e g i (p ∷ ps) =
    goal (label ++ codes "#p" ++ to_string i) e (p ∷ []) g ∷ alone label e g (i + 1) ps

-- The last strategy, or the goal as it is.
unfoldable pub isolate : Expr → Text → List Text → Bool → List ProofGoal
unfolding digits_of
isolate e label ps g =
    if leb 2 (length ps)
    then alone label e g 0 ps ++ goal (label ++ codes "#pfull") e ps g ∷ []
    else goal label e ps g ∷ []

-- Strategy 3, at the bounds found.
unfoldable pub unroll :
    Option (ℤ × ℤ) → Text → Expr → Expr → Text → List Text → Bool → List ProofGoal
unfolding instances isolate
unroll none b body q label ps g = isolate q label ps g
unroll (some (lo, hi)) b body q label ps g =
    if ltb_ℤ hi lo
    then goal (sub_label label 0) (bool_lit true) ps true ∷ []
    else if leb (count lo hi) 1024
    then instances (count lo hi) lo 0 label ps b body
    else isolate q label ps g

-- Strategies 2 and 3 on a quantifier.
unfoldable pub split_quant :
    Option (Expr × Expr × Expr)
    → Bool
    → Text
    → BType
    → Expr
    → Expr
    → Bool
    → Expr
    → Text
    → List Text
    → Bool
    → List ProofGoal
unfolding unroll
split_quant (some (a, c, d)) all b ty lo hi inc body label ps g =
    goal (sub_label label 0) (half b ty lo hi inc a c) ps false
    ∷ goal (sub_label label 1) (half b ty lo hi inc a d) ps false
    ∷ []
split_quant none all b ty lo hi inc body label ps g =
    unroll (quant_literal_range all ty lo hi inc) b body (quant all b ty lo hi inc body) label ps g

abbrev pub not_text : Text → Text
not_text t = codes "(not " ++ t ++ codes ")"

abbrev pub or_itself : ProofGoal → List ProofGoal → List ProofGoal
or_itself g [] = g ∷ []
or_itself g (x ∷ xs) = x ∷ xs

-- `lower` is the encoder of conditions, `smtExpr`.
module _ (lower : Expr → Text) where
  -- Strategy 4.
  abbrev pub split_branch : Expr → Expr → Expr → Text → List Text → List ProofGoal
  split_branch c t e label ps =
      goal (sub_label label 0) t (ps ++ lower c ∷ []) (not (contains_quantifier t))
      ∷ goal (sub_label label 1) e (ps ++ not_text (lower c) ∷ []) (not (contains_quantifier e))
      ∷ []

  -- `splitGoalImpl` on the parts of a goal.
  unfoldable pub split_term : Expr → Text → List Text → Bool → List ProofGoal
  unfolding split_quant contains_quantifier
  split_term absent label ps g = goal label absent ps g ∷ []
  split_term (binary land a b) label ps g =
      split_term a (sub_label label 0) ps (not (contains_quantifier a))
      ++ split_term b (sub_label label 1) ps (not (contains_quantifier b))
  split_term (quant all b ty lo hi inc body) label ps g =
      split_quant (implied_pair body) all b ty lo hi inc body label ps g
  split_term (ternary c t e) label ps g = split_branch c t e label ps
  split_term e label ps g = isolate e label ps g

  unfoldable pub split_goal : ProofGoal → List ProofGoal
  unfolding split_term
  split_goal g = split_term g.term g.label g.premises g.is_ground

  -- The goals that `smtDischargeGoal` emits: an empty split falls back to the goal.
  unfoldable pub goals_to_discharge : ProofGoal → List ProofGoal
  unfolding split_goal
  goals_to_discharge g = or_itself g (split_goal g)

-- ===== src/Splitter/Tests.antt =====
-- Runs of the splitter of src/ProofSplitter.cpp.
use oxide_lang_reupload.Prelude.{
  Text, codes, text_eq, Bool, true, false, not, ◌≡◌, refl, inl, [], ◌∷◌, All, arith, if◌then◌else◌,
  map,
}
use oxide_lang_reupload.Prelude.Int.{pos, ◌+ℤ◌}
use oxide_lang_reupload.Types.Base.{i64, plain}
use oxide_lang_reupload.Splitter.Expr.{
  not_, land, lor, mod_, eq, Expr, int_lit, bool_lit, var_ref, unary, binary, ternary, quant,
  contains_quantifier,
}
use oxide_lang_reupload.Splitter.Split.{
  ProofGoal, goal, instances, split_goal, goals_to_discharge, sub_label,
}
use oxide_lang_reupload.Splitter.Meaning.{
  Env, Reading, eval, Holds, Valid, Encodes, truth, all_from, reached,
}
use oxide_lang_reupload.Splitter.Sound.{
  Splits, goals_to_discharge_sound, goals_to_discharge_complete,
}
use oxide_lang_reupload.Splitter.Exists.{split_goal-exists_empty}
use oxide_lang_reupload.Splitter.Tactic.{select_tactic, cascade}
use oxide_lang_reupload.Splitter.Ground.{instances-quantifiers}

-- A reading in which the operations that the splitter does not know give 0.
abbrev reading : Reading
reading = record {
  float_value = λ s f. pos 0;
  str_value = λ s. pos 0;
  unary_value = λ op v. pos 0;
  binary_value = λ op v w. pos 0;
  cast_value = λ ty v. v;
  index_value = λ v i. pos 0;
  field_value = λ v f. pos 0;
  call_value = λ f v vs. pos 0;
  other_value = λ n env. pos 0;
}

-- The encoder of the one condition that occurs, and what its texts state.
abbrev lower : Expr → Text
lower e = codes "x"

abbrev says : Text → Env → Bool
says p env =
    if text_eq p (codes "x")
    then truth (env.now (codes "x"))
    else if text_eq p (codes "(not x)")
    then not (truth (env.now (codes "x")))
    else true

-- `forall i in 0..2: i || true`.
abbrev over_two : Expr
over_two =
    quant true (codes "i") (plain i64) (int_lit 0) (int_lit 2) false
      (binary lor (var_ref (codes "i")) (bool_lit true))

-- Under the forall, `x ? true : !false`.
abbrev both_parts : Expr
both_parts =
    binary land over_two
      (ternary (var_ref (codes "x")) (bool_lit true) (unary not_ (bool_lit false)))

abbrev parts_goal : ProofGoal
parts_goal = goal (codes "f_ensures_0") both_parts [] true

x_encoded : Encodes reading says lower (var_ref (codes "x"))
unfolding eval text_eq
x_encoded env = (refl, refl)

over_two-Splits : Splits reading says lower over_two
unfolding reached
over_two-Splits = (inl refl, refl, omega arith, omega arith)

labels :
    map (λ g. g.label) (goals_to_discharge lower parts_goal)
    ≡ codes "f_ensures_0#s0#s0"
      ∷ codes "f_ensures_0#s0#s1"
      ∷ codes "f_ensures_0#s1#s0"
      ∷ codes "f_ensures_0#s1#s1"
      ∷ []
unfolding goals_to_discharge sub_label
labels = refl

emitted_hold : All (Valid reading says) (goals_to_discharge lower parts_goal)
unfolding goals_to_discharge eval text_eq ◌+ℤ◌
emitted_hold = (λ env h. refl, (λ env h. refl, (λ env h. refl, (λ env h. refl, tt))))

goals_to_discharge_sound_example : Valid reading says parts_goal
goals_to_discharge_sound_example =
    goals_to_discharge_sound reading says lower parts_goal (over_two-Splits, x_encoded) emitted_hold

abbrev forall_goal : ProofGoal
forall_goal = goal (codes "f_ensures_1") over_two (codes "x" ∷ []) true

over_two_holds : Valid reading says forall_goal
unfolding eval text_eq all_from ◌+ℤ◌
over_two_holds env h = refl

goals_to_discharge_complete_example :
    All (Valid reading says) (goals_to_discharge lower forall_goal)
goals_to_discharge_complete_example =
    goals_to_discharge_complete reading says lower forall_goal over_two-Splits (omega arith)
      over_two_holds

-- `exists i in 3..1: !x || (true && false)`.
split_goal-exists_empty_example :
    let q = quant false (codes "i") (plain i64) (int_lit 3) (int_lit 1) false (
      binary lor
        (unary not_ (var_ref (codes "x")))
        (binary land (bool_lit true) (bool_lit false))) in
    All (Valid reading says) (split_goal lower (goal (codes "g") q [] true))
    × ((env : Env) → ¬ Holds reading q env)
split_goal-exists_empty_example =
    split_goal-exists_empty reading says lower (codes "i") (codes "g") (plain i64) 3 1
      (var_ref (codes "x")) (bool_lit true) (bool_lit false) true (omega arith)

-- `x % 2`, with a premise on the bit vector `x`.
abbrev remainder_goal : ProofGoal
remainder_goal =
    goal (codes "g") (binary mod_ (var_ref (codes "x")) (int_lit 2)) (codes "(= x y)" ∷ []) true

-- A forall over a remainder is not routed to the nonlinear tactic.
forall_remainder :
    select_tactic [] (
      goal
        (codes "g")
        (quant true
          (codes "i")
          (plain i64)
          (var_ref (codes "a"))
          (var_ref (codes "n"))
          false
          (binary eq (binary mod_ (var_ref (codes "i")) (int_lit 2)) (int_lit 0)))
        []
        true)
    ≡ cascade
unfolding select_tactic
forall_remainder = refl

instances-quantifiers_example :
    All
      (λ g.
        (contains_quantifier g.term ≡ contains_quantifier (var_ref (codes "i")))
        × (g.is_ground ≡ true))
      (instances 2 (pos 0) 0 (codes "g") [] (codes "i") (var_ref (codes "i")))
instances-quantifiers_example =
    instances-quantifiers 2 (pos 0) 0 (codes "g") [] (codes "i") (var_ref (codes "i"))

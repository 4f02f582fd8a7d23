-- ===== src/Splitter/Tactic.antt =====
-- `selectTactic` and `smtDischargeGoal` of src/ProofSplitter.cpp.
use oxide_lang_reupload.Prelude.{
  ℕ, Text, codes, Bool, true, false, not, ◌&&◌, ◌||◌, List, [], ◌∷◌, ◌++◌, any, map, length, ◌==◌,
  if◌then◌else◌,
}
use oxide_lang_reupload.Splitter.Expr.{Expr, absent, contains_quantifier, has_mod_or_div}
use oxide_lang_reupload.Splitter.Split.{ProofGoal, goals_to_discharge, to_string, digits_of}

pub data ProofTactic : Type 0 where
  qf_bv simplify nia cascade : ProofTactic

abbrev pub is_prefix : Text → Text → Bool
is_prefix [] t = true
is_prefix (a ∷ s) [] = false
is_prefix (a ∷ s) (b ∷ t) = (a == b) && is_prefix s t

-- `t.find(s) != std::string::npos`.
abbrev pub occurs : Text → Text → Bool
occurs s [] = is_prefix s []
occurs s (b ∷ t) = is_prefix s (b ∷ t) || occurs s t

abbrev pub has_bv : List Text → List Text → Bool
has_bv bv_vars premises = any (λ p. any (λ v. occurs v p) bv_vars) premises

abbrev pub is_absent : Expr → Bool
is_absent absent = true
is_absent _ = false

abbrev pub ground_goal : ProofGoal → Bool
ground_goal g = if is_absent g.term then g.is_ground else not (contains_quantifier g.term)

-- The tests at the end of `selectTactic`.
abbrev pub choose : Bool → Bool → Bool → ProofTactic
choose is_ground bv mod_or_div =
    if is_ground && bv
    then qf_bv
    else if is_ground
    then simplify
    else if mod_or_div
    then nia
    else cascade

unfoldable pub select_tactic : List Text → ProofGoal → ProofTactic
unfolding contains_quantifier has_mod_or_div
select_tactic bv_vars g = choose (ground_goal g) (has_bv bv_vars g.premises) (has_mod_or_div g.term)

abbrev pub tactic_strategy : ProofTactic → Text
tactic_strategy qf_bv = codes "(check-sat-using (then simplify solve-eqs smt))"
tactic_strategy simplify = codes "(check-sat-using (then simplify smt))"
tactic_strategy nia = codes "(check-sat-using (then simplify (using-params smt :mbqi true)))"
tactic_strategy cascade = codes "(check-sat-using (then simplify smt))"

abbrev pub bv_ops : List Text
bv_ops =
    codes "bvand"
    ∷ codes "bvor"
    ∷ codes "bvxor"
    ∷ codes "bvshl"
    ∷ codes "bvlshr"
    ∷ codes "bvashr"
    ∷ codes "bvadd"
    ∷ codes "bvsub"
    ∷ codes "bvmul"
    ∷ codes "bvult"
    ∷ codes "bvule"
    ∷ codes "bvslt"
    ∷ codes "bvsle"
    ∷ codes "bvnot"
    ∷ codes "bvneg"
    ∷ codes "(_ bv"
    ∷ codes "(_ BitVec"
    ∷ []

abbrev pub smt_term_has_bv : Text → Bool
smt_term_has_bv s = any (λ op. occurs op s) bv_ops

-- `if (sub.isGround && tac == ProofTactic::Simplify && smtTermHasBV(term)) tac = QF_BV;`
abbrev pub upgrade : Bool → Bool → ProofTactic → ProofTactic
upgrade is_ground bv simplify = if is_ground && bv then qf_bv else simplify
upgrade is_ground bv t = t

-- The tactics of the decidable fragments.
abbrev pub is_decided : ProofTactic → Bool
is_decided qf_bv = true
is_decided simplify = true
is_decided _ = false

-- The tactic of a goal whose term has been encoded as `term`.
unfoldable pub discharge_tactic : List Text → Text → ProofGoal → ProofTactic
unfolding select_tactic
discharge_tactic bv_vars term g =
    upgrade g.is_ground (smt_term_has_bv term) (select_tactic bv_vars g)

abbrev pub concat : List Text → Text
concat [] = []
concat (t ∷ ts) = t ++ concat ts

module _ (lower : Expr → Text) (bv_vars : List Text) where
  abbrev pub encoded : Expr → Text
  encoded e = if is_absent e then codes "true" else lower e

  -- The text that one goal adds to the output.
  unfoldable pub discharge_text : ℕ → ProofGoal → Text
  unfolding discharge_tactic digits_of
  discharge_text line g =
      let term = encoded g.term in
      let t = discharge_tactic bv_vars term g in
      concat (
        codes "; "
        ∷ g.label
        ∷ codes " (source line "
        ∷ to_string line
        ∷ codes ")\n"
        ∷ codes "; --- discharge ("
        ∷ g.label
        ∷ codes ") ---\n"
        ∷ codes "(push)\n"
        ∷ concat (map (λ p. codes "(assert " ++ p ++ codes ")\n") g.premises)
        ∷ codes "(define-fun "
        ∷ g.label
        ∷ codes "_ds () Bool "
        ∷ term
        ∷ codes ")\n"
        ∷ codes "(assert (not "
        ∷ g.label
        ∷ codes "_ds))\n"
        ∷ tactic_strategy t
        ∷ codes "\n"
        ∷ (if is_decided t then [] else tactic_strategy simplify ++ codes "\n")
        ∷ codes "(pop)\n\n"
        ∷ [])

  -- `smtDischargeGoal`: the text, and the number of goals.
  unfoldable pub smt_discharge_goal : ProofGoal → ℕ → Text × ℕ
  unfolding discharge_text goals_to_discharge
  smt_discharge_goal g line =
      let gs = goals_to_discharge lower g in (concat (map (discharge_text line) gs), length gs)

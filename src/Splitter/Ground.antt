-- ===== src/Splitter/Ground.antt =====
-- Which goals of src/ProofSplitter.cpp get the tactic of a decidable fragment.
use oxide_lang_reupload.Prelude.{
  ℕ, zero, suc, ◌+◌, Text, text_eq, Bool, true, false, ◌≡◌, refl, ◌↔◌, List, All, inl, inr,
  Bool-cases, ◌⊎◌,
}
use oxide_lang_reupload.Prelude.Int.{ℤ, pos, ◌+ℤ◌}
use oxide_lang_reupload.Splitter.Expr.{
  Expr, var_ref, unary, binary, ternary, cast, old, index, field, contains_quantifier,
}
use oxide_lang_reupload.Splitter.Subst.{subst_binder}
use oxide_lang_reupload.Splitter.Split.{ProofGoal, instances}
use oxide_lang_reupload.Splitter.Tactic.{ProofTactic, qf_bv, nia, is_decided, bv_ops}
use oxide_lang_reupload.Splitter.Parts.{Finds, IsQuantifier, Divides, Within, Some}

-- What a tactic tells of the tests, `q` being that a quantifier was found, `bv` that a premise or the
-- encoded term is on bit vectors, and `m` that the term divides.
record Chosen (q bv m : Bool) (t : ProofTactic) : Type 0 where
  decided : (is_decided t ≡ true) ↔ (q ≡ false)
  bit_vectors : t ≡ qf_bv → bv ≡ true
  nonlinear : t ≡ nia → m ≡ true

-- A premise of the goal has the name of a bit vector in it, or the encoded term the name of an
-- operation on bit vectors.
abbrev pub OnBits : List Text → Text → ProofGoal → Type 0
OnBits bv_vars term g =
    Some (λ p. Some (λ v. Within v p) bv_vars) g.premises ⊎ Some (λ op. Within op term) bv_ops

-- What a tactic tells of a goal.
pub record IsChosen (bv_vars : List Text) (term : Text) (g : ProofGoal) (t : ProofTactic)
    : Type 0 where
  pub decided : (is_decided t ≡ true) ↔ (¬ Finds IsQuantifier g.term)
  pub bit_vectors : t ≡ qf_bv → OnBits bv_vars term g
  pub nonlinear : t ≡ nia → Finds Divides g.term

contains-subst_binder :
    (e : Expr) (b : Text) (k : ℤ) → contains_quantifier (subst_binder e b k) ≡ contains_quantifier e
unfolding contains_quantifier subst_binder
contains-subst_binder (var_ref x) b k = elim (Bool-cases (text_eq x b)) [
  | inl same ↦ rw same refl
  | inr differs ↦ rw differs refl
]
contains-subst_binder (unary op e) b k = contains-subst_binder e b k
contains-subst_binder (binary op l r) b k =
    rw (contains-subst_binder l b k, contains-subst_binder r b k) refl
contains-subst_binder (ternary c t e) b k =
    rw (contains-subst_binder c b k, contains-subst_binder t b k, contains-subst_binder e b k) refl
contains-subst_binder (cast ty e) b k = contains-subst_binder e b k
contains-subst_binder (old e) b k = contains-subst_binder e b k
contains-subst_binder (index a i) b k =
    rw (contains-subst_binder a b k, contains-subst_binder i b k) refl
contains-subst_binder (field e f) b k = contains-subst_binder e b k
contains-subst_binder e b k = refl

-- Every instance of a body has a quantifier exactly when the body has, and is marked as ground in
-- either case.
pub instances-quantifiers :
    (n : ℕ) (k : ℤ) (i : ℕ) (label : Text) (ps : List Text) (b : Text) (body : Expr)
    → All
        (λ g. (contains_quantifier g.term ≡ contains_quantifier body) × (g.is_ground ≡ true))
        (instances n k i label ps b body)
unfolding instances
instances-quantifiers zero k i label ps b body = tt
instances-quantifiers (suc n) k i label ps b body = (
  (contains-subst_binder body b k, refl),
  instances-quantifiers n (k +ℤ pos 1) (i + 1) label ps b body,
)

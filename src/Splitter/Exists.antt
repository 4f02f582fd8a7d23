-- ===== src/Splitter/Exists.antt =====
-- Strategy 2 of src/ProofSplitter.cpp on an exists over an empty range.
use oxide_lang_reupload.Prelude.{ℕ, ◌≤◌, Text, Bool, false, ◌≡◌, refl, [], All, arith}
use oxide_lang_reupload.Prelude.Int.{pos}
use oxide_lang_reupload.Types.Base.{BType}
use oxide_lang_reupload.Splitter.Expr.{not_, land, lor, Expr, int_lit, unary, binary, quant}
use oxide_lang_reupload.Splitter.Split.{goal, count, split_goal, split_term, split_quant}
use oxide_lang_reupload.Splitter.Meaning.{Env, Reading, eval, Holds, Valid, all_from, any_from}

no_numbers : (v w : ℕ) → w ≤ v → count (pos v) (pos w) ≡ 0
no_numbers v w h = omega arith

-- An exists over an empty range of literal bounds, with an implication into a conjunction as its
-- body, is split into goals that hold in every reading, with no premises at all, and it is false
-- wherever it is evaluated.
pub split_goal-exists_empty :
    (R : Reading) (says : Text → Env → Bool) (lower : Expr → Text) (b label : Text) (ty : BType)
    (v w : ℕ) (a c d : Expr) (g : Bool)
    → w ≤ v
    → let q =
        quant false b ty
          (int_lit v)
          (int_lit w)
          false
          (binary lor (unary not_ a) (binary land c d)) in
      All (Valid R says) (split_goal lower (goal label q [] g)) × ((env : Env) → ¬ Holds R q env)
unfolding split_goal split_term split_quant eval all_from any_from
split_goal-exists_empty R says lower b label ty v w a c d g h =
    rw (no_numbers v w h) ((λ env hp. refl, (λ env hp. refl, tt)), λ env t. cc (t))

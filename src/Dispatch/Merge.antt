-- ===== src/Dispatch/Merge.antt =====
-- `mergeResults` of src/ProofDispatch.cpp.
use oxide_lang_reupload.Prelude.{
  Text, codes, text_eq, text_eq_iff, Bool, true, false, ◌&&◌, ◌||◌, ◌≡◌, refl, ap, sym, subst, ◌∙◌,
  arith, List, [], ◌∷◌, any, if◌then◌else◌, Bool-cases, inl, inr,
}

pub record SolverResult : Type 0 where
  pub solver : Text
  pub status : Text
  pub available : Bool
  pub raw : Text

pub record MergedResult : Type 0 where
  pub status : Text
  pub disagreement : Bool
  pub solvers : List SolverResult

abbrev pub is_unsat : SolverResult → Bool
is_unsat r = text_eq r.status (codes "unsat")

abbrev pub is_sat : SolverResult → Bool
is_sat r = text_eq r.status (codes "sat")

-- The loop over the results, with `haveUnsat` and `haveSat`.
unfoldable pub seen : List SolverResult → Bool → Bool → Bool × Bool
seen [] unsat sat = (unsat, sat)
seen (r ∷ rs) unsat sat =
    let with_unsat = seen rs true sat in
    let with_sat = seen rs unsat true in
    let with_none = seen rs unsat sat in
    if is_unsat r then with_unsat else if is_sat r then with_sat else with_none

abbrev pub verdict : Bool × Bool → Text
verdict (unsat, sat) =
    if unsat && sat
    then codes "BUG"
    else if unsat
    then codes "unsat"
    else if sat
    then codes "sat"
    else codes "unknown"

unfoldable pub merge_results : List SolverResult → MergedResult
unfolding seen
merge_results rs =
    let flags = seen rs false false in
    record { status = verdict flags; disagreement = flags.0 && flags.1; solvers = rs }

-- No status is both words.
not_both : (t : Text) → text_eq t (codes "unsat") ≡ true → text_eq t (codes "sat") ≡ false
unfolding text_eq
not_both t h =
    subst (λ x. text_eq x (codes "sat") ≡ false) (sym ((text_eq_iff t (codes "unsat")).0 h)) refl

absorb : (b : Bool) → true ≡ (b || true)
absorb true = refl
absorb false = refl

seen-any :
    (rs : List SolverResult) (u s : Bool) → seen rs u s ≡ (u || any is_unsat rs, s || any is_sat rs)
unfolding seen
seen-any [] true true = refl
seen-any [] true false = refl
seen-any [] false true = refl
seen-any [] false false = refl
seen-any (r ∷ rs) u s = elim (Bool-cases (is_unsat r)) [
  | inl e ↦
      let no_sat : is_sat r ≡ false = not_both r.status e in
      rw (e, no_sat) (seen-any rs true s ∙ ap (λ x. (x, s || any is_sat rs)) (absorb u))
  | inr e ↦ elim (Bool-cases (is_sat r)) [
    | inl f ↦ rw (e, f) (seen-any rs u true ∙ ap (λ x. (u || any is_unsat rs, x)) (absorb s))
    | inr f ↦ rw (e, f) (seen-any rs u s)
  ]
]

-- Some solver's status is `w`.
pub data Says (w : Text) : List SolverResult → Type 0 where
  here : {r : SolverResult} {rs : List SolverResult} → r.status ≡ w → Says w (r ∷ rs)
  there : {r : SolverResult} {rs : List SolverResult} → Says w rs → Says w (r ∷ rs)

Says-any : (w : Text) (rs : List SolverResult) → Says w rs → any (λ r. text_eq r.status w) rs ≡ true
Says-any w [] m = elim m [ ]
Says-any w (r ∷ rs) (here e) = rw ((text_eq_iff r.status w).1 e) refl
Says-any w (r ∷ rs) (there m) = rw (Says-any w rs m) (or_true (text_eq r.status w))
  where
    or_true : (b : Bool) → (b || true) ≡ true
    or_true true = refl
    or_true false = refl

any-Says : (w : Text) (rs : List SolverResult) → any (λ r. text_eq r.status w) rs ≡ true → Says w rs
any-Says w [] h = absurd (ground (arith, h))
any-Says w (r ∷ rs) h = elim (Bool-cases (text_eq r.status w)) [
  | inl e ↦ here ((text_eq_iff r.status w).0 e)
  | inr e ↦ there (any-Says w rs (rw e at h))
]

silent :
    (w : Text) (rs : List SolverResult) → any (λ r. text_eq r.status w) rs ≡ false → ¬ Says w rs
silent w rs h m = ground (arith, sym (Says-any w rs m) ∙ h)

-- What the results of the solvers merge into: a status, and whether a disagreement is flagged.
pub data IsMerge (rs : List SolverResult) : Text → Bool → Type 0 where
  bug : Says (codes "unsat") rs → Says (codes "sat") rs → IsMerge rs (codes "BUG") true
  all_unsat : Says (codes "unsat") rs → ¬ Says (codes "sat") rs → IsMerge rs (codes "unsat") false
  all_sat : ¬ Says (codes "unsat") rs → Says (codes "sat") rs → IsMerge rs (codes "sat") false
  unknown : ¬ Says (codes "unsat") rs → ¬ Says (codes "sat") rs → IsMerge rs (codes "unknown") false

-- Where one solver says "unsat" and one says "sat", in whatever order and among whatever others, the
-- merged status is "BUG" and the disagreement is flagged. Where one says "unsat" and none "sat", it is
-- "unsat"; where one says "sat" and none "unsat", it is "sat"; where none says either, it is
-- "unknown"; and none of these is flagged.
pub merge_results-IsMerge :
    (rs : List SolverResult) → IsMerge rs (merge_results rs).status (merge_results rs).disagreement
unfolding merge_results
merge_results-IsMerge rs =
    let u = codes "unsat" in
    let s = codes "sat" in
    let flags = seen-any rs false false in
    elim (Bool-cases (any is_unsat rs)) [
      | inl a ↦ elim (Bool-cases (any is_sat rs)) [
        | inl b ↦ rw (flags, a, b) (IsMerge.bug (any-Says u rs a) (any-Says s rs b))
        | inr b ↦ rw (flags, a, b) (IsMerge.all_unsat (any-Says u rs a) (silent s rs b))
      ]
      | inr a ↦ elim (Bool-cases (any is_sat rs)) [
        | inl b ↦ rw (flags, a, b) (IsMerge.all_sat (silent u rs a) (any-Says s rs b))
        | inr b ↦ rw (flags, a, b) (IsMerge.unknown (silent u rs a) (silent s rs b))
      ]
    ]

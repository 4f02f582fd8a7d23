-- ===== src/Sema/Suggest.antt =====
-- src/Sema.cpp, `editDist` and `suggest`: the name proposed for one that is not declared.
pub mod Edits
pub mod Nearest
use oxide_lang_reupload.Prelude.{
  ℕ, suc, ◌+◌, ◌/◌, Text, length, Bool, List, [], ◌∷◌, ◌==◌, ltb, ◌||◌, if◌then◌else◌,
}

-- `std::min`.
abbrev pub min : ℕ → ℕ → ℕ
min a b = if ltb b a then b else a

-- `prev` before the first turn: `from`, `from + 1`, ... for the characters of `b`.
unfoldable pub first_row : Text → ℕ → List ℕ
first_row [] from = from ∷ []
first_row (y ∷ b) from = from ∷ first_row b (suc from)

-- The loop over `j`: `cur[j]`, ... from `cur[j-1]` in `left`, `b[j-1]`, ... and `prev[j-1]`, ...
unfoldable pub fill_row : ℕ → Text → List ℕ → ℕ → List ℕ
fill_row x (y ∷ b) (diagonal ∷ up ∷ prev) left =
    let cost = if x == y then 0 else 1 in
    let here = min (min (suc up) (suc left)) (diagonal + cost) in
    here ∷ fill_row x b (up ∷ prev) here
fill_row x b prev left = []

-- The loop over `i`, from `a[i-1]`, ... and `prev`; the row it ends with.
unfoldable pub fill_rows : ℕ → Text → Text → List ℕ → List ℕ
unfolding fill_row
fill_rows i [] b prev = prev
fill_rows i (x ∷ a) b prev = fill_rows (suc i) a b (i ∷ fill_row x b prev i)

-- `prev[m]`, the last entry of a row.
unfoldable pub last_entry : List ℕ → ℕ
last_entry [] = 0
last_entry (n ∷ []) = n
last_entry (n ∷ m ∷ row) = last_entry (m ∷ row)

unfoldable pub edit_dist : Text → Text → ℕ
unfolding first_row fill_rows last_entry
edit_dist a b = last_entry (fill_rows 1 a b (first_row b 0))

-- `best` and `bestD`.
pub record Best : Type 0 where
  pub best : Text
  pub best_d : ℕ

-- One turn of the loop over the candidates.
unfoldable pub consider : Text → Text → Best → Best
unfolding edit_dist
consider name [] s = s
consider name (x ∷ c) s =
    let d = edit_dist name (x ∷ c) in
    if ltb d s.best_d then record { best = x ∷ c; best_d = d } else s

unfoldable pub consider_all : Text → List Text → Best → Best
unfolding consider
consider_all name [] s = s
consider_all name (c ∷ cands) s = consider_all name cands (consider name c s)

abbrev pub is_empty : Text → Bool
is_empty [] = Bool.true
is_empty (x ∷ s) = Bool.false

abbrev pub unless_far : Text → Best → Text
unless_far name s = if is_empty s.best || ltb (length name / 2 + 2) s.best_d then [] else s.best

unfoldable pub suggest : Text → List Text → Text
unfolding consider_all
suggest name cands = unless_far name (consider_all name cands (record { best = []; best_d = 1000 }))

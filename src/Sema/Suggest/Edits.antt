-- ===== src/Sema/Suggest/Edits.antt =====
-- The least number of edits between two names, apart from the table of `editDist`.
use oxide_lang_reupload.Prelude.{
  ◌⊎◌, ℕ, suc, ◌+◌, ◌≤◌, Text, length, List, [], ◌∷◌, ◌++◌, append-nil, ◌==◌, ==_iff, ==_refl,
  if◌then◌else◌, Bool-cases, inl, inr, ◌≡◌, refl, sym, subst, ap, ◌∙◌, arith,
}
use oxide_lang_reupload.Sema.Suggest.{min, first_row, fill_row, fill_rows, last_entry, edit_dist}

-- `Edits a b n`: `n` single-character edits, done from left to right, turn `a` into `b`.
pub data Edits : Text → Text → ℕ → Type 0 where
  done : Edits [] [] 0
  keep : {x : ℕ} {a b : Text} {n : ℕ} → Edits a b n → Edits (x ∷ a) (x ∷ b) n
  replace : {x y : ℕ} {a b : Text} {n : ℕ} → Edits a b n → Edits (x ∷ a) (y ∷ b) (suc n)
  delete : {x : ℕ} {a b : Text} {n : ℕ} → Edits a b n → Edits (x ∷ a) b (suc n)
  insert : {y : ℕ} {a b : Text} {n : ℕ} → Edits a b n → Edits a (y ∷ b) (suc n)

-- `a` from its end, in front of `c`.
abbrev reverse_onto : Text → Text → Text
reverse_onto [] c = c
reverse_onto (x ∷ a) c = reverse_onto a (x ∷ c)

reverse_onto-twice : (a c d : Text) → reverse_onto (reverse_onto a c) d ≡ reverse_onto c (a ++ d)
reverse_onto-twice [] c d = refl
reverse_onto-twice (x ∷ a) c d = reverse_onto-twice a (x ∷ c) d

reverse_twice : (a : Text) → reverse_onto (reverse_onto a []) [] ≡ a
reverse_twice a = reverse_onto-twice a [] [] ∙ append-nil a

as_many : {a b : Text} {n m : ℕ} → n ≡ m → Edits a b n → Edits a b m
as_many {a} {b} = subst (Edits a b)

-- Edits from the right to the left are edits from the left to the right.
Edits-reverse_onto :
    {a b c d : Text} {n m : ℕ}
    → Edits a b n
    → Edits c d m
    → Edits (reverse_onto a c) (reverse_onto b d) (n + m)
Edits-reverse_onto done f = as_many (omega arith) f
Edits-reverse_onto (keep e) f = Edits-reverse_onto e (keep f)
Edits-reverse_onto (replace e) f = as_many (omega arith) (Edits-reverse_onto e (replace f))
Edits-reverse_onto (delete e) f = as_many (omega arith) (Edits-reverse_onto e (delete f))
Edits-reverse_onto (insert e) f = as_many (omega arith) (Edits-reverse_onto e (insert f))

Edits-reverse : {a b : Text} {n : ℕ} → Edits a b n → Edits (reverse_onto a []) (reverse_onto b []) n
Edits-reverse {n = n} e = as_many (omega arith) (Edits-reverse_onto e done)

-- The recurrence of the edit distance.
least : Text → Text → ℕ
least [] b = length b
least (x ∷ a) [] = suc (length a)
least (x ∷ a) (y ∷ b) =
    min (min (suc (least a (y ∷ b))) (suc (least (x ∷ a) b)))
      (least a b + (if x == y then 0 else 1))

least-nil : (a : Text) → least a [] ≡ length a
unfolding least
least-nil [] = refl
least-nil (x ∷ a) = refl

min-cases : (a b : ℕ) → (min a b ≡ a) ⊎ (min a b ≡ b)
min-cases a b = ground arith

min_le : (a b : ℕ) → (min a b ≤ a) × (min a b ≤ b)
min_le a b = ground arith

change_last :
    {a b : Text} {n : ℕ} (x y : ℕ)
    → Edits a b n
    → Edits (x ∷ a) (y ∷ b) (n + (if x == y then 0 else 1))
change_last {a} {b} {n} x y e = elim (Bool-cases (x == y)) [
  | inl h ↦
      rw h
        (as_many (omega arith) (subst (λ z. Edits (x ∷ a) (z ∷ b) n) ((==_iff x y).0 h) (keep e)))
  | inr h ↦ rw h (as_many (omega arith) (replace e))
]

-- As many edits as the recurrence says are enough.
least-Edits : (a b : Text) → Edits a b (least a b)
unfolding least
least-Edits [] [] = done
least-Edits [] (y ∷ b) = insert (least-Edits [] b)
least-Edits (x ∷ a) [] = delete (as_many (least-nil a) (least-Edits a []))
least-Edits (x ∷ a) (y ∷ b) =
    let up = suc (least a (y ∷ b)) in
    let left = suc (least (x ∷ a) b) in
    let diagonal = least a b + (if x == y then 0 else 1) in
    elim (min-cases (min up left) diagonal) [
      | inr e ↦ as_many (sym e) (change_last x y (least-Edits a b))
      | inl e ↦ elim (min-cases up left) [
        | inl f ↦ as_many (sym (e ∙ f)) (delete (least-Edits a (y ∷ b)))
        | inr f ↦ as_many (sym (e ∙ f)) (insert (least-Edits (x ∷ a) b))
      ]
    ]

least-delete : (x : ℕ) (a b : Text) → least (x ∷ a) b ≤ suc (least a b)
unfolding least
least-delete x a [] = omega (arith, least-nil a)
least-delete x a (y ∷ b) = ground arith

least-insert : (y : ℕ) (a b : Text) → least a (y ∷ b) ≤ suc (least a b)
unfolding least
least-insert y [] b = omega arith
least-insert y (x ∷ a) b = ground arith

least-change :
    (x y : ℕ) (a b : Text) → least (x ∷ a) (y ∷ b) ≤ least a b + (if x == y then 0 else 1)
unfolding least
least-change x y a b = ground arith

least-done : least [] [] ≤ 0
unfolding least
least-done = omega arith

-- Fewer edits are not.
least_le : {a b : Text} {n : ℕ} → Edits a b n → least a b ≤ n
least_le done = least-done
least_le (keep {x = x} {a = a} {b = b} e) =
    omega (arith, least_le e, rw (==_refl x) at (least-change x x a b))
least_le (replace {x = x} {y = y} {a = a} {b = b} e) =
    ground (arith, least_le e, least-change x y a b)
least_le (delete {x = x} {a = a} {b = b} e) = omega (arith, least_le e, least-delete x a b)
least_le (insert {y = y} {a = a} {b = b} e) = omega (arith, least_le e, least-insert y a b)

-- The row of the table under a prefix of the first name, both prefixes held from their ends.
abbrev row_of : Text → Text → Text → List ℕ
row_of ra rb [] = least ra rb ∷ []
row_of ra rb (y ∷ b) = least ra rb ∷ row_of ra (y ∷ rb) b

first_row-least : (rb b : Text) → first_row b (length rb) ≡ row_of [] rb b
unfolding first_row least
first_row-least rb [] = refl
first_row-least rb (y ∷ b) = ap (λ r. length rb ∷ r) (first_row-least (y ∷ rb) b)

fill_row-least :
    (x : ℕ) (ra rb b : Text)
    → (least (x ∷ ra) rb ∷ fill_row x b (row_of ra rb b) (least (x ∷ ra) rb)) ≡ row_of (x ∷ ra) rb b
unfolding fill_row least
fill_row-least x ra rb [] = refl
fill_row-least x ra rb (y ∷ []) = refl
fill_row-least x ra rb (y ∷ z ∷ b) =
    ap (λ r. least (x ∷ ra) rb ∷ r) (fill_row-least x ra (y ∷ rb) (z ∷ b))

-- The left column counts the characters of the prefix.
fill_rows-least :
    (ra a b : Text)
    → fill_rows (suc (length ra)) a b (row_of ra [] b) ≡ row_of (reverse_onto a ra) [] b
unfolding fill_rows least
fill_rows-least ra [] b = refl
fill_rows-least ra (x ∷ a) b =
    ap (fill_rows (suc (suc (length ra))) a b) (fill_row-least x ra [] b)
    ∙ fill_rows-least (x ∷ ra) a b

last_entry-row_of : (ra rb b : Text) → last_entry (row_of ra rb b) ≡ least ra (reverse_onto b rb)
unfolding last_entry
last_entry-row_of ra rb [] = refl
last_entry-row_of ra rb (y ∷ []) = refl
last_entry-row_of ra rb (y ∷ z ∷ b) = last_entry-row_of ra (y ∷ rb) (z ∷ b)

-- `editDist` is the recurrence, read from the ends of the names.
edit_dist-least : (a b : Text) → edit_dist a b ≡ least (reverse_onto a []) (reverse_onto b [])
unfolding edit_dist
edit_dist-least a b =
    ap (λ r. last_entry (fill_rows 1 a b r)) (first_row-least [] b)
    ∙ ap last_entry (fill_rows-least [] a b)
    ∙ last_entry-row_of (reverse_onto a []) [] b

-- The distance computed with two rows of the table is the least number of insertions, deletions and
-- replacements of single characters that turn the first name into the second: that many are enough,
-- and no fewer are.
pub edit_dist-IsLeast :
    (a b : Text) → Edits a b (edit_dist a b) × ((n : ℕ) → Edits a b n → edit_dist a b ≤ n)
edit_dist-IsLeast a b =
    let ra = reverse_onto a [] in
    let rb = reverse_onto b [] in
    let e = edit_dist-least a b in
    (
      subst (λ s. Edits s b (edit_dist a b)) (reverse_twice a)
          (subst (λ t. Edits (reverse_onto ra []) t (edit_dist a b)) (reverse_twice b)
            (Edits-reverse (as_many (sym e) (least-Edits ra rb)))),
      λ n f. rw e (least_le (Edits-reverse f)),
    )

-- ===== src/Splitter/Parts.antt =====
-- The parts of an expression that src/ProofSplitter.cpp looks into, and what is found in them.
use oxide_lang_reupload.Prelude.{
  Text, Bool, true, false, ◌||◌, ◌≡◌, refl, List, [], ◌∷◌, ◌++◌, any, ◌⊎◌, inl, inr, ◌==◌, ==_iff,
  &&_iff, arith,
}
use oxide_lang_reupload.Types.Base.{BType}
use oxide_lang_reupload.Splitter.Expr.{
  UnaryOp, BinaryOp, Expr, Exprs, no_args, arg, unary, binary, ternary, cast, old, index, field,
  call, method_call, quant, contains_quantifier, any_quantifier, is_mod_or_div, has_mod_or_div,
}
use oxide_lang_reupload.Splitter.Tactic.{is_prefix, occurs}

pub data Argument : Expr → Exprs → Type 0 where
  first : {e : Expr} {es : Exprs} → Argument e (arg e es)
  later : {e e' : Expr} {es : Exprs} → Argument e es → Argument e (arg e' es)

-- An operand, an argument or the receiver of the node. The parts of other nodes are not looked into.
pub data Part : Expr → Expr → Type 0 where
  operand : {op : UnaryOp} {e : Expr} → Part e (unary op e)
  left : {op : BinaryOp} {a b : Expr} → Part a (binary op a b)
  right : {op : BinaryOp} {a b : Expr} → Part b (binary op a b)
  condition : {c t e : Expr} → Part c (ternary c t e)
  positive : {c t e : Expr} → Part t (ternary c t e)
  negative : {c t e : Expr} → Part e (ternary c t e)
  converted : {t : BType} {e : Expr} → Part e (cast t e)
  former : {e : Expr} → Part e (old e)
  array : {a i : Expr} → Part a (index a i)
  position : {a i : Expr} → Part i (index a i)
  owner : {f : Text} {e : Expr} → Part e (field e f)
  passed : {f : Text} {c e : Expr} {es : Exprs} → Argument e es → Part e (call f c es)
  receiver : {f : Text} {e : Expr} {es : Exprs} → Part e (method_call f e es)
  sent : {f : Text} {o e : Expr} {es : Exprs} → Argument e es → Part e (method_call f o es)

-- A node with the property, at any depth.
pub data Finds (P : Expr → Type 0) : Expr → Type 0 where
  found : {e : Expr} → P e → Finds P e
  inside : {e e' : Expr} → Part e' e → Finds P e' → Finds P e

pub data IsQuantifier : Expr → Type 0 where
  quantifier :
      {all : Bool} {b : Text} {ty : BType} {lo hi : Expr} {inc : Bool} {body : Expr}
      → IsQuantifier (quant all b ty lo hi inc body)

pub data Divides : Expr → Type 0 where
  quotient : {a b : Expr} → Divides (binary BinaryOp.div a b)
  remainder : {a b : Expr} → Divides (binary BinaryOp.mod_ a b)

or_true : (b : Bool) → (b || true) ≡ true
or_true true = refl
or_true false = refl

pub or_cases : (a b : Bool) → (a || b) ≡ true → (a ≡ true) ⊎ (b ≡ true)
or_cases true b h = inl refl
or_cases false b h = inr h

any_quantifier-Argument :
    {e : Expr} {es : Exprs}
    → Argument e es
    → contains_quantifier e ≡ true
    → any_quantifier es ≡ true
unfolding contains_quantifier any_quantifier
any_quantifier-Argument first h = rw h refl
any_quantifier-Argument (later {e' = e'} a) h =
    rw (any_quantifier-Argument a h) (or_true (contains_quantifier e'))

contains_quantifier-Part :
    {e' e : Expr} → Part e' e → contains_quantifier e' ≡ true → contains_quantifier e ≡ true
unfolding contains_quantifier
contains_quantifier-Part operand h = h
contains_quantifier-Part left h = rw h refl
contains_quantifier-Part (right {a = a}) h = rw h (or_true (contains_quantifier a))
contains_quantifier-Part condition h = rw h refl
contains_quantifier-Part (positive {c = c}) h = rw (h, or_true (contains_quantifier c)) refl
contains_quantifier-Part (negative {c = c} {t = t}) h =
    rw h (or_true (contains_quantifier c || contains_quantifier t))
contains_quantifier-Part converted h = h
contains_quantifier-Part former h = h
contains_quantifier-Part array h = rw h refl
contains_quantifier-Part (position {a = a}) h = rw h (or_true (contains_quantifier a))
contains_quantifier-Part owner h = h
contains_quantifier-Part (passed a) h = any_quantifier-Argument a h
contains_quantifier-Part receiver h = rw h refl
contains_quantifier-Part (sent {o = o} a) h =
    rw (any_quantifier-Argument a h) (or_true (contains_quantifier o))

contains-IsQuantifier : {e : Expr} → IsQuantifier e → contains_quantifier e ≡ true
unfolding contains_quantifier
contains-IsQuantifier quantifier = refl

pub contains-Finds : {e : Expr} → Finds IsQuantifier e → contains_quantifier e ≡ true
contains-Finds (found q) = contains-IsQuantifier q
contains-Finds (inside p f) = contains_quantifier-Part p (contains-Finds f)

unequal : ¬ (false ≡ true)
unequal h = ground (arith, h)

mutual
  unfolding contains_quantifier any_quantifier

  pub Finds-contains : (e : Expr) → contains_quantifier e ≡ true → Finds IsQuantifier e
  Finds-contains (unary op e) h = inside operand (Finds-contains e h)
  Finds-contains (binary op a b) h =
      elim (or_cases (contains_quantifier a) (contains_quantifier b) h) [
        | inl x ↦ inside left (Finds-contains a x)
        | inr x ↦ inside right (Finds-contains b x)
      ]
  Finds-contains (ternary c t e) h =
      elim (or_cases (contains_quantifier c || contains_quantifier t) (contains_quantifier e) h) [
        | inl x ↦ elim (or_cases (contains_quantifier c) (contains_quantifier t) x) [
          | inl y ↦ inside condition (Finds-contains c y)
          | inr y ↦ inside positive (Finds-contains t y)
        ]
        | inr x ↦ inside negative (Finds-contains e x)
      ]
  Finds-contains (cast t e) h = inside converted (Finds-contains e h)
  Finds-contains (old e) h = inside former (Finds-contains e h)
  Finds-contains (index a i) h = elim (or_cases (contains_quantifier a) (contains_quantifier i) h) [
    | inl x ↦ inside array (Finds-contains a x)
    | inr x ↦ inside position (Finds-contains i x)
  ]
  Finds-contains (field e f) h = inside owner (Finds-contains e h)
  Finds-contains (call f c es) h = let (e, a, q) = Finds-any es h in inside (passed a) q
  Finds-contains (method_call f o es) h =
      elim (or_cases (contains_quantifier o) (any_quantifier es) h) [
        | inl x ↦ inside receiver (Finds-contains o x)
        | inr x ↦ let (e, a, q) = Finds-any es x in inside (sent a) q
      ]
  Finds-contains (quant all b ty lo hi inc body) h = found quantifier
  Finds-contains _ h = absurd (unequal h)

  Finds-any :
      (es : Exprs) → any_quantifier es ≡ true → (e : Expr) × Argument e es × Finds IsQuantifier e
  Finds-any no_args h = absurd (unequal h)
  Finds-any (arg e es) h = elim (or_cases (contains_quantifier e) (any_quantifier es) h) [
    | inl x ↦ (e, first, Finds-contains e x)
    | inr x ↦ let (e', a, q) = Finds-any es x in (e', later a, q)
  ]

divides : (op : BinaryOp) (a b : Expr) → is_mod_or_div op ≡ true → Divides (binary op a b)
divides BinaryOp.div a b h = quotient
divides BinaryOp.mod_ a b h = remainder
divides _ a b h = absurd (unequal h)

pub Finds-has_mod_or_div : (e : Expr) → has_mod_or_div e ≡ true → Finds Divides e
unfolding has_mod_or_div
Finds-has_mod_or_div (unary op e) h = inside operand (Finds-has_mod_or_div e h)
Finds-has_mod_or_div (binary op a b) h =
    elim (or_cases (is_mod_or_div op || has_mod_or_div a) (has_mod_or_div b) h) [
      | inl x ↦ elim (or_cases (is_mod_or_div op) (has_mod_or_div a) x) [
        | inl y ↦ found (divides op a b y)
        | inr y ↦ inside left (Finds-has_mod_or_div a y)
      ]
      | inr x ↦ inside right (Finds-has_mod_or_div b x)
    ]
Finds-has_mod_or_div (ternary c t e) h =
    elim (or_cases (has_mod_or_div c || has_mod_or_div t) (has_mod_or_div e) h) [
      | inl x ↦ elim (or_cases (has_mod_or_div c) (has_mod_or_div t) x) [
        | inl y ↦ inside condition (Finds-has_mod_or_div c y)
        | inr y ↦ inside positive (Finds-has_mod_or_div t y)
      ]
      | inr x ↦ inside negative (Finds-has_mod_or_div e x)
    ]
Finds-has_mod_or_div (cast t e) h = inside converted (Finds-has_mod_or_div e h)
Finds-has_mod_or_div _ h = absurd (unequal h)

-- `s` is a piece of `t`.
abbrev pub Within : Text → Text → Type 0
Within s t = (before : Text) × (after : Text) × (t ≡ before ++ (s ++ after))

prefix : (s t : Text) → is_prefix s t ≡ true → (after : Text) × (t ≡ s ++ after)
prefix [] t h = (t, refl)
prefix (a ∷ s) [] h = absurd (unequal h)
prefix (a ∷ s) (b ∷ t) h =
    let (x, y) = (&&_iff (a == b) (is_prefix s t)).0 h in
    let (after, e) = prefix s t y in (after, cc ((==_iff a b).0 x, e))

pub occurs-Within : (s t : Text) → occurs s t ≡ true → Within s t
occurs-Within s [] h = let (after, e) = prefix s [] h in ([], after, e)
occurs-Within s (b ∷ t) h = elim (or_cases (is_prefix s (b ∷ t)) (occurs s t) h) [
  | inl x ↦ let (after, e) = prefix s (b ∷ t) x in ([], after, e)
  | inr x ↦ let (before, after, e) = occurs-Within s t x in (b ∷ before, after, cc (e))
]

-- An element has the property.
pub data Some (P : Text → Type 0) : List Text → Type 0 where
  here : {x : Text} {xs : List Text} → P x → Some P (x ∷ xs)
  there : {x : Text} {xs : List Text} → Some P xs → Some P (x ∷ xs)

pub any-Some :
    (P : Text → Type 0) (f : Text → Bool) (xs : List Text)
    → ((x : Text) → f x ≡ true → P x)
    → any f xs ≡ true
    → Some P xs
any-Some P f [] p h = absurd (unequal h)
any-Some P f (x ∷ xs) p h = elim (or_cases (f x) (any f xs) h) [
  | inl y ↦ here (p x y)
  | inr y ↦ there (any-Some P f xs p y)
]

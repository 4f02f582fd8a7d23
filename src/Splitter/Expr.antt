-- ===== src/Splitter/Expr.antt =====
-- The expressions of src/AST.h that src/ProofSplitter.cpp looks into, and its tests on them.
use oxide_lang_reupload.Prelude.{ℕ, Text, Bool, true, false, ◌||◌}
use oxide_lang_reupload.Types.Base.{BType}

pub data UnaryOp : Type 0 where
  neg not_ bnot addr deref : UnaryOp

pub data BinaryOp : Type 0 where
  add sub mul div mod_ eq ne lt gt le ge land lor band bor bxor shl shr : BinaryOp

-- Positions and the type checker's notes on overloads are left out: every routine here copies them.
-- `absent` is a null pointer. A node that no routine here looks into is `other`, under a number.
mutual
  pub data Expr : Type 0 where
    absent : Expr
    int_lit : ℕ → Expr
    float_lit : Text → Bool → Expr
    bool_lit : Bool → Expr
    str_lit : Text → Expr
    char_lit : ℕ → Expr
    var_ref : Text → Expr
    unary : UnaryOp → Expr → Expr
    binary : BinaryOp → Expr → Expr → Expr
    ternary : Expr → Expr → Expr → Expr
    cast : BType → Expr → Expr
    old : Expr → Expr
    index : Expr → Expr → Expr
    field : Expr → Text → Expr
    -- the name, the expression of an indirect callee, and the arguments
    call : Text → Expr → Exprs → Expr
    -- the name, the receiver and the arguments
    method_call : Text → Expr → Exprs → Expr
    -- `isForall`, the binder and its type, the bounds, `inclusive`, and the body
    quant : Bool → Text → BType → Expr → Expr → Bool → Expr → Expr
    other : ℕ → Expr

  pub data Exprs : Type 0 where
    no_args : Exprs
    arg : Expr → Exprs → Exprs

unfoldable mutual
  pub contains_quantifier : Expr → Bool
  contains_quantifier (unary op e) = contains_quantifier e
  contains_quantifier (binary op a b) = contains_quantifier a || contains_quantifier b
  contains_quantifier (ternary c t e) =
      contains_quantifier c || contains_quantifier t || contains_quantifier e
  contains_quantifier (cast t e) = contains_quantifier e
  contains_quantifier (old e) = contains_quantifier e
  contains_quantifier (index a i) = contains_quantifier a || contains_quantifier i
  contains_quantifier (field e f) = contains_quantifier e
  contains_quantifier (call f callee args) = any_quantifier args
  contains_quantifier (method_call f e args) = contains_quantifier e || any_quantifier args
  contains_quantifier (quant all b ty lo hi inc body) = true
  contains_quantifier _ = false

  pub any_quantifier : Exprs → Bool
  any_quantifier no_args = false
  any_quantifier (arg e es) = contains_quantifier e || any_quantifier es

abbrev pub is_mod_or_div : BinaryOp → Bool
is_mod_or_div mod_ = true
is_mod_or_div div = true
is_mod_or_div _ = false

unfoldable pub has_mod_or_div : Expr → Bool
has_mod_or_div (unary op e) = has_mod_or_div e
has_mod_or_div (binary op a b) = is_mod_or_div op || has_mod_or_div a || has_mod_or_div b
has_mod_or_div (ternary c t e) = has_mod_or_div c || has_mod_or_div t || has_mod_or_div e
has_mod_or_div (cast t e) = has_mod_or_div e
has_mod_or_div _ = false

-- ===== src/Splitter/Subst.antt =====
-- `substBinder` of src/ProofSplitter.cpp.
use oxide_lang_reupload.Prelude.{ℕ, ◌-◌, ◌^◌, Text, text_eq, if◌then◌else◌, ltb}
use oxide_lang_reupload.Prelude.Int.{ℤ, pos, negsuc}
use oxide_lang_reupload.Splitter.Expr.{
  Expr, int_lit, var_ref, unary, binary, ternary, cast, old, index, field,
}

-- `(uint64_t)value`.
abbrev pub as_u64 : ℤ → ℕ
as_u64 (pos n) = n
as_u64 (negsuc n) = 2 ^ 64 - 1 - n

-- `(long long)v`.
abbrev pub as_i64 : ℕ → ℤ
as_i64 v = if ltb v (2 ^ 63) then pos v else negsuc (2 ^ 64 - 1 - v)

-- The forms that are not listed are cloned unchanged.
unfoldable pub subst_binder : Expr → Text → ℤ → Expr
subst_binder (var_ref x) b k = if text_eq x b then int_lit (as_u64 k) else var_ref x
subst_binder (unary op e) b k = unary op (subst_binder e b k)
subst_binder (binary op l r) b k = binary op (subst_binder l b k) (subst_binder r b k)
subst_binder (ternary c t e) b k =
    ternary (subst_binder c b k) (subst_binder t b k) (subst_binder e b k)
subst_binder (cast ty e) b k = cast ty (subst_binder e b k)
subst_binder (old e) b k = old (subst_binder e b k)
subst_binder (index a i) b k = index (subst_binder a b k) (subst_binder i b k)
subst_binder (field e f) b k = field (subst_binder e b k) f
subst_binder e b k = e

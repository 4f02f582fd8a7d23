-- ===== src/Parser/Total/Expr.antt =====
-- `parsePrimary` and the whole expression parser return.
use oxide_lang_reupload.Prelude.{
  ℕ, zero, suc, ◌%◌, ◌≤◌, ◌<◌, codes, List, [], ◌∷◌, Option, true, false, ◌≡◌, refl, arith,
}
use oxide_lang_reupload.Types.Base.{BType}
use oxide_lang_reupload.Lexer.Token.{Tok, Token}
use oxide_lang_reupload.Parser.State.{State, cur, advance, first_token}
use oxide_lang_reupload.Parser.Node.{Node}
use oxide_lang_reupload.Parser.Levels.{
  Result, Parse, or_ops, and_ops, equality_ops, rel_ops, bit_or_ops, bit_xor_ops, bit_and_ops,
  shift_ops, add_ops, mul_ops,
}
use oxide_lang_reupload.Parser.Expr.{
  Calls, parse_primary_by, parse_primary, Parsers, parsers, parse_expr, next_parsers, add_level,
  or_level, unary_level, mul_level, bit_or_level,
}
use oxide_lang_reupload.Parser.Total.{size, Returns, IsTotal, if-Returns, left_assoc-IsTotal}
use oxide_lang_reupload.Parser.Total.Levels.{
  parse_power-IsTotal, parse_range-IsTotal, parse_ternary-IsTotal, parse_assign-IsTotal,
  parse_unary-IsTotal, parse_implies-IsTotal, parse_cast-IsTotal,
}
use oxide_lang_reupload.Parser.Total.Postfix.{parse_postfix-IsTotal}
use oxide_lang_reupload.Parser.Total.Primary.{parse_macro_call-Returns}
use oxide_lang_reupload.Parser.Total.Forms.{
  parse_marker-Returns, parse_old-Returns, parse_paren-Returns, parse_sqrt-Returns,
  parse_integrate-Returns, lit-Returns, parse_nothing-Returns, parse_glyph-Returns,
}
use oxide_lang_reupload.Parser.Total.Typed.{
  parse_new-Returns, parse_new_map-Returns, parse_sizeof-Returns, parse_quant-Returns, Reading,
  parse_named-Returns,
}

-- The parsers of a round return on fewer than `n` tokens.
abbrev pub AreTotal : Calls → ℕ → Type 0
AreTotal c n =
    IsTotal c.expr n
    × IsTotal c.assign n
    × IsTotal c.ternary n
    × IsTotal c.add n
    × IsTotal c.unary n

module _ (parse_type : State → BType × State) (try_type_args : State → Option (List BType × State))
    (other : Calls → ℕ → State → Result) (shorter : (st : State) → size (parse_type st).1 ≤ size st)
    (reads : (st : State) → Reading (try_type_args st) (size st))
    (rest : (c : Calls) (n : ℕ) → AreTotal c n → IsTotal (other c (suc n)) (suc n)) where
  parse_primary_by-Returns :
      (c : Calls) (n : ℕ) (st : State) (t : Tok)
      → AreTotal c n
      → size st < suc n
      → suc (size (advance st)) ≤ size st
      → Returns (parse_primary_by parse_type try_type_args other c (suc n) st t) (size st)
  unfolding parse_primary_by
  parse_primary_by-Returns c n st Tok.int_lit p m less = lit-Returns (Node.int_lit (cur st).u64) st
  parse_primary_by-Returns c n st Tok.kw_expand p m less =
      parse_macro_call-Returns c.expr n (suc n) (advance st) (size st) p.0 (omega arith)
        (omega arith) (omega arith)
  parse_primary_by-Returns c n st Tok.dollar p m less =
      parse_marker-Returns (advance st) (size st) (omega arith)
  parse_primary_by-Returns c n st Tok.float_lit p m less =
      lit-Returns (Node.float_lit (cur st).f64 (cur st).is_f32) st
  parse_primary_by-Returns c n st Tok.str_lit p m less = lit-Returns (Node.str_lit (cur st).text) st
  parse_primary_by-Returns c n st Tok.char_lit p m less =
      lit-Returns (Node.char_lit ((cur st).u64 % 256)) st
  parse_primary_by-Returns c n st Tok.kw_null p m less = lit-Returns Node.null_lit st
  parse_primary_by-Returns c n st Tok.kw_fn p m less = rest c n p st m
  parse_primary_by-Returns c n st Tok.kw_sizeof p m less =
      parse_sizeof-Returns parse_type shorter (advance st) (size st) (omega arith)
  parse_primary_by-Returns c n st Tok.kw_spawn p m less = rest c n p st m
  parse_primary_by-Returns c n st Tok.kw_chan p m less = rest c n p st m
  parse_primary_by-Returns c n st Tok.kw_old p m less =
      if-Returns st.in_spec _ _ (size st)
        (λ h. parse_old-Returns c.ternary n (advance st) (size st) p.2 (omega arith) (omega arith))
        (λ h. parse_nothing-Returns st)
  parse_primary_by-Returns c n st Tok.kw_forall p m less =
      if-Returns st.in_spec _ _ (size st)
        (λ h.
          parse_quant-Returns parse_type shorter c.assign c.ternary true n (advance st) (size st)
            p.1 p.2 (omega arith) (omega arith))
        (λ h. parse_nothing-Returns st)
  parse_primary_by-Returns c n st Tok.kw_exists p m less =
      if-Returns st.in_spec _ _ (size st)
        (λ h.
          parse_quant-Returns parse_type shorter c.assign c.ternary false n (advance st) (size st)
            p.1 p.2 (omega arith) (omega arith))
        (λ h. parse_nothing-Returns st)
  parse_primary_by-Returns c n st Tok.kw_asm p m less = rest c n p st m
  parse_primary_by-Returns c n st Tok.kw_self p m less =
      lit-Returns (Node.var_ref (codes "self")) st
  parse_primary_by-Returns c n st Tok.kw_true p m less = lit-Returns (Node.bool_lit true) st
  parse_primary_by-Returns c n st Tok.kw_false p m less = lit-Returns (Node.bool_lit false) st
  parse_primary_by-Returns c n st Tok.lparen p m less =
      parse_paren-Returns c.expr n (advance st) (size st) p.0 (omega arith) (omega arith)
  parse_primary_by-Returns c n st Tok.kw_vec p m less =
      parse_new-Returns parse_type shorter Node.dyn_new (codes "vec") (advance st) (size st)
        (omega arith)
  parse_primary_by-Returns c n st Tok.kw_map p m less =
      parse_new_map-Returns parse_type shorter Node.map_new (codes "map") (advance st) (size st)
        (omega arith)
  parse_primary_by-Returns c n st Tok.kw_set p m less =
      parse_new-Returns parse_type shorter Node.set_new (codes "set") (advance st) (size st)
        (omega arith)
  parse_primary_by-Returns c n st Tok.kw_hmap p m less =
      parse_new_map-Returns parse_type shorter Node.hmap_new (codes "hmap") (advance st) (size st)
        (omega arith)
  parse_primary_by-Returns c n st Tok.kw_hset p m less =
      parse_new-Returns parse_type shorter Node.hset_new (codes "hset") (advance st) (size st)
        (omega arith)
  parse_primary_by-Returns c n st Tok.lbracket p m less = rest c n p st m
  parse_primary_by-Returns c n st Tok.math_sym p m less =
      parse_glyph-Returns c.unary c.add n st p.4 p.3 (omega arith)
  parse_primary_by-Returns c n st Tok.kw_pi p m less = lit-Returns (Node.math_sym (codes "pi")) st
  parse_primary_by-Returns c n st Tok.kw_sqrt p m less =
      parse_sqrt-Returns c.unary n (advance st) (size st) p.4 (omega arith) (omega arith)
  parse_primary_by-Returns c n st Tok.kw_integrate p m less =
      parse_integrate-Returns c.unary c.add n (advance st) (size st) p.4 p.3 (omega arith)
        (omega arith)
  parse_primary_by-Returns c n st Tok.ident p m less =
      parse_named-Returns try_type_args reads c.expr n (suc n) st p.0 (omega arith) (omega arith)
  parse_primary_by-Returns c n st Tok.kw_print p m less =
      parse_named-Returns try_type_args reads c.expr n (suc n) st p.0 (omega arith) (omega arith)
  parse_primary_by-Returns c n st _ p m less = parse_nothing-Returns st

  parse_primary_of-Returns :
      (c : Calls) (n : ℕ) (st : State) (ts : List Token)
      → st.toks ≡ ts
      → AreTotal c n
      → size st < suc n
      → Returns
          (parse_primary_by parse_type try_type_args other c (suc n) st (first_token ts).kind)
          (size st)
  unfolding parse_primary_by advance
  parse_primary_of-Returns c n st [] q p m = parse_nothing-Returns st
  parse_primary_of-Returns c n st (t ∷ ts) q p m =
      parse_primary_by-Returns c n st t.kind p m (rw q (omega arith))

  parse_primary-IsTotal :
      (c : Calls) (n : ℕ)
      → AreTotal c n
      → IsTotal (parse_primary parse_type try_type_args other c (suc n)) (suc n)
  unfolding cur
  parse_primary-IsTotal c n p st l = parse_primary_of-Returns c n st st.toks refl p l

  -- The levels of a round, from the parser of unary expressions.
  module _ (unary : Parse) (n : ℕ) (p : IsTotal unary (suc n)) where
    mul_level-IsTotal : IsTotal (mul_level parse_type try_type_args other (suc n) unary) (suc n)
    mul_level-IsTotal =
        left_assoc-IsTotal mul_ops _ n refl (parse_cast-IsTotal parse_type unary n shorter p)

    add_level-IsTotal : IsTotal (add_level parse_type try_type_args other (suc n) unary) (suc n)
    add_level-IsTotal = left_assoc-IsTotal add_ops _ n refl mul_level-IsTotal

    bit_or_level-IsTotal :
        IsTotal (bit_or_level parse_type try_type_args other (suc n) unary) (suc n)
    bit_or_level-IsTotal = left_assoc-IsTotal bit_or_ops _ n refl (
        left_assoc-IsTotal bit_xor_ops _ n refl (
          left_assoc-IsTotal bit_and_ops _ n refl
            (left_assoc-IsTotal shift_ops _ n refl add_level-IsTotal)))

    or_level-IsTotal : IsTotal (or_level parse_type try_type_args other (suc n) unary) (suc n)
    or_level-IsTotal = left_assoc-IsTotal or_ops _ n refl (
        left_assoc-IsTotal and_ops _ n refl (
          left_assoc-IsTotal equality_ops _ n refl
            (left_assoc-IsTotal rel_ops _ n refl bit_or_level-IsTotal)))

  abbrev AllTotal : Parsers parse_type try_type_args other → ℕ → Type 0
  AllTotal q n = IsTotal q.implies n × AreTotal q.calls n

  unary_level-IsTotal :
      (q : Parsers parse_type try_type_args other) (n : ℕ)
      → AllTotal q n
      → IsTotal (unary_level parse_type try_type_args other (suc n) q) (suc n)
  unary_level-IsTotal q n p = parse_unary-IsTotal q.calls.unary _ n p.1.4 (
      parse_power-IsTotal q.calls.unary _ n p.1.4
        (parse_postfix-IsTotal q.calls.expr _ n p.1.0 (parse_primary-IsTotal q.calls n p.1)))

  round-AllTotal :
      (q : Parsers parse_type try_type_args other) (n : ℕ)
      → AllTotal q n
      → AllTotal (next_parsers parse_type try_type_args other (suc n) q) (suc n)
  round-AllTotal q n p =
      let unary = unary_level-IsTotal q n p in
      let implies = parse_implies-IsTotal q.implies _ n p.0 (or_level-IsTotal _ n unary) in
      let ternary = parse_ternary-IsTotal q.calls.assign _ n p.1.1 implies in
      let assign = parse_assign-IsTotal q.calls.assign _ n p.1.1 ternary in
      (
        implies,
        (parse_range-IsTotal _ n assign, assign, ternary, add_level-IsTotal _ n unary, unary),
      )

  parsers-AllTotal : (n : ℕ) → AllTotal (parsers parse_type try_type_args other n) n
  unfolding parsers
  parsers-AllTotal zero = (
    (λ st l. absurd (omega arith)),
    (
      (λ st l. absurd (omega arith)),
      (λ st l. absurd (omega arith)),
      (λ st l. absurd (omega arith)),
      (λ st l. absurd (omega arith)),
      (λ st l. absurd (omega arith)),
    ),
  )
  parsers-AllTotal (suc n) =
      round-AllTotal (parsers parse_type try_type_args other n) n (parsers-AllTotal n)

  -- On fuel that is larger than the number of tokens from `p_` on, `parseExpr` returns a node and a
  -- state with no more tokens, whatever the tokens are. The tokens are those of the vector and, behind
  -- its end, any finite number of others in place of what the source would read there, which is
  -- undefined; the claim is not that the source stays in its vector. The conditions are on the
  -- parameters: `parseType` and `tryParseTypeArgs`, where it finds type arguments, leave no more tokens
  -- than they were given, and each arm of `parsePrimary` that is a parameter returns with no more
  -- wherever the parsers that it starts again return on fewer tokens.
  pub parse_expr-Returns :
      (n : ℕ) (st : State)
      → size st < n
      → Returns (parse_expr parse_type try_type_args other n st) (size st)
  parse_expr-Returns n st l = (parsers-AllTotal n).1.0 st l

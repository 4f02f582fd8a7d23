-- ===== src/Parser/Total/Levels.antt =====
-- The levels `parseRange` to `parsePower` return.
use oxide_lang_reupload.Prelude.{
  ℕ, zero, suc, ◌≤◌, ◌<◌, codes, Option, none, some, Option-cases, Bool, true, false, ◌||◌,
  Bool-cases, ◌≡◌, refl, inl, inr, arith,
}
use oxide_lang_reupload.Types.Base.{BType}
use oxide_lang_reupload.Lexer.Token.{Tok}
use oxide_lang_reupload.Splitter.Expr.{BinaryOp}
use oxide_lang_reupload.Parser.State.{State, cur, advance, at, error, expect}
use oxide_lang_reupload.Parser.Node.{Node, Target}
use oxide_lang_reupload.Parser.Levels.{
  Result, Parse, then_parse, left_loop, implies_ops, parse_implies, parse_ternary, target_of,
  assign_op, assign_node, assign_to, parse_assign, parse_range, make_inc_dec, inc_dec_to, prefix_op,
  parse_unary, parse_power, cast_loop, parse_cast,
}
use oxide_lang_reupload.Parser.Total.{
  size, Returns, IsTotal, returned, then-Returns, Returns_le, if-Returns, advance_le, at-advance,
  expect_le, left_loop-Returns, op-advance,
}

-- A call on the state behind a token.
behind :
    (p : Parse) (n : ℕ) (st : State) (m : ℕ)
    → IsTotal p n
    → suc (size (advance st)) ≤ size st
    → size st ≤ m
    → m < suc n
    → Returns (p (advance st)) m
behind p n st m t a l h =
    Returns_le (p (advance st)) (size (advance st)) m (omega arith) (t (advance st) (omega arith))

-- One more call, and then a node made of the result.
finish :
    (r : Result) (f : Node → Node) (m : ℕ)
    → Returns r m
    → Returns (then_parse r (λ e st. some (f e, st))) m
finish r f m h = then-Returns r (λ e st. some (f e, st)) m m h (λ e st l. returned (f e) st m l)

pub parse_power-IsTotal :
    (unary postfix : Parse) (n : ℕ)
    → IsTotal unary n
    → IsTotal postfix (suc n)
    → IsTotal (parse_power unary postfix) (suc n)
unfolding parse_power
parse_power-IsTotal unary postfix n u p st l =
    then-Returns (postfix st) _ (size st) (size st) (p st l) (λ base st' l'.
      if-Returns (at Tok.pow st') _ _ (size st)
        (λ h.
          finish (unary (advance st')) (λ e. Node.power base e) (size st)
            (behind unary n st' (size st) u (at-advance Tok.pow st' refl h) l' l))
        (λ h. returned base st' (size st) l'))

pub parse_range-IsTotal :
    (assign : Parse) (n : ℕ) → IsTotal assign (suc n) → IsTotal (parse_range assign) (suc n)
unfolding parse_range
parse_range-IsTotal assign n p st l =
    then-Returns (assign st) _ (size st) (size st) (p st l) (λ lo st' l'.
      if-Returns (at Tok.dotdot st' || at Tok.dotdoteq st') _ _ (size st)
        (λ h.
          finish (assign (advance st')) (λ hi. Node.range_lit (at Tok.dotdoteq st') lo hi) (size st)
            (Returns_le (assign (advance st')) (size (advance st')) (size st)
              (omega (arith, advance_le st')) (p (advance st') (omega (arith, advance_le st')))))
        (λ h. returned lo st' (size st) l'))

pub parse_ternary-IsTotal :
    (assign implies : Parse) (n : ℕ)
    → IsTotal assign n
    → IsTotal implies (suc n)
    → IsTotal (parse_ternary assign implies) (suc n)
unfolding parse_ternary
parse_ternary-IsTotal assign implies n a p st l =
    then-Returns (implies st) _ (size st) (size st) (p st l) (λ c st1 l1.
      if-Returns (at Tok.question st1) _ _ (size st)
        (λ h.
          let less = at-advance Tok.question st1 refl h in
          then-Returns (assign (advance st1)) _ (size (advance st1)) (size st)
            (a (advance st1) (omega (arith, less)))
            (λ t st2 l2.
              let le = expect_le Tok.colon (codes "expected ':' in ternary expression") st2 in
              let st3 = (expect Tok.colon (codes "expected ':' in ternary expression") st2).1 in
              finish (assign st3) (λ e. Node.ternary c t e) (size st)
                (Returns_le (assign st3) (size st3) (size st) (omega arith) (a st3 (omega arith)))))
        (λ h. returned c st1 (size st) l1))

assign_to-Returns :
    (op : Option BinaryOp) (lhs rhs : Node) (st : State) (o : Option Target) (m : ℕ)
    → size st ≤ m
    → Returns (some (assign_to op lhs rhs st o)) m
unfolding error
assign_to-Returns op lhs rhs st none m l =
    (lhs, error (codes "invalid assignment target") st, refl, l)
assign_to-Returns op lhs rhs st (some t) m l = returned (assign_node op t rhs) st m l

pub parse_assign-IsTotal :
    (assign ternary : Parse) (n : ℕ)
    → IsTotal assign n
    → IsTotal ternary (suc n)
    → IsTotal (parse_assign assign ternary) (suc n)
unfolding parse_assign
parse_assign-IsTotal assign ternary n a p st l =
    then-Returns (ternary st) _ (size st) (size st) (p st l) (λ lhs st' l'.
      if-Returns (at Tok.chan_arrow st') _ _ (size st)
        (λ h.
          finish (assign (advance st')) (λ rhs. Node.channel_send lhs rhs) (size st)
            (behind assign n st' (size st) a (at-advance Tok.chan_arrow st' refl h) l' l))
        (λ h. elim (Option-cases (assign_op (cur st').kind)) [
          | inl e ↦ rw e (returned lhs st' (size st) l')
          | inr (op, e) ↦ rw e (
              then-Returns (assign (advance st'))
                (λ rhs st2. some (assign_to op lhs rhs st2 (target_of lhs))) (size st) (size st)
                (behind assign n st' (size st) a (op-advance assign_op st' op refl e) l' l)
                (λ rhs st2 l2. assign_to-Returns op lhs rhs st2 (target_of lhs) (size st) l2))
        ]))

inc_dec_to-Returns :
    (is_inc is_post : Bool) (base : Node) (st : State) (o : Option Target) (m : ℕ)
    → size st ≤ m
    → Returns (some (inc_dec_to is_inc is_post base st o)) m
unfolding error
inc_dec_to-Returns is_inc is_post base st none m l =
    (base, error (codes "invalid increment/decrement target") st, refl, l)
inc_dec_to-Returns is_inc is_post base st (some t) m l =
    returned (Node.inc_dec is_inc is_post t) st m l

pub make_inc_dec-Returns :
    (is_inc is_post : Bool) (base : Node) (st : State) (m : ℕ)
    → size st ≤ m
    → Returns (some (make_inc_dec is_inc is_post base st)) m
unfolding make_inc_dec
make_inc_dec-Returns is_inc is_post base st m l =
    inc_dec_to-Returns is_inc is_post base st (target_of base) m l

inc_dec_to_le :
    (is_inc is_post : Bool) (base : Node) (st : State) (o : Option Target)
    → size (inc_dec_to is_inc is_post base st o).1 ≤ size st
unfolding error
inc_dec_to_le is_inc is_post base st none = omega arith
inc_dec_to_le is_inc is_post base st (some t) = omega arith

pub make_inc_dec_le :
    (is_inc is_post : Bool) (base : Node) (st : State)
    → size (make_inc_dec is_inc is_post base st).1 ≤ size st
unfolding make_inc_dec
make_inc_dec_le is_inc is_post base st = inc_dec_to_le is_inc is_post base st (target_of base)

inc_or_dec :
    (st : State) → (at Tok.inc st || at Tok.dec st) ≡ true → suc (size (advance st)) ≤ size st
inc_or_dec st h = elim (Bool-cases (at Tok.inc st)) [
  | inl e ↦ at-advance Tok.inc st refl e
  | inr e ↦ at-advance Tok.dec st refl (rw e at h)
]

pub parse_unary-IsTotal :
    (unary power : Parse) (n : ℕ)
    → IsTotal unary n
    → IsTotal power (suc n)
    → IsTotal (parse_unary unary power) (suc n)
unfolding parse_unary
parse_unary-IsTotal unary power n u p st l = elim (Option-cases (prefix_op (cur st).kind)) [
  | inl e ↦ rw e (
      if-Returns (at Tok.inc st || at Tok.dec st) _ _ (size st)
        (λ h.
          then-Returns (unary (advance st)) _ (size st) (size st)
            (behind unary n st (size st) u (inc_or_dec st h) (omega arith) l)
            (λ base st' l'. make_inc_dec-Returns (at Tok.inc st) false base st' (size st) l'))
        (λ h. p st l))
  | inr (op, e) ↦ rw e (
      finish (unary (advance st)) op (size st)
        (behind unary n st (size st) u (op-advance prefix_op st op refl e) (omega arith) l))
]

-- `implies` reads the right operand, so that its loop ends behind it.
pub parse_implies-IsTotal :
    (implies logic_or : Parse) (n : ℕ)
    → IsTotal implies n
    → IsTotal logic_or (suc n)
    → IsTotal (parse_implies implies logic_or (suc n)) (suc n)
unfolding parse_implies
parse_implies-IsTotal implies logic_or n i p st l =
    then-Returns (logic_or st) _ (size st) (size st) (p st l) (λ lhs st' l'.
      if-Returns st'.in_spec _ _ (size st)
        (λ h. Returns_le (left_loop implies_ops implies (suc n) lhs st') (size st') (size st) l' (
          left_loop-Returns implies_ops implies n refl i (suc n) lhs st' (omega arith)
            (omega arith)))
        (λ h. returned lhs st' (size st) l'))

cast_loop-Returns :
    (parse_type : State → BType × State)
    → ((st : State) → size (parse_type st).1 ≤ size st)
    → (k : ℕ) (e : Node) (st : State) → size st ≤ k
    → Returns (cast_loop parse_type k e st) (size st)
unfolding cast_loop
cast_loop-Returns parse_type t zero e st l = elim (Bool-cases (at Tok.kw_as st)) [
  | inl h ↦ absurd (omega (arith, at-advance Tok.kw_as st refl h))
  | inr h ↦ rw h (returned e st (size st) (omega arith))
]
cast_loop-Returns parse_type t (suc k) e st l = elim (Bool-cases (at Tok.kw_as st)) [
  | inl h ↦
      let less = at-advance Tok.kw_as st refl h in
      let le = t (advance st) in
      let (target, st') = parse_type (advance st) in
      rw h (
        Returns_le (cast_loop parse_type k (Node.cast e target) st') (size st') (size st)
          (omega arith) (cast_loop-Returns parse_type t k (Node.cast e target) st' (omega arith)))
  | inr h ↦ rw h (returned e st (size st) (omega arith))
]

pub parse_cast-IsTotal :
    (parse_type : State → BType × State) (unary : Parse) (n : ℕ)
    → ((st : State) → size (parse_type st).1 ≤ size st)
    → IsTotal unary (suc n)
    → IsTotal (parse_cast parse_type unary (suc n)) (suc n)
unfolding parse_cast
parse_cast-IsTotal parse_type unary n t p st l =
    then-Returns (unary st) (cast_loop parse_type (suc n)) (size st) (size st) (p st l) (λ e st' l'.
      Returns_le (cast_loop parse_type (suc n) e st') (size st') (size st) l'
        (cast_loop-Returns parse_type t (suc n) e st' (omega arith)))

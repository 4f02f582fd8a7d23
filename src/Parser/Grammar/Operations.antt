-- ===== src/Parser/Grammar/Operations.antt =====
-- How each operator of the grammar is parsed.
use oxide_lang_reupload.Prelude.{
  ℕ, zero, suc, ◌≤◌, ◌<◌, length, length-append, List, ◌∷◌, ◌++◌, append_assoc, Option, some, true,
  false, ◌&&◌, &&_iff, if◌then◌else◌, ◌≡◌, refl, ◌∙◌, ap, subst, arith,
}
use oxide_lang_reupload.Types.Base.{BType}
use oxide_lang_reupload.Lexer.Token.{Tok, Token}
use oxide_lang_reupload.Parser.State.{State, cur, advance, at, expect, first_token}
use oxide_lang_reupload.Splitter.Expr.{UnaryOp, BinaryOp}
use oxide_lang_reupload.Parser.Node.{Node, Target}
use oxide_lang_reupload.Parser.Levels.{
  Result, Parse, left_loop, assign_op, assign_node, target_of, prefix_op, implies_ops, parse_unary,
  parse_power, parse_implies, parse_ternary, parse_assign, parse_range,
}
use oxide_lang_reupload.Parser.Expr.{Calls, parsers}
use oxide_lang_reupload.Parser.Grammar.{
  Level, range, assignment, conditional, implication, disjunction, unary, power, postfix, Prefix,
  Assigning, of_kind, stops, differs, is_none,
}
use oxide_lang_reupload.Parser.Grammar.Steps.{before, Ends, not_at, is_none-none}
use oxide_lang_reupload.Parser.Grammar.Loops.{
  parse_level, Quiet, Quiet-append, loop_start, loop_operation, loop_finish, loop_turn, loop_end,
}
use oxide_lang_reupload.Parser.Grammar.Loops
use oxide_lang_reupload.Parser.Grammar.Calls.{assign_call, implies_call, unary_call}

module _ (parse_type : State → BType × State) (try_type_args : State → Option (List BType × State))
    (other : Calls → ℕ → State → Result) (st : State) where
  abbrev level_parser : Level → ℕ → Parse
  level_parser = parse_level parse_type try_type_args other st

  abbrev Parses : Level → Node → List Token → Type 0
  Parses = Loops.Parses parse_type try_type_args other st

  abbrev Quiet' : List Token → Type 0
  Quiet' = Quiet parse_type try_type_args other st

  Prefix-op : {k : Tok} {f : Node → Node} → Prefix k f → prefix_op k ≡ some f
  Prefix-op Prefix.bang = refl
  Prefix-op Prefix.tilde = refl
  Prefix-op Prefix.address = refl
  Prefix-op Prefix.pointed = refl
  Prefix-op Prefix.negated = refl
  Prefix-op Prefix.received = refl

  pub prefix_step :
      {k : Tok} {f : Node → Node} (e : Node) (ts : List Token)
      → Prefix k f
      → (t : Token) → Parses unary e ts
      → Parses unary (f e) (of_kind k t ∷ ts)
  unfolding parse_unary cur advance
  prefix_step e ts x t p zero rest l q h = ground arith
  prefix_step e ts x t p (suc n) rest l q h =
      rw (Prefix-op x, unary_call parse_type try_type_args other st n, p n rest (omega arith) q.1 h)
        refl

  -- What the two operands of an infix token give: the second with the fuel `m`.
  operands :
      (la lb : Level) (a b : Node) (ts us : List Token) (t : Token)
      → Parses la a ts
      → Parses lb b us
      → (n m : ℕ) (rest : List Token) → n ≤ m
      → length (ts ++ t ∷ us) < suc n
      → Quiet' ((ts ++ t ∷ us) ++ rest)
      → stops la t.kind ≡ true
      → Ends lb rest
      → (level_parser la (suc n) (before st ((ts ++ t ∷ us) ++ rest))
          ≡ some (a, before st (t ∷ us ++ rest)))
        × (level_parser lb m (before st (us ++ rest)) ≡ some (b, before st rest))
  operands la lb a b ts us t p u n m rest le l q s h =
      let assoc = append_assoc ts (t ∷ us) rest in
      let size = length-append ts (t ∷ us) in
      let q' = subst Quiet' assoc q in
      (
        rw assoc (p (suc n) (t ∷ us ++ rest) (omega arith) q' s),
        u m rest (omega arith)
            (Quiet-append parse_type try_type_args other st ts (t ∷ us ++ rest) q').1 h,
      )

  pub power_step :
      (a b : Node) (ts us : List Token) (t : Token)
      → Parses postfix a ts
      → Parses unary b us
      → Parses power (Node.power a b) (ts ++ of_kind Tok.pow t ∷ us)
  unfolding parse_power at cur advance
  power_step a b ts us t p u zero rest l q h = ground arith
  power_step a b ts us t p u (suc n) rest l q h =
      let (f, g) =
        operands postfix unary a b ts us (of_kind Tok.pow t) p u n n rest (omega arith) l q refl
          h in
      rw (f, unary_call parse_type try_type_args other st n, g) refl

  pub implies_step :
      (a b : Node) (ts us : List Token) (t : Token)
      → st.in_spec ≡ true
      → Parses disjunction a ts
      → Parses implication b us
      → Parses implication
          (Node.binary BinaryOp.lor (Node.unary UnaryOp.not_ a) b)
          (ts ++ of_kind Tok.kw_implies t ∷ us)
  unfolding parse_implies
  implies_step a b ts us t s p u zero rest l q h = ground arith
  implies_step a b ts us t s p u (suc n) rest l q h =
      let (f, g) =
        operands disjunction implication a b ts us (of_kind Tok.kw_implies t) p u n n rest
          (omega arith) l q refl h in
      let k = (first_token rest).kind in
      let next = (parsers parse_type try_type_args other n).implies in
      let join : Node → Node → Node =
        λ a b. Node.binary BinaryOp.lor (Node.unary UnaryOp.not_ a) b in
      let here = before st (of_kind Tok.kw_implies t ∷ us ++ rest) in
      let ended =
        is_none-none (implies_ops k)
          ((&&_iff (is_none (implies_ops k)) (stops disjunction k)).0 h).0 in
      rw f (
        ap (λ c. if c then left_loop implies_ops next (suc n) a here else some (a, here)) s
        ∙ loop_turn parse_type try_type_args other st implies_ops next n join a b
            (of_kind Tok.kw_implies t) (us ++ rest) rest refl
            (rw (implies_call parse_type try_type_args other st n) g)
        ∙ loop_end parse_type try_type_args other st implies_ops next n (join a b) rest ended)

  pub send_step :
      (a b : Node) (ts us : List Token) (t : Token)
      → Parses conditional a ts
      → Parses assignment b us
      → Parses assignment (Node.channel_send a b) (ts ++ of_kind Tok.chan_arrow t ∷ us)
  unfolding parse_assign at cur advance
  send_step a b ts us t p u zero rest l q h = ground arith
  send_step a b ts us t p u (suc n) rest l q h =
      let (f, g) =
        operands conditional assignment a b ts us (of_kind Tok.chan_arrow t) p u n n rest
          (omega arith) l q refl h in
      rw (f, assign_call parse_type try_type_args other st n, g) refl

  Assigning-op :
      {k : Tok} {op : Option BinaryOp}
      → Assigning k op
      → (assign_op k ≡ some op) × (stops conditional k ≡ true) × (differs k Tok.chan_arrow ≡ true)
  Assigning-op Assigning.plainly = (refl, refl, refl)
  Assigning-op Assigning.adding = (refl, refl, refl)
  Assigning-op Assigning.subtracting = (refl, refl, refl)
  Assigning-op Assigning.multiplying = (refl, refl, refl)
  Assigning-op Assigning.dividing = (refl, refl, refl)
  Assigning-op Assigning.reducing = (refl, refl, refl)
  Assigning-op Assigning.masking = (refl, refl, refl)
  Assigning-op Assigning.joining = (refl, refl, refl)
  Assigning-op Assigning.flipping = (refl, refl, refl)
  Assigning-op Assigning.shifting_left = (refl, refl, refl)
  Assigning-op Assigning.shifting_right = (refl, refl, refl)

  pub assign_step :
      {k : Tok} {op : Option BinaryOp} (a b : Node) (d : Target) (ts us : List Token)
      → Assigning k op
      → target_of a ≡ some d
      → (t : Token) → Parses conditional a ts
      → Parses assignment b us
      → Parses assignment (assign_node op d b) (ts ++ of_kind k t ∷ us)
  unfolding parse_assign at cur advance
  assign_step a b d ts us x w t p u zero rest l q h = ground arith
  assign_step {k} a b d ts us x w t p u (suc n) rest l q h =
      let (o, s, c) = Assigning-op x in
      let (f, g) =
        operands conditional assignment a b ts us (of_kind k t) p u n n rest (omega arith) l q s
          h in
      rw (f, not_at k Tok.chan_arrow c, o, assign_call parse_type try_type_args other st n, g, w)
        refl

  pub range_step :
      (a b : Node) (ts us : List Token) (t : Token)
      → Parses assignment a ts
      → Parses assignment b us
      → Parses range (Node.range_lit false a b) (ts ++ of_kind Tok.dotdot t ∷ us)
  unfolding parse_range at cur advance
  range_step a b ts us t p u zero rest l q h = ground arith
  range_step a b ts us t p u (suc n) rest l q h =
      let k = (first_token rest).kind in
      let h2 = (&&_iff (differs k Tok.dotdot && differs k Tok.dotdoteq) (stops assignment k)).0 h in
      let (f, g) =
        operands assignment assignment a b ts us (of_kind Tok.dotdot t) p u n (suc n) rest
          (omega arith) l q refl h2.1 in
      rw (f, g) refl

  pub closed_range_step :
      (a b : Node) (ts us : List Token) (t : Token)
      → Parses assignment a ts
      → Parses assignment b us
      → Parses range (Node.range_lit true a b) (ts ++ of_kind Tok.dotdoteq t ∷ us)
  unfolding parse_range at cur advance
  closed_range_step a b ts us t p u zero rest l q h = ground arith
  closed_range_step a b ts us t p u (suc n) rest l q h =
      let k = (first_token rest).kind in
      let h2 = (&&_iff (differs k Tok.dotdot && differs k Tok.dotdoteq) (stops assignment k)).0 h in
      let (f, g) =
        operands assignment assignment a b ts us (of_kind Tok.dotdoteq t) p u n (suc n) rest
          (omega arith) l q refl h2.1 in
      rw (f, g) refl

  pub ternary_step :
      (c a b : Node) (ts us vs : List Token) (t u : Token)
      → Parses implication c ts
      → Parses assignment a us
      → Parses assignment b vs
      → Parses assignment
          (Node.ternary c a b)
          (ts ++ of_kind Tok.question t ∷ us ++ of_kind Tok.colon u ∷ vs)
  unfolding parse_assign parse_ternary at cur advance expect
  ternary_step c a b ts us vs t u p x y zero rest l q h = ground arith
  ternary_step c a b ts us vs t u p x y (suc n) rest l q h =
      let front = ts ++ of_kind Tok.question t ∷ us in
      let tail = of_kind Tok.colon u ∷ vs ++ rest in
      let assoc = append_assoc front (of_kind Tok.colon u ∷ vs) rest in
      let size = length-append front (of_kind Tok.colon u ∷ vs) in
      let q1 = subst Quiet' assoc q in
      let (f, g) =
        operands implication assignment c a ts us (of_kind Tok.question t) p x n n tail
          (omega arith) (omega arith) q1 refl refl in
      let k = (first_token rest).kind in
      let h1 =
        ((&&_iff (differs k Tok.chan_arrow && is_none (assign_op k)) (stops conditional k)).0
          h).0 in
      let (d, o) = (&&_iff (differs k Tok.chan_arrow) (is_none (assign_op k))).0 h1 in
      let q2 = (Quiet-append parse_type try_type_args other st front tail q1).1 in
      rw
        (
          assoc,
          f,
          assign_call parse_type try_type_args other st n,
          g,
          y n rest (omega (arith, size, length-append ts (of_kind Tok.question t ∷ us))) q2 h,
          not_at k Tok.chan_arrow d,
          is_none-none (assign_op k) o,
        )
        refl

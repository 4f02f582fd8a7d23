-- ===== src/Parser/Grammar/Loops.antt =====
-- The parsers by level, and the loops of the left-associative levels over sentences of the grammar.
use oxide_lang_reupload.Prelude.{
  ℕ, zero, suc, ◌+◌, ◌≤◌, ◌<◌, length, length-append, List, [], ◌∷◌, ◌++◌, append_assoc, Option,
  none, some, ◌≡◌, refl, ◌∙◌, ap, subst, arith,
}
use oxide_lang_reupload.Types.Base.{BType}
use oxide_lang_reupload.Lexer.Token.{Tok, Token}
use oxide_lang_reupload.Parser.State.{State, cur, advance, first_token}
use oxide_lang_reupload.Parser.Node.{Node}
use oxide_lang_reupload.Parser.Levels.{
  Result, Parse, Infixes, then_parse, left_turn, left_loop, left_assoc, no_fuel,
}
use oxide_lang_reupload.Parser.Expr.{
  Calls, parsers, spent_parser, primary_level, postfix_level, power_level, unary_level, cast_level,
  mul_level, add_level, shift_level, bit_and_level, bit_xor_level, bit_or_level, rel_level,
  equality_level, and_level, or_level, implies_level, ternary_level, assign_level, range_level,
}
use oxide_lang_reupload.Parser.Grammar.{
  Level, range, assignment, conditional, implication, disjunction, conjunction, equality, relation,
  bit_or, bit_xor, bit_and, shift, sum, product, cast, unary, power, postfix, primary, Infix, Chain,
  of_kind,
}
use oxide_lang_reupload.Parser.Grammar.Steps.{before, Ends, Infix-joins, Chain-ends}

module _ (parse_type : State → BType × State) (try_type_args : State → Option (List BType × State))
    (other : Calls → ℕ → State → Result) (st : State) where
  -- The parser of a level, with fuel.
  abbrev pub parse_level : Level → ℕ → Parse
  parse_level lv zero = spent_parser parse_type try_type_args other
  parse_level range (suc n) =
      range_level parse_type try_type_args other (suc n) (parsers parse_type try_type_args other n)
  parse_level assignment (suc n) =
      assign_level parse_type try_type_args other (suc n) (parsers parse_type try_type_args other n)
  parse_level conditional (suc n) =
      ternary_level parse_type try_type_args other (suc n)
        (parsers parse_type try_type_args other n)
  parse_level implication (suc n) =
      implies_level parse_type try_type_args other (suc n)
        (parsers parse_type try_type_args other n)
  parse_level disjunction (suc n) = or_level parse_type try_type_args other (suc n) (
      unary_level parse_type try_type_args other (suc n) (parsers parse_type try_type_args other n))
  parse_level conjunction (suc n) = and_level parse_type try_type_args other (suc n) (
      unary_level parse_type try_type_args other (suc n) (parsers parse_type try_type_args other n))
  parse_level equality (suc n) = equality_level parse_type try_type_args other (suc n) (
      unary_level parse_type try_type_args other (suc n) (parsers parse_type try_type_args other n))
  parse_level relation (suc n) = rel_level parse_type try_type_args other (suc n) (
      unary_level parse_type try_type_args other (suc n) (parsers parse_type try_type_args other n))
  parse_level bit_or (suc n) = bit_or_level parse_type try_type_args other (suc n) (
      unary_level parse_type try_type_args other (suc n) (parsers parse_type try_type_args other n))
  parse_level bit_xor (suc n) = bit_xor_level parse_type try_type_args other (suc n) (
      unary_level parse_type try_type_args other (suc n) (parsers parse_type try_type_args other n))
  parse_level bit_and (suc n) = bit_and_level parse_type try_type_args other (suc n) (
      unary_level parse_type try_type_args other (suc n) (parsers parse_type try_type_args other n))
  parse_level shift (suc n) = shift_level parse_type try_type_args other (suc n) (
      unary_level parse_type try_type_args other (suc n) (parsers parse_type try_type_args other n))
  parse_level sum (suc n) = add_level parse_type try_type_args other (suc n) (
      unary_level parse_type try_type_args other (suc n) (parsers parse_type try_type_args other n))
  parse_level product (suc n) = mul_level parse_type try_type_args other (suc n) (
      unary_level parse_type try_type_args other (suc n) (parsers parse_type try_type_args other n))
  parse_level cast (suc n) = cast_level parse_type try_type_args other (suc n) (
      unary_level parse_type try_type_args other (suc n) (parsers parse_type try_type_args other n))
  parse_level unary (suc n) =
      unary_level parse_type try_type_args other (suc n) (parsers parse_type try_type_args other n)
  parse_level power (suc n) =
      power_level parse_type try_type_args other (suc n) (parsers parse_type try_type_args other n)
  parse_level postfix (suc n) =
      postfix_level parse_type try_type_args other (suc n)
        (parsers parse_type try_type_args other n)
  parse_level primary (suc n) =
      primary_level parse_type try_type_args other (suc n)
        (parsers parse_type try_type_args other n)

  -- Type arguments start at none of the tokens.
  abbrev pub Quiet : List Token → Type 0
  Quiet [] = Unit
  Quiet (t ∷ ts) = (try_type_args (before st (t ∷ ts)) ≡ none) × Quiet ts

  pub Quiet-append : (ts us : List Token) → Quiet (ts ++ us) → Quiet us
  Quiet-append [] us q = q
  Quiet-append (t ∷ ts) us (h, q) = Quiet-append ts us q

  abbrev pub Parses : Level → Node → List Token → Type 0
  Parses lv e ts =
      (n : ℕ) (rest : List Token)
      → length ts < n
      → Quiet (ts ++ rest)
      → Ends lv rest
      → parse_level lv n (before st (ts ++ rest)) ≡ some (e, before st rest)

  -- The parser of a left-associative level gets into its loop behind the tokens.
  abbrev pub Loops : Level → Infixes → Level → Node → List Token → Type 0
  Loops lv ops lv' e ts =
      (n : ℕ) (rest : List Token)
      → length ts < n
      → Quiet (ts ++ rest)
      → Ends lv' rest
      → (k : ℕ) × (n ≤ k + length ts)
        × (parse_level lv n (before st (ts ++ rest))
            ≡ left_loop ops (parse_level lv' n) k e (before st rest))

  level_turns :
      {lv lv' : Level} {ops : Infixes}
      → Chain lv ops lv'
      → (n : ℕ) (s : State)
      → parse_level lv (suc n) s ≡ left_assoc ops (parse_level lv' (suc n)) (suc n) s
  level_turns Chain.or_chain n s = refl
  level_turns Chain.and_chain n s = refl
  level_turns Chain.equality_chain n s = refl
  level_turns Chain.rel_chain n s = refl
  level_turns Chain.bit_or_chain n s = refl
  level_turns Chain.bit_xor_chain n s = refl
  level_turns Chain.bit_and_chain n s = refl
  level_turns Chain.shift_chain n s = refl
  level_turns Chain.sum_chain n s = refl
  level_turns Chain.product_chain n s = refl

  pub loop_start :
      {lv lv' : Level} {ops : Infixes} (e : Node) (ts : List Token)
      → Chain lv ops lv'
      → Parses lv' e ts
      → Loops lv ops lv' e ts
  loop_start e ts c p zero rest l q h = ground arith
  loop_start {lv' = lv'} {ops = ops} e ts c p (suc n) rest l q h = (
    suc n,
    omega arith,
    level_turns c n (before st (ts ++ rest))
        ∙ ap (λ r. then_parse r (left_loop ops (parse_level lv' (suc n)) (suc n)))
            (p (suc n) rest l q h),
  )

  pub loop_turn :
      (ops : Infixes) (next : Parse) (k : ℕ) (join : Node → Node → Node) (a b : Node) (t : Token)
      (us rest : List Token)
      → ops t.kind ≡ some join
      → next (before st us) ≡ some (b, before st rest)
      → left_loop ops next (suc k) a (before st (t ∷ us))
        ≡ left_loop ops next k (join a b) (before st rest)
  unfolding left_loop cur advance
  loop_turn ops next k join a b t us rest h e =
      ap (left_turn (left_loop ops next k) next a (before st (t ∷ us))) h
      ∙ ap (λ r. then_parse r (λ rhs st'. left_loop ops next k (join a rhs) st')) e

  pub loop_end :
      (ops : Infixes) (next : Parse) (k : ℕ) (a : Node) (rest : List Token)
      → ops (first_token rest).kind ≡ none
      → left_loop ops next k a (before st rest) ≡ some (a, before st rest)
  unfolding left_loop cur
  loop_end ops next zero a rest h = ap (left_turn no_fuel next a (before st rest)) h
  loop_end ops next (suc k) a rest h =
      ap (left_turn (left_loop ops next k) next a (before st rest)) h

  -- A turn of the loop is left when the fuel is more than the tokens so far.
  pub loop_operation :
      {lv lv' : Level} {ops : Infixes} {k : Tok} {join : Node → Node → Node} (a b : Node)
      (ts us : List Token)
      → Chain lv ops lv'
      → Infix lv k join
      → (t : Token) → Loops lv ops lv' a ts
      → Parses lv' b us
      → Loops lv ops lv' (join a b) (ts ++ of_kind k t ∷ us)
  loop_operation {lv} {lv'} {ops} {k} {join} a b ts us c i t l p n rest len q h =
      let (o, s) = Infix-joins c i in
      let tail = of_kind k t ∷ us ++ rest in
      let assoc = append_assoc ts (of_kind k t ∷ us) rest in
      let q' = subst Quiet assoc q in
      let size = length-append ts (of_kind k t ∷ us) in
      let (j, bound, f) = l n tail (omega arith) q' s in
      let e =
        p n rest (omega arith)
          (Quiet-append (of_kind k t ∷ []) (us ++ rest) (Quiet-append ts tail q')) h in
      elim j
          as (λ j.
            n ≤ j + length ts
            → parse_level lv n (before st (ts ++ tail))
              ≡ left_loop ops (parse_level lv' n) j a (before st tail)
            → (x : ℕ) × (n ≤ x + length (ts ++ of_kind k t ∷ us))
              × (parse_level lv n (before st ((ts ++ of_kind k t ∷ us) ++ rest))
                  ≡ left_loop ops (parse_level lv' n) x (join a b) (before st rest))) [
                    | zero ↦ λ bound f. absurd (omega arith)
                    | suc j ↦ λ bound f. (
                      j,
                      omega (arith, size),
                      ap (λ z. parse_level lv n (before st z)) assoc
                          ∙ f
                          ∙ loop_turn ops (parse_level lv' n) j join a b (of_kind k t) (us ++ rest)
                              rest o e,
                    )
                  ]
        bound f

  pub loop_finish :
      {lv lv' : Level} {ops : Infixes} (e : Node) (ts : List Token)
      → Chain lv ops lv'
      → Loops lv ops lv' e ts
      → Parses lv e ts
  loop_finish {lv} {lv'} {ops} e ts c l n rest len q h =
      let (o, h') = Chain-ends c (first_token rest).kind h in
      let (k, b, f) = l n rest len q h' in f ∙ loop_end ops (parse_level lv' n) k e rest o

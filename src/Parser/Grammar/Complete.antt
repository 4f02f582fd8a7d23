-- ===== src/Parser/Grammar/Complete.antt =====
-- Every sentence of the grammar is parsed to the expression that the grammar gives it.
use oxide_lang_reupload.Prelude.{
  ℕ, suc, ◌<◌, length, List, [], ◌∷◌, ◌++◌, Option, none, some, Bool, true, false, ◌≡◌, refl, sym,
  ◌∙◌, ap, arith,
}
use oxide_lang_reupload.Types.Base.{BType, plain, i64}
use oxide_lang_reupload.Lexer.Token.{Tok, Token}
use oxide_lang_reupload.Parser.State.{State}
use oxide_lang_reupload.Parser.Node.{Node}
use oxide_lang_reupload.Parser.Levels.{Result, Parse, Infixes}
use oxide_lang_reupload.Parser.Expr.{Calls, parse_expr}
use oxide_lang_reupload.Parser.Grammar.{
  Level, range, postfix, Chain, Tighter, Derives, operand, tighter, operation, implied, choice,
  assigned, sent, up_to, up_to_and_with, prefixed, raised, indexed, selected, parenthesised, name,
  number, string, truth, falsity, of_kind,
}
use oxide_lang_reupload.Parser.Grammar.Steps.{
  before, Ends, Derives-Starts, chained, Chain-chained, Tighter-chained, unequal_bools,
}
use oxide_lang_reupload.Parser.Grammar.Loops.{
  parse_level, Quiet, Quiet-append, loop_start, loop_operation, loop_finish, loop_turn, loop_end,
}
use oxide_lang_reupload.Parser.Grammar.Loops
use oxide_lang_reupload.Parser.Grammar.Through.{
  tighter_assign, tighter_cast, tighter_implies, tighter_power, tighter_range, tighter_ternary,
  tighter_unary,
}
use oxide_lang_reupload.Parser.Grammar.Operations.{
  assign_step, closed_range_step, implies_step, power_step, prefix_step, range_step, send_step,
  ternary_step,
}
use oxide_lang_reupload.Parser.Grammar.Primaries.{
  falsity_step, name_step, number_step, paren_step, string_step, truth_step,
}
use oxide_lang_reupload.Parser.Grammar.Trails.{
  Trails, trail_field, trail_finish, trail_index, trail_start,
}
use oxide_lang_reupload.Parser.Grammar.Calls.{expr_call}

module _ (parse_type : State → BType × State) (try_type_args : State → Option (List BType × State))
    (other : Calls → ℕ → State → Result) (st : State) where
  abbrev level_parser : Level → ℕ → Parse
  level_parser = parse_level parse_type try_type_args other st

  abbrev Parses : Level → Node → List Token → Type 0
  Parses = Loops.Parses parse_type try_type_args other st

  abbrev Quiet' : List Token → Type 0
  Quiet' = Quiet parse_type try_type_args other st

  turns_once :
      {lv lv' lv'' : Level} {ops ops' : Infixes} (e : Node) (ts : List Token)
      → Chain lv ops lv'
      → Chain lv ops' lv''
      → Loops.Loops parse_type try_type_args other st lv ops' lv'' e ts
      → Loops.Loops parse_type try_type_args other st lv ops lv' e ts
  turns_once e ts Chain.or_chain Chain.or_chain l = l
  turns_once e ts Chain.and_chain Chain.and_chain l = l
  turns_once e ts Chain.equality_chain Chain.equality_chain l = l
  turns_once e ts Chain.rel_chain Chain.rel_chain l = l
  turns_once e ts Chain.bit_or_chain Chain.bit_or_chain l = l
  turns_once e ts Chain.bit_xor_chain Chain.bit_xor_chain l = l
  turns_once e ts Chain.bit_and_chain Chain.bit_and_chain l = l
  turns_once e ts Chain.shift_chain Chain.shift_chain l = l
  turns_once e ts Chain.sum_chain Chain.sum_chain l = l
  turns_once e ts Chain.product_chain Chain.product_chain l = l

  turns_never :
      {lv lv' : Level} {ops : Infixes} (e : Node) (ts : List Token)
      → chained lv ≡ false
      → Chain lv ops lv'
      → Loops.Loops parse_type try_type_args other st lv ops lv' e ts
  turns_never e ts h c = absurd (unequal_bools (sym h ∙ Chain-chained c))

  mutual
    parses : {lv : Level} {e : Node} {ts : List Token} → Derives st.in_spec lv e ts → Parses lv e ts
    parses {lv} {e} {ts} (operand c d) =
        loop_finish parse_type try_type_args other st e ts c
          (loop_start parse_type try_type_args other st e ts c (parses d))
    parses {lv} {e} {ts} (tighter Tighter.range_assign d) =
        tighter_range parse_type try_type_args other st e ts (parses d)
    parses {lv} {e} {ts} (tighter Tighter.assign_conditional d) =
        tighter_assign parse_type try_type_args other st e ts (parses d)
    parses {lv} {e} {ts} (tighter Tighter.conditional_implies d) =
        tighter_ternary parse_type try_type_args other st e ts (parses d)
    parses {lv} {e} {ts} (tighter Tighter.implies_or d) =
        tighter_implies parse_type try_type_args other st e ts (parses d)
    parses {lv} {e} {ts} (tighter Tighter.cast_unary d) =
        tighter_cast parse_type try_type_args other st e ts (parses d)
    parses {lv} {e} {ts} (tighter Tighter.unary_power d) =
        tighter_unary parse_type try_type_args other st ts e (Derives-Starts d refl) (parses d)
    parses {lv} {e} {ts} (tighter Tighter.power_postfix d) =
        tighter_power parse_type try_type_args other st e ts (parses d)
    parses {lv} {e} {ts} (tighter Tighter.postfix_primary d) =
        trail_finish parse_type try_type_args other st e ts
          (trail_start parse_type try_type_args other st e ts (parses d))
    parses {lv} {e} {ts} (operation {a = a} {b = b} {ts = us} {us = vs} c i t x y) =
        loop_finish parse_type try_type_args other st e ts c
          (loop_operation parse_type try_type_args other st a b us vs c i t (loops c x) (parses y))
    parses (implied {a = a} {b = b} {ts = ts} {us = us} s t x y) =
        implies_step parse_type try_type_args other st a b ts us t s (parses x) (parses y)
    parses (choice {c = c} {a = a} {b = b} {ts = ts} {us = us} {vs = vs} t u x y z) =
        ternary_step parse_type try_type_args other st c a b ts us vs t u (parses x) (parses y)
          (parses z)
    parses (assigned {a = a} {b = b} {g = g} {ts = ts} {us = us} i w t x y) =
        assign_step parse_type try_type_args other st a b g ts us i w t (parses x) (parses y)
    parses (sent {a = a} {b = b} {ts = ts} {us = us} t x y) =
        send_step parse_type try_type_args other st a b ts us t (parses x) (parses y)
    parses (up_to {a = a} {b = b} {ts = ts} {us = us} t x y) =
        range_step parse_type try_type_args other st a b ts us t (parses x) (parses y)
    parses (up_to_and_with {a = a} {b = b} {ts = ts} {us = us} t x y) =
        closed_range_step parse_type try_type_args other st a b ts us t (parses x) (parses y)
    parses (prefixed {e = e} {ts = ts} i t x) =
        prefix_step parse_type try_type_args other st e ts i t (parses x)
    parses (raised {a = a} {b = b} {ts = ts} {us = us} t x y) =
        power_step parse_type try_type_args other st a b ts us t (parses x) (parses y)
    parses (indexed {a = a} {b = b} {ts = ts} {us = us} t u x y) =
        trail_finish parse_type try_type_args other st (Node.index a b)
          (ts ++ of_kind Tok.lbracket t ∷ us ++ of_kind Tok.rbracket u ∷ [])
          (trail_index parse_type try_type_args other st a b ts us t u (trails x) (parses y))
    parses (selected {a = a} {ts = ts} t u x) =
        trail_finish parse_type try_type_args other st (Node.field a u.text)
          (ts ++ of_kind Tok.dot t ∷ of_kind Tok.ident u ∷ [])
          (trail_field parse_type try_type_args other st a ts t u (trails x))
    parses (parenthesised {e = e} {ts = ts} t u x) =
        paren_step parse_type try_type_args other st e ts t u (parses x)
    parses (name t) = name_step parse_type try_type_args other st t
    parses (number t) = number_step parse_type try_type_args other st t
    parses (string t) = string_step parse_type try_type_args other st t
    parses (truth t) = truth_step parse_type try_type_args other st t
    parses (falsity t) = falsity_step parse_type try_type_args other st t

    loops :
        {lv lv' : Level} {ops : Infixes} {e : Node} {ts : List Token}
        → Chain lv ops lv'
        → Derives st.in_spec lv e ts
        → Loops.Loops parse_type try_type_args other st lv ops lv' e ts
    loops {e = e} {ts = ts} c (operand c' d) =
        turns_once e ts c c' (loop_start parse_type try_type_args other st e ts c' (parses d))
    loops {e = e} {ts = ts} c (operation {a = a} {b = b} {ts = us} {us = vs} c' i t x y) =
        turns_once e ts c c' (
          loop_operation parse_type try_type_args other st a b us vs c' i t (loops c' x) (parses y))
    loops {e = e} {ts = ts} c (tighter t d) = turns_never e ts (Tighter-chained t) c
    loops {e = e} {ts = ts} c (implied s t x y) = turns_never e ts refl c
    loops {e = e} {ts = ts} c (choice t u x y z) = turns_never e ts refl c
    loops {e = e} {ts = ts} c (assigned i w t x y) = turns_never e ts refl c
    loops {e = e} {ts = ts} c (sent t x y) = turns_never e ts refl c
    loops {e = e} {ts = ts} c (up_to t x y) = turns_never e ts refl c
    loops {e = e} {ts = ts} c (up_to_and_with t x y) = turns_never e ts refl c
    loops {e = e} {ts = ts} c (prefixed i t x) = turns_never e ts refl c
    loops {e = e} {ts = ts} c (raised t x y) = turns_never e ts refl c
    loops {e = e} {ts = ts} c (indexed t u x y) = turns_never e ts refl c
    loops {e = e} {ts = ts} c (selected t u x) = turns_never e ts refl c
    loops {e = e} {ts = ts} c (parenthesised t u x) = turns_never e ts refl c
    loops {e = e} {ts = ts} c (name t) = turns_never e ts refl c
    loops {e = e} {ts = ts} c (number t) = turns_never e ts refl c
    loops {e = e} {ts = ts} c (string t) = turns_never e ts refl c
    loops {e = e} {ts = ts} c (truth t) = turns_never e ts refl c
    loops {e = e} {ts = ts} c (falsity t) = turns_never e ts refl c

    trails :
        {e : Node} {ts : List Token}
        → Derives st.in_spec postfix e ts
        → Trails parse_type try_type_args other st e ts
    trails (operand c d) = absurd (unequal_bools (Chain-chained c))
    trails {e} {ts} (tighter Tighter.postfix_primary d) =
        trail_start parse_type try_type_args other st e ts (parses d)
    trails (indexed {a = a} {b = b} {ts = ts} {us = us} t u x y) =
        trail_index parse_type try_type_args other st a b ts us t u (trails x) (parses y)
    trails (selected {a = a} {ts = ts} t u x) =
        trail_field parse_type try_type_args other st a ts t u (trails x)
    trails (operation c i t x y) = absurd (unequal_bools (Chain-chained c))

  -- The expression parser reads every sentence of the grammar as the expression that the grammar
  -- derives it from, whatever the arms of `parsePrimary` that are not modelled do: from any state,
  -- with more fuel than the sentence has tokens, where type arguments start at no token of the sentence
  -- and at none behind it, and the token behind the sentence ends an expression. It stops at that
  -- token, and adds no error.
  pub parse_expr-Derives :
      {e : Node} {ts : List Token}
      → Derives st.in_spec range e ts
      → (n : ℕ) (rest : List Token) → length ts < n
      → Quiet' (ts ++ rest)
      → Ends range rest
      → parse_expr parse_type try_type_args other n (before st (ts ++ rest))
        ≡ some (e, before st rest)
  parse_expr-Derives {e} {ts} d n rest l q h =
      ap (λ (p : Parse). p (before st (ts ++ rest))) (expr_call parse_type try_type_args other st n)
      ∙ parses d n rest l q h

silent :
    (st : State) (ts : List Token) → Quiet (λ s. (plain i64, s)) (λ s. none) (λ c n s. none) st ts
silent st [] = tt
silent st (t ∷ ts) = (refl, silent st ts)

node_or : Node → Result → Node
node_or e none = e
node_or e (some (f, s)) = f

result_node : (e f : Node) (s s' : State) (r : Result) → r ≡ some (e, s) → r ≡ some (f, s') → e ≡ f
unfolding node_or
result_node e f s s' r h h' = sym (ap (node_or e) h) ∙ ap (node_or e) h'

-- The grammar of expressions is not ambiguous: precedence and associativity leave one expression for
-- a sequence of tokens, in a contract and outside.
Derives-unique :
    {spec : Bool} {e f : Node} {ts : List Token}
    → Derives spec range e ts
    → Derives spec range f ts
    → e ≡ f
Derives-unique {spec} {e} {f} {ts} d d' =
    let st : State = record { toks = []; errs = []; allow_struct_lit = true; in_spec = spec } in
    let n = suc (length ts) in
    let quiet = silent st (ts ++ []) in
    result_node e f (before st []) (before st [])
      (parse_expr (λ s. (plain i64, s)) (λ s. none) (λ c n s. none) n (before st (ts ++ [])))
      (parse_expr-Derives (λ s. (plain i64, s)) (λ s. none) (λ c n s. none) st d n [] (omega arith)
        quiet refl)
      (parse_expr-Derives (λ s. (plain i64, s)) (λ s. none) (λ c n s. none) st d' n [] (omega arith)
        quiet refl)

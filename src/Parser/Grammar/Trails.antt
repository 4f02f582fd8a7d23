-- ===== src/Parser/Grammar/Trails.antt =====
-- How indices and fields behind an operand are parsed.
use oxide_lang_reupload.Prelude.{
  ℕ, zero, suc, ◌+◌, ◌≤◌, ◌<◌, length, length-append, List, [], ◌∷◌, ◌++◌, append_assoc, Option,
  some, Bool, true, false, not, ◌&&◌, &&_iff, ◌≡◌, refl, sym, ◌∙◌, ap, subst, arith,
}
use oxide_lang_reupload.Types.Base.{BType}
use oxide_lang_reupload.Lexer.Token.{Tok, Token}
use oxide_lang_reupload.Parser.State.{State, cur, advance, at, expect, first_token}
use oxide_lang_reupload.Parser.Node.{Node}
use oxide_lang_reupload.Parser.Levels.{Result, Parse}
use oxide_lang_reupload.Parser.Postfix.{
  parse_postfix, postfix_loop, postfix_turn, leave, run_turn, no_turn,
}
use oxide_lang_reupload.Parser.Expr.{Calls, parsers}
use oxide_lang_reupload.Parser.Grammar.{
  Level, range, postfix, primary, of_kind, stops, differs, is_postfix,
}
use oxide_lang_reupload.Parser.Grammar.Steps.{before, Ends, not_at}
use oxide_lang_reupload.Parser.Grammar.Loops.{
  parse_level, Quiet, Quiet-append, loop_start, loop_operation, loop_finish, loop_turn, loop_end,
}
use oxide_lang_reupload.Parser.Grammar.Loops
use oxide_lang_reupload.Parser.Grammar.Calls.{expr_call}

module _ (parse_type : State → BType × State) (try_type_args : State → Option (List BType × State))
    (other : Calls → ℕ → State → Result) (st : State) where
  abbrev level_parser : Level → ℕ → Parse
  level_parser = parse_level parse_type try_type_args other st

  abbrev Parses : Level → Node → List Token → Type 0
  Parses = Loops.Parses parse_type try_type_args other st

  abbrev Quiet' : List Token → Type 0
  Quiet' = Quiet parse_type try_type_args other st

  turn_leaves :
      (expr : Parse) (n : ℕ) (e : Node) (s : State) (k : Tok)
      → is_postfix k ≡ false
      → postfix_turn expr n e s k ≡ leave e s
  unfolding postfix_turn
  turn_leaves expr n e s Tok.lbracket h = ground arith
  turn_leaves expr n e s Tok.dot h = ground arith
  turn_leaves expr n e s Tok.lparen h = ground arith
  turn_leaves expr n e s Tok.math_sym h = ground arith
  turn_leaves expr n e s Tok.kw_pow2 h = ground arith
  turn_leaves expr n e s Tok.kw_pow3 h = ground arith
  turn_leaves expr n e s Tok.inc h = ground arith
  turn_leaves expr n e s Tok.dec h = ground arith
  turn_leaves expr n e s _ h = refl

  must_be_false : (b : Bool) → not b ≡ true → b ≡ false
  must_be_false true h = sym h
  must_be_false false h = refl

  -- The parser of a postfix expression gets into its loop behind the tokens.
  abbrev pub Trails : Node → List Token → Type 0
  Trails e ts =
      (n : ℕ) (rest : List Token)
      → length ts < suc n
      → Quiet' (ts ++ rest)
      → Ends primary rest
      → (k : ℕ) × (suc n ≤ k + length ts)
        × (level_parser postfix (suc n) (before st (ts ++ rest))
            ≡ postfix_loop (parsers parse_type try_type_args other n).calls.expr (suc n) k e
                (before st rest))

  pub trail_start : (e : Node) (ts : List Token) → Parses primary e ts → Trails e ts
  unfolding parse_postfix
  trail_start e ts p n rest l q h = (suc n, omega arith, rw (p (suc n) rest l q h) refl)

  trail_end :
      (expr : Parse) (n k : ℕ) (e : Node) (rest : List Token)
      → is_postfix (first_token rest).kind ≡ false
      → postfix_loop expr n k e (before st rest) ≡ some (e, before st rest)
  unfolding postfix_loop cur
  trail_end expr n zero e rest h =
      ap (run_turn no_turn) (turn_leaves expr n e (before st rest) (first_token rest).kind h)
  trail_end expr n (suc k) e rest h =
      ap (run_turn (postfix_loop expr n k))
        (turn_leaves expr n e (before st rest) (first_token rest).kind h)

  pub trail_finish : (e : Node) (ts : List Token) → Trails e ts → Parses postfix e ts
  trail_finish e ts p zero rest l q h = ground arith
  trail_finish e ts p (suc n) rest l q h =
      let k = (first_token rest).kind in
      let (a, b) = (&&_iff (not (is_postfix k)) (stops primary k)).0 h in
      let (j, bound, f) = p n rest l q b in
      f ∙ trail_end _ (suc n) j e rest (must_be_false (is_postfix k) a)

  -- One turn of the loop, when there is fuel left.
  trail_step :
      (a b : Node) (ts us rest : List Token) (n : ℕ)
      → Trails a ts
      → length (ts ++ us) < suc n
      → 1 ≤ length us
      → Quiet' ((ts ++ us) ++ rest)
      → Ends primary (us ++ rest)
      → ((j : ℕ)
          → postfix_loop
              (parsers parse_type try_type_args other n).calls.expr
              (suc n)
              (suc j)
              a
              (before st (us ++ rest))
            ≡ postfix_loop
                (parsers parse_type try_type_args other n).calls.expr
                (suc n)
                j
                b
                (before st rest))
      → (k : ℕ) × (suc n ≤ k + length (ts ++ us))
        × (level_parser postfix (suc n) (before st ((ts ++ us) ++ rest))
            ≡ postfix_loop
                (parsers parse_type try_type_args other n).calls.expr
                (suc n)
                k
                b
                (before st rest))
  trail_step a b ts us rest n p len one q h turn =
      let assoc = append_assoc ts us rest in
      let size = length-append ts us in
      let (j, bound, f) = p n (us ++ rest) (omega arith) (subst Quiet' assoc q) h in
      go j size bound (ap (λ z. level_parser postfix (suc n) (before st z)) assoc ∙ f)
    where
      go :
          (j : ℕ)
          → length (ts ++ us) ≡ length ts + length us
          → suc n ≤ j + length ts
          → level_parser postfix (suc n) (before st ((ts ++ us) ++ rest))
            ≡ postfix_loop
                (parsers parse_type try_type_args other n).calls.expr
                (suc n)
                j
                a
                (before st (us ++ rest))
          → (k : ℕ) × (suc n ≤ k + length (ts ++ us))
            × (level_parser postfix (suc n) (before st ((ts ++ us) ++ rest))
                ≡ postfix_loop
                    (parsers parse_type try_type_args other n).calls.expr
                    (suc n)
                    k
                    b
                    (before st rest))
      go zero size bound f = absurd (omega arith)
      go (suc j) size bound f = (j, omega arith, f ∙ turn j)

  index_turn :
      (expr : Parse) (n j : ℕ) (a b : Node) (t u : Token) (us rest : List Token)
      → expr (before st (us ++ of_kind Tok.rbracket u ∷ rest))
        ≡ some (b, before st (of_kind Tok.rbracket u ∷ rest))
      → postfix_loop expr n
          (suc j)
          a
          (before st (of_kind Tok.lbracket t ∷ us ++ of_kind Tok.rbracket u ∷ rest))
        ≡ postfix_loop expr n j (Node.index a b) (before st rest)
  unfolding postfix_loop postfix_turn cur advance expect at
  index_turn expr n j a b t u us rest e = rw e refl

  field_turn :
      (expr : Parse) (n j : ℕ) (a : Node) (t u : Token) (rest : List Token)
      → differs (first_token rest).kind Tok.lparen ≡ true
      → postfix_loop expr n (suc j) a (before st (of_kind Tok.dot t ∷ of_kind Tok.ident u ∷ rest))
        ≡ postfix_loop expr n j (Node.field a u.text) (before st rest)
  unfolding postfix_loop postfix_turn cur advance expect at
  field_turn expr n j a t u rest h = rw (not_at (first_token rest).kind Tok.lparen h) refl

  pub trail_field :
      (a : Node) (ts : List Token) (t u : Token)
      → Trails a ts
      → Trails (Node.field a u.text) (ts ++ of_kind Tok.dot t ∷ of_kind Tok.ident u ∷ [])
  trail_field a ts t u p n rest l q h =
      let k = (first_token rest).kind in
      let h1 =
        (&&_iff (differs k Tok.lparen && differs k Tok.coloncolon) (differs k Tok.lbrace)).0 h in
      trail_step a (Node.field a u.text) ts (of_kind Tok.dot t ∷ of_kind Tok.ident u ∷ []) rest n p
        l (omega arith) q refl
        (λ j.
          field_turn (parsers parse_type try_type_args other n).calls.expr (suc n) j a t u rest
            ((&&_iff (differs k Tok.lparen) (differs k Tok.coloncolon)).0 h1.0).0)

  pub trail_index :
      (a b : Node) (ts us : List Token) (t u : Token)
      → Trails a ts
      → Parses range b us
      → Trails (Node.index a b) (ts ++ of_kind Tok.lbracket t ∷ us ++ of_kind Tok.rbracket u ∷ [])
  trail_index a b ts us t u p x n rest l q h =
      let tail = of_kind Tok.lbracket t ∷ us ++ of_kind Tok.rbracket u ∷ [] in
      let inner = append_assoc ts (of_kind Tok.lbracket t ∷ us) (of_kind Tok.rbracket u ∷ []) in
      let assoc = append_assoc us (of_kind Tok.rbracket u ∷ []) rest in
      let size = length-append us (of_kind Tok.rbracket u ∷ []) in
      let size' = length-append ts tail in
      let l' = subst (λ z. length z < suc n) inner l in
      let q1 = subst (λ z. Quiet' (z ++ rest)) inner q in
      let q2 =
        subst Quiet' assoc
          (Quiet-append parse_type try_type_args other st ts (tail ++ rest)
            (subst Quiet' (append_assoc ts tail rest) q1)).1 in
      let e = x n (of_kind Tok.rbracket u ∷ rest) (omega arith) q2 refl in
      subst
        (λ z.
          (k : ℕ) × (suc n ≤ k + length z)
          × (level_parser postfix (suc n) (before st (z ++ rest))
              ≡ postfix_loop (parsers parse_type try_type_args other n).calls.expr (suc n) k
                  (Node.index a b) (before st rest)))
        (sym inner)
        (trail_step a (Node.index a b) ts tail rest n p l' (omega arith) q1 refl (λ j. rw assoc (
          index_turn (parsers parse_type try_type_args other n).calls.expr (suc n) j a b t u us rest
            (rw (expr_call parse_type try_type_args other st n) e))))

-- ===== src/Parser/Total/Postfix.antt =====
-- Argument lists and `parsePostfix` return.
use oxide_lang_reupload.Prelude.{
  ℕ, zero, suc, ◌≤◌, ◌<◌, Text, codes, text_eq, List, [], ◌∷◌, some, Bool, true, false, not, ◌||◌,
  if◌then◌else◌, ◌≡◌, refl, sym, subst, arith,
}
use oxide_lang_reupload.Lexer.Token.{Tok, Token}
use oxide_lang_reupload.Parser.State.{State, cur, advance, at, expect, first_token}
use oxide_lang_reupload.Parser.Node.{Node, Nodes, no_nodes, node}
use oxide_lang_reupload.Parser.Levels.{Result, Parse}
use oxide_lang_reupload.Parser.Postfix.{
  Args, then_args, args_turn, no_args_fuel, args_loop, parse_args, decode_sup, sup2, sup3, Turn,
  again, leave, spent, turn_of_call, turn_of_index, math_turn, inc_dec_turn, dot_turn, postfix_turn,
  run_turn, no_turn, postfix_loop, parse_postfix,
}
use oxide_lang_reupload.Parser.Total.Levels.{make_inc_dec_le}
use oxide_lang_reupload.Parser.Total.{
  size, Returns, IsTotal, returned, then-Returns, Returns_le, advance_le, at-advance, expect_le,
}

-- The arguments are read, with at most `m` tokens left.
abbrev pub Lists : Args → ℕ → Type 0
Lists r m = (es : Nodes) × (st : State) × (r ≡ some (es, st)) × (size st ≤ m)

if-Lists :
    (b : Bool) (x y : Args) (m : ℕ)
    → (b ≡ true → Lists x m)
    → (b ≡ false → Lists y m)
    → Lists (if b then x else y) m
if-Lists true x y m f g = f refl
if-Lists false x y m f g = g refl

pub then_args-Returns :
    (r : Args) (k : Nodes → State → Result) (m m' : ℕ)
    → Lists r m
    → ((es : Nodes) (st : State) → size st ≤ m → Returns (k es st) m')
    → Returns (then_args r k) m'
then_args-Returns r k m m' (es, st, h, l) f =
    subst (λ z. Returns (then_args z k) m') (sym h) (f es st l)

cons_args :
    (e : Node) (r : Args) (m : ℕ)
    → Lists r m
    → Lists (then_args r (λ es st. some (node e es, st))) m
cons_args e r m (es, st, h, l) =
    subst (λ z. Lists (then_args z (λ es st. some (node e es, st))) m) (sym h)
      (node e es, st, refl, l)

args_turn-Lists :
    (expr : Parse) (loop : State → Args) (n : ℕ) (st : State)
    → Returns (expr st) (size st)
    → ((st' : State) → suc (size st') ≤ size st → Lists (loop st') (size st))
    → Lists (args_turn loop expr st) (size st)
args_turn-Lists expr loop n st (e, st', h, l) f =
    if-Lists (at Tok.rparen st || at Tok.end st) _ _ (size st)
      (λ h. (no_nodes, st, refl, omega arith))
      (λ no. rw h (
        if-Lists (at Tok.comma st') _ _ (size st)
          (λ h.
            cons_args e (loop (advance st')) (size st)
              (f (advance st') (omega (arith, at-advance Tok.comma st' refl h))))
          (λ h. (node e no_nodes, st', refl, l))))

args_loop-Lists :
    (expr : Parse) (n : ℕ)
    → IsTotal expr n
    → (k : ℕ) (st : State) → size st ≤ k
    → size st < n
    → Lists (args_loop expr k st) (size st)
unfolding args_loop
args_loop-Lists expr n p zero st l m =
    args_turn-Lists expr no_args_fuel n st (p st m) (λ st' h. absurd (omega arith))
args_loop-Lists expr n p (suc k) st l m =
    args_turn-Lists expr (args_loop expr k) n st (p st m) (λ st' h.
      let (es, st2, e, l') = args_loop-Lists expr n p k st' (omega arith) (omega arith) in
      (es, st2, e, omega arith))

pub parse_args-Lists :
    (expr : Parse) (n : ℕ)
    → IsTotal expr n
    → (k : ℕ) (close : Text) (st : State) → size st ≤ k
    → size st < n
    → Lists (parse_args expr k close st) (size st)
unfolding parse_args
parse_args-Lists expr n p k close st l m =
    let (es, st', e, l') = args_loop-Lists expr n p k st l m in
    subst
      (λ z.
        Lists
          (then_args z (λ es st'. let (ok, st2) = expect Tok.rparen close st' in some (es, st2)))
          (size st))
      (sym e)
      (es, (expect Tok.rparen close st').1, refl, omega (arith, expect_le Tok.rparen close st'))

-- A turn takes a token before it goes on, and is not out of fuel.
abbrev Steps : Turn → ℕ → Type 0
Steps (again e st) m = suc (size st) ≤ m
Steps (leave e st) m = size st ≤ m
Steps spent m = ¬ Unit

if-Steps : (b : Bool) (x y : Turn) (m : ℕ) → Steps x m → Steps y m → Steps (if b then x else y) m
if-Steps true x y m f g = f
if-Steps false x y m f g = g

turn_of_call-Steps :
    (f : Nodes → Node) (r : Args) (m m' : ℕ) → Lists r m → suc m ≤ m' → Steps (turn_of_call f r) m'
turn_of_call-Steps f r m m' (es, st, h, l) le =
    subst (λ z. Steps (turn_of_call f z) m') (sym h) (omega arith)

turn_of_index-Steps :
    (e : Node) (r : Result) (m m' : ℕ) → Returns r m → suc m ≤ m' → Steps (turn_of_index e r) m'
turn_of_index-Steps e r m m' (i, st, h, l) le =
    subst (λ z. Steps (turn_of_index e z) m') (sym h)
      (omega (arith, expect_le Tok.rbracket (codes "']'") st))

dot_turn-Steps :
    (expr : Parse) (n k : ℕ) (e : Node) (st : State) (m : ℕ)
    → IsTotal expr n
    → size st ≤ k
    → size st < n
    → suc (size st) ≤ m
    → Steps (dot_turn expr k e st) m
dot_turn-Steps expr n k e st m p l l' le =
    let (ok, st') = expect Tok.ident (codes "field or method name") st in
    let small = expect_le Tok.ident (codes "field or method name") st in
    let name = (cur st).text in
    if-Steps (not ok) _ _ m (omega arith) (
      if-Steps (at Tok.lparen st') _ _ m
        (turn_of_call-Steps (Node.method_call name e)
          (parse_args expr k (codes "')'") (advance st')) (size (advance st')) m
          (parse_args-Lists expr n p k (codes "')'") (advance st') (omega (arith, advance_le st'))
            (omega (arith, advance_le st')))
          (omega (arith, advance_le st')))
        (omega arith))

math_turn-Steps :
    (e : Node) (st : State) → suc (size (advance st)) ≤ size st → Steps (math_turn e st) (size st)
math_turn-Steps e st less =
    let tx = (cur st).text in
    let (ascii, any) = decode_sup tx in
    if-Steps (text_eq tx sup2) _ _ (size st) less (
      if-Steps (text_eq tx sup3) _ _ (size st) less (if-Steps any _ _ (size st) less (omega arith)))

inc_dec_turn-Steps :
    (is_inc : Bool) (e : Node) (st : State)
    → suc (size (advance st)) ≤ size st
    → Steps (inc_dec_turn is_inc e st) (size st)
inc_dec_turn-Steps is_inc e st less = omega (arith, make_inc_dec_le is_inc true e (advance st))

postfix_turn-Steps :
    (expr : Parse) (n k : ℕ) (e : Node) (st : State) (t : Tok)
    → IsTotal expr n
    → size st ≤ k
    → size st < suc n
    → suc (size (advance st)) ≤ size st
    → Steps (postfix_turn expr k e st t) (size st)
unfolding postfix_turn
postfix_turn-Steps expr n k e st Tok.lbracket p l l' less =
    turn_of_index-Steps e (expr (advance st)) (size (advance st)) (size st)
      (p (advance st) (omega arith)) less
postfix_turn-Steps expr n k e st Tok.dot p l l' less =
    dot_turn-Steps expr n k e (advance st) (size st) p (omega arith) (omega arith) less
postfix_turn-Steps expr n k e st Tok.lparen p l l' less =
    turn_of_call-Steps (Node.call_value e) (parse_args expr k (codes "')'") (advance st))
      (size (advance st)) (size st)
      (parse_args-Lists expr n p k (codes "')'") (advance st) (omega arith) (omega arith)) less
postfix_turn-Steps expr n k e st Tok.math_sym p l l' less = math_turn-Steps e st less
postfix_turn-Steps expr n k e st Tok.kw_pow2 p l l' less = less
postfix_turn-Steps expr n k e st Tok.kw_pow3 p l l' less = less
postfix_turn-Steps expr n k e st Tok.inc p l l' less = inc_dec_turn-Steps true e st less
postfix_turn-Steps expr n k e st Tok.dec p l l' less = inc_dec_turn-Steps false e st less
postfix_turn-Steps expr n k e st _ p l l' less = omega arith

-- At the end of the tokens the loop is left.
turn-Steps :
    (expr : Parse) (n k : ℕ) (e : Node) (st : State) (ts : List Token)
    → st.toks ≡ ts
    → IsTotal expr n
    → size st ≤ k
    → size st < suc n
    → Steps (postfix_turn expr k e st (first_token ts).kind) (size st)
unfolding postfix_turn advance
turn-Steps expr n k e st [] q p l l' = omega arith
turn-Steps expr n k e st (t ∷ ts) q p l l' =
    postfix_turn-Steps expr n k e st t.kind p l l' (rw q (omega arith))

run_turn-Returns :
    (t : Turn) (loop : Node → State → Result) (m : ℕ)
    → Steps t m
    → ((e : Node) (st : State) → suc (size st) ≤ m → Returns (loop e st) m)
    → Returns (run_turn loop t) m
run_turn-Returns (again e st) loop m s f = f e st s
run_turn-Returns (leave e st) loop m s f = returned e st m s
run_turn-Returns spent loop m s f = absurd (s tt)

postfix_loop-Returns :
    (expr : Parse) (n j : ℕ)
    → IsTotal expr n
    → (k : ℕ) (e : Node) (st : State) → size st ≤ k
    → size st ≤ j
    → size st < suc n
    → Returns (postfix_loop expr j k e st) (size st)
unfolding postfix_loop cur
postfix_loop-Returns expr n j p zero e st l i m =
    run_turn-Returns (postfix_turn expr j e st (first_token st.toks).kind) no_turn (size st)
      (turn-Steps expr n j e st st.toks refl p i m) (λ e' st' h. absurd (omega arith))
postfix_loop-Returns expr n j p (suc k) e st l i m =
    run_turn-Returns (postfix_turn expr j e st (first_token st.toks).kind) (postfix_loop expr j k)
      (size st) (turn-Steps expr n j e st st.toks refl p i m)
      (λ e' st' h.
        Returns_le (postfix_loop expr j k e' st') (size st') (size st) (omega arith)
          (postfix_loop-Returns expr n j p k e' st' (omega arith) (omega arith) (omega arith)))

pub parse_postfix-IsTotal :
    (expr primary : Parse) (n : ℕ)
    → IsTotal expr n
    → IsTotal primary (suc n)
    → IsTotal (parse_postfix expr primary (suc n)) (suc n)
unfolding parse_postfix
parse_postfix-IsTotal expr primary n p q st l =
    then-Returns (primary st) _ (size st) (size st) (q st l) (λ e st' l'.
      Returns_le (postfix_loop expr (suc n) (suc n) e st') (size st') (size st) l' (
        postfix_loop-Returns expr n (suc n) p (suc n) e st' (omega arith) (omega arith)
          (omega arith)))

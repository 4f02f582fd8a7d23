-- ===== src/Parser/Postfix.antt =====
-- src/Parser.cpp, `parsePostfix`: calls, indices, fields, superscripts, `++` and `--`.
use oxide_lang_reupload.Prelude.{
  ℕ, zero, suc, ◌+◌, ◌-◌, ◌*◌, ◌%◌, ◌^◌, Text, codes, text_eq, [], ◌∷◌, Option, none, some, Bool,
  true, false, not, ◌||◌, ◌&&◌, ◌==◌, leb, if◌then◌else◌,
}
use oxide_lang_reupload.Lexer.Token.{Tok}
use oxide_lang_reupload.Splitter.Expr.{UnaryOp}
use oxide_lang_reupload.Parser.State.{State, cur, advance, at, expect}
use oxide_lang_reupload.Parser.Node.{Node, Nodes, no_nodes, node}
use oxide_lang_reupload.Parser.Levels.{Result, Parse, then_parse, make_inc_dec}

-- Arguments and the state behind them, or `none` when the fuel is spent.
abbrev pub Args : Type 0
Args = Option (Nodes × State)

abbrev pub then_args {ℓ} : {A : Type ℓ} → Args → (Nodes → State → Option A) → Option A
then_args none k = none
then_args (some (es, st)) k = k es st

abbrev pub args_turn : (State → Args) → Parse → State → Args
args_turn again expr st =
    if at Tok.rparen st || at Tok.end st then some (no_nodes, st) else elim (expr st) [
      | none ↦ none
      | some (e, st') ↦
          if at Tok.comma st'
          then then_args (again (advance st')) (λ es st2. some (node e es, st2))
          else some (node e no_nodes, st')
    ]

abbrev pub no_args_fuel : State → Args
no_args_fuel st = none

-- `while (!at(rparen) && !at(end)) { push_back(parseExpr()); if (!accept(comma)) break; }`
unfoldable pub args_loop : Parse → ℕ → State → Args
unfolding at advance
args_loop expr zero = args_turn no_args_fuel expr
args_loop expr (suc k) = args_turn (args_loop expr k) expr

-- The loop with the closing parenthesis, whose message is `close`.
unfoldable pub parse_args : Parse → ℕ → Text → State → Args
unfolding args_loop expect
parse_args expr n close st =
    then_args (args_loop expr n st)
      (λ es st'. let (ok, st2) = expect Tok.rparen close st' in some (es, st2))

-- The superscript bytes of a glyph run as ASCII, and `anySup`.
abbrev pub with_digit : ℕ → Text × Bool → Text × Bool
with_digit c (ascii, any) = (c ∷ ascii, true)

abbrev pub two_bytes : ℕ → ℕ → Text × Bool → Text × Bool → Text × Bool
two_bytes b0 b1 after1 after2 =
    if b0 == 194 && (b1 == 185)
    then with_digit 49 after2
    else if b0 == 194 && (b1 == 178)
    then with_digit 50 after2
    else if b0 == 194 && (b1 == 179)
    then with_digit 51 after2
    else after1

unfoldable pub decode_sup : Text → Text × Bool
decode_sup (b0 ∷ b1 ∷ b2 ∷ tx) =
    let after1 = decode_sup (b1 ∷ b2 ∷ tx) in
    let after2 = decode_sup (b2 ∷ tx) in
    let after3 = decode_sup tx in
    if b0 == 226 && (b1 == 129) && leb 176 b2 && leb b2 185
    then with_digit (48 + (b2 - 176)) after3
    else if b0 == 226 && (b1 == 129) && (b2 == 187)
    then with_digit 45 after3
    else if b0 == 226 && (b1 == 129) && (b2 == 188)
    then after3
    else two_bytes b0 b1 after1 after2
decode_sup (b0 ∷ b1 ∷ []) = two_bytes b0 b1 ([], false) ([], false)
decode_sup _ = ([], false)

-- `val * 10 + uint64_t(c - '0')` over the digits, modulo 2^64.
unfoldable pub sup_value : ℕ → Text → ℕ
sup_value val [] = val
sup_value val (c ∷ digits) = sup_value ((val * 10 + c + (2 ^ 64 - 48)) % 2 ^ 64) digits

-- The exponent of a decoded run: null if there is no digit.
abbrev pub sup_digits : Text → Node
sup_digits [] = Node.absent
sup_digits (c ∷ digits) = Node.int_lit (sup_value 0 (c ∷ digits))

abbrev pub sup_negated : Text → Node
sup_negated [] = Node.absent
sup_negated (c ∷ digits) = Node.unary UnaryOp.neg (Node.int_lit (sup_value 0 (c ∷ digits)))

unfoldable pub sup_exponent : Text → Node
unfolding sup_value
sup_exponent [] = Node.absent
sup_exponent (c ∷ ascii) = if c == 45 then sup_negated ascii else sup_digits (c ∷ ascii)

abbrev pub sup2 : Text
sup2 = 194 ∷ 178 ∷ []

abbrev pub sup3 : Text
sup3 = 194 ∷ 179 ∷ []

-- What a turn of the loop does: go on with an expression, or leave the loop.
pub data Turn : Type 0 where
  again : Node → State → Turn
  leave : Node → State → Turn
  spent : Turn

abbrev pub turn_of_call : (Nodes → Node) → Args → Turn
turn_of_call f none = spent
turn_of_call f (some (es, st)) = again (f es) st

abbrev pub turn_of_index : Node → Result → Turn
turn_of_index e none = spent
turn_of_index e (some (i, st)) =
    let (ok, st') = expect Tok.rbracket (codes "']'") st in again (Node.index e i) st'

abbrev pub squared : ℕ → Node → State → Turn
squared v e st = again (Node.power e (Node.int_lit v)) (advance st)

abbrev pub math_turn : Node → State → Turn
math_turn e st =
    let tx = (cur st).text in
    let (ascii, any) = decode_sup tx in
    if text_eq tx sup2
    then squared 2 e st
    else if text_eq tx sup3
    then squared 3 e st
    else if any
    then again (Node.superscript tx e (sup_exponent ascii)) (advance st)
    else leave e st

abbrev pub inc_dec_turn : Bool → Node → State → Turn
inc_dec_turn is_inc e st = let (d, st') = make_inc_dec is_inc true e (advance st) in again d st'

-- Behind a `.`: the name, and the arguments if there are any.
abbrev pub dot_turn : Parse → ℕ → Node → State → Turn
dot_turn expr n e st =
    let (ok, st') = expect Tok.ident (codes "field or method name") st in
    let name = (cur st).text in
    if not ok
    then leave e st'
    else if at Tok.lparen st'
    then turn_of_call (Node.method_call name e) (parse_args expr n (codes "')'") (advance st'))
    else again (Node.field e name) st'

unfoldable pub postfix_turn : Parse → ℕ → Node → State → Tok → Turn
unfolding at advance cur expect parse_args make_inc_dec decode_sup sup_exponent
postfix_turn expr n e st Tok.lbracket = turn_of_index e (expr (advance st))
postfix_turn expr n e st Tok.dot = dot_turn expr n e (advance st)
postfix_turn expr n e st Tok.lparen =
    turn_of_call (Node.call_value e) (parse_args expr n (codes "')'") (advance st))
postfix_turn expr n e st Tok.math_sym = math_turn e st
postfix_turn expr n e st Tok.kw_pow2 = squared 2 e st
postfix_turn expr n e st Tok.kw_pow3 = squared 3 e st
postfix_turn expr n e st Tok.inc = inc_dec_turn true e st
postfix_turn expr n e st Tok.dec = inc_dec_turn false e st
postfix_turn expr n e st _ = leave e st

abbrev pub run_turn : (Node → State → Result) → Turn → Result
run_turn loop (again e st) = loop e st
run_turn loop (leave e st) = some (e, st)
run_turn loop spent = none

abbrev pub no_turn : Node → State → Result
no_turn e st = none

unfoldable pub postfix_loop : Parse → ℕ → ℕ → Node → State → Result
unfolding postfix_turn cur
postfix_loop expr n zero e st = run_turn no_turn (postfix_turn expr n e st (cur st).kind)
postfix_loop expr n (suc k) e st =
    run_turn (postfix_loop expr n k) (postfix_turn expr n e st (cur st).kind)

unfoldable pub parse_postfix : Parse → Parse → ℕ → Parse
unfolding postfix_loop
parse_postfix expr primary n st = then_parse (primary st) (postfix_loop expr n n)

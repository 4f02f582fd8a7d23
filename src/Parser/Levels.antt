-- ===== src/Parser/Levels.antt =====
-- src/Parser.cpp, `parseRange` to `parsePower`: the levels of precedence. A level takes the parsers it
-- calls as arguments; src/Parser.cpp ties them together in Expr.
use oxide_lang_reupload.Prelude.{
  ℕ, zero, suc, codes, Option, none, some, Bool, true, false, ◌||◌, if◌then◌else◌,
}
use oxide_lang_reupload.Types.Base.{BType}
use oxide_lang_reupload.Lexer.Token.{Tok}
use oxide_lang_reupload.Splitter.Expr.{UnaryOp, BinaryOp}
use oxide_lang_reupload.Parser.State.{State, cur, advance, at, error, expect}
use oxide_lang_reupload.Parser.Node.{Node, Target, to_var, to_index, to_field, to_deref}

-- The node and the state behind it, or `none` when the fuel is spent.
abbrev pub Result : Type 0
Result = Option (Node × State)

abbrev pub Parse : Type 0
Parse = State → Result

-- What follows a call of another parser.
abbrev pub then_parse : Result → (Node → State → Result) → Result
then_parse none k = none
then_parse (some (e, st)) k = k e st

-- How an infix token joins its operands.
abbrev pub Infixes : Type 0
Infixes = Tok → Option (Node → Node → Node)

-- The loops of the left-associative levels: one turn, `again` being the loop.
abbrev pub left_turn :
    (Node → State → Result) → Parse → Node → State → Option (Node → Node → Node) → Result
left_turn again next lhs st none = some (lhs, st)
left_turn again next lhs st (some join) =
    then_parse (next (advance st)) (λ rhs st'. again (join lhs rhs) st')

abbrev pub no_fuel : Node → State → Result
no_fuel e st = none

unfoldable pub left_loop : Infixes → Parse → ℕ → Node → State → Result
unfolding cur advance
left_loop ops next zero lhs st = left_turn no_fuel next lhs st (ops (cur st).kind)
left_loop ops next (suc k) lhs st = left_turn (left_loop ops next k) next lhs st (ops (cur st).kind)

abbrev pub left_assoc : Infixes → Parse → ℕ → Parse
left_assoc ops next n st = then_parse (next st) (left_loop ops next n)

abbrev pub or_ops : Infixes
or_ops Tok.barbar = some (Node.binary BinaryOp.lor)
or_ops _ = none

abbrev pub and_ops : Infixes
and_ops Tok.ampamp = some (Node.binary BinaryOp.land)
and_ops _ = none

abbrev pub equality_ops : Infixes
equality_ops Tok.eqeq = some (Node.binary BinaryOp.eq)
equality_ops Tok.bangeq = some (Node.binary BinaryOp.ne)
equality_ops _ = none

abbrev pub rel_ops : Infixes
rel_ops Tok.lt = some (Node.binary BinaryOp.lt)
rel_ops Tok.gt = some (Node.binary BinaryOp.gt)
rel_ops Tok.lteq = some (Node.binary BinaryOp.le)
rel_ops Tok.gteq = some (Node.binary BinaryOp.ge)
rel_ops _ = none

abbrev pub bit_or_ops : Infixes
bit_or_ops Tok.bar = some (Node.binary BinaryOp.bor)
bit_or_ops _ = none

abbrev pub bit_xor_ops : Infixes
bit_xor_ops Tok.caret = some (Node.binary BinaryOp.bxor)
bit_xor_ops _ = none

abbrev pub bit_and_ops : Infixes
bit_and_ops Tok.amp = some (Node.binary BinaryOp.band)
bit_and_ops _ = none

abbrev pub shift_ops : Infixes
shift_ops Tok.shl = some (Node.binary BinaryOp.shl)
shift_ops Tok.shr = some (Node.binary BinaryOp.shr)
shift_ops _ = none

abbrev pub add_ops : Infixes
add_ops Tok.plus = some (Node.binary BinaryOp.add)
add_ops Tok.minus = some (Node.binary BinaryOp.sub)
add_ops _ = none

abbrev pub mul_ops : Infixes
mul_ops Tok.star = some (Node.binary BinaryOp.mul)
mul_ops Tok.slash = some (Node.binary BinaryOp.div)
mul_ops Tok.percent = some (Node.binary BinaryOp.mod_)
mul_ops Tok.backslash = some Node.solve
mul_ops _ = none

-- `A implies B` as `!A || B`.
abbrev pub implies_ops : Infixes
implies_ops Tok.kw_implies = some (λ a b. Node.binary BinaryOp.lor (Node.unary UnaryOp.not_ a) b)
implies_ops _ = none

-- `implies` is the recursive call.
unfoldable pub parse_implies : Parse → Parse → ℕ → Parse
unfolding left_loop
parse_implies implies logic_or n st =
    then_parse (logic_or st)
      (λ lhs st'. if st'.in_spec then left_loop implies_ops implies n lhs st' else some (lhs, st'))

unfoldable pub parse_ternary : Parse → Parse → Parse
unfolding at advance expect
parse_ternary assign implies st = then_parse (implies st) (λ c st1.
    if at Tok.question st1
    then then_parse (assign (advance st1)) (λ t st2.
      let (ok, st3) = expect Tok.colon (codes "expected ':' in ternary expression") st2 in
      then_parse (assign st3) (λ e st4. some (Node.ternary c t e, st4)))
    else some (c, st1))

-- The place that an expression denotes.
abbrev pub target_of : Node → Option Target
target_of (Node.var_ref name) = some (to_var name)
target_of (Node.index base i) = some (to_index base i)
target_of (Node.field base name) = some (to_field base name)
target_of (Node.unary UnaryOp.deref base) = some (to_deref base)
target_of _ = none

-- `=` and the compound operators: `none` is no such token, and `=` has no operation.
abbrev pub assign_op : Tok → Option (Option BinaryOp)
assign_op Tok.eq = some none
assign_op Tok.pluseq = some (some BinaryOp.add)
assign_op Tok.minuseq = some (some BinaryOp.sub)
assign_op Tok.stareq = some (some BinaryOp.mul)
assign_op Tok.lasheq = some (some BinaryOp.div)
assign_op Tok.percenteq = some (some BinaryOp.mod_)
assign_op Tok.ampeq = some (some BinaryOp.band)
assign_op Tok.bareq = some (some BinaryOp.bor)
assign_op Tok.careteq = some (some BinaryOp.bxor)
assign_op Tok.shleq = some (some BinaryOp.shl)
assign_op Tok.shreq = some (some BinaryOp.shr)
assign_op _ = none

abbrev pub assign_node : Option BinaryOp → Target → Node → Node
assign_node none t e = Node.assign t e
assign_node (some op) t e = Node.assign_with op t e

abbrev pub assign_to : Option BinaryOp → Node → Node → State → Option Target → Node × State
assign_to op lhs rhs st none = (lhs, error (codes "invalid assignment target") st)
assign_to op lhs rhs st (some t) = (assign_node op t rhs, st)

abbrev pub assign_rest : Parse → Node → State → Option (Option BinaryOp) → Result
assign_rest assign lhs st none = some (lhs, st)
assign_rest assign lhs st (some op) =
    then_parse (assign (advance st)) (λ rhs st'. some (assign_to op lhs rhs st' (target_of lhs)))

unfoldable pub parse_assign : Parse → Parse → Parse
unfolding at advance cur error
parse_assign assign ternary st = then_parse (ternary st) (λ lhs st'.
    if at Tok.chan_arrow st'
    then then_parse (assign (advance st')) (λ rhs st2. some (Node.channel_send lhs rhs, st2))
    else assign_rest assign lhs st' (assign_op (cur st').kind))

unfoldable pub parse_range : Parse → Parse
unfolding at advance
parse_range assign st = then_parse (assign st) (λ lo st'.
    if at Tok.dotdot st' || at Tok.dotdoteq st'
    then then_parse (assign (advance st'))
        (λ hi st2. some (Node.range_lit (at Tok.dotdoteq st') lo hi, st2))
    else some (lo, st'))

abbrev pub inc_dec_to : Bool → Bool → Node → State → Option Target → Node × State
inc_dec_to is_inc is_post base st none =
    (base, error (codes "invalid increment/decrement target") st)
inc_dec_to is_inc is_post base st (some t) = (Node.inc_dec is_inc is_post t, st)

unfoldable pub make_inc_dec : Bool → Bool → Node → State → Node × State
unfolding error
make_inc_dec is_inc is_post base st = inc_dec_to is_inc is_post base st (target_of base)

-- The prefix operators.
abbrev pub prefix_op : Tok → Option (Node → Node)
prefix_op Tok.bang = some (Node.unary UnaryOp.not_)
prefix_op Tok.tilde = some (Node.unary UnaryOp.bnot)
prefix_op Tok.amp = some (Node.unary UnaryOp.addr)
prefix_op Tok.star = some (Node.unary UnaryOp.deref)
prefix_op Tok.minus = some (Node.unary UnaryOp.neg)
prefix_op Tok.chan_arrow = some Node.channel_recv
prefix_op _ = none

abbrev pub prefix_rest : Parse → Parse → State → Option (Node → Node) → Result
prefix_rest unary power st none =
    if at Tok.inc st || at Tok.dec st
    then then_parse (unary (advance st))
        (λ base st'. some (make_inc_dec (at Tok.inc st) false base st'))
    else power st
prefix_rest unary power st (some op) =
    then_parse (unary (advance st)) (λ base st'. some (op base, st'))

-- `unary` is the recursive call.
unfoldable pub parse_unary : Parse → Parse → Parse
unfolding at advance cur make_inc_dec
parse_unary unary power st = prefix_rest unary power st (prefix_op (cur st).kind)

unfoldable pub parse_power : Parse → Parse → Parse
unfolding at advance
parse_power unary postfix st = then_parse (postfix st) (λ base st'.
    if at Tok.pow st'
    then then_parse (unary (advance st')) (λ e st2. some (Node.power base e, st2))
    else some (base, st'))

module _ (parse_type : State → BType × State) where
  abbrev pub cast_turn : (Node → State → Result) → Node → State → Bool → Result
  cast_turn again e st false = some (e, st)
  cast_turn again e st true =
      let (target, st') = parse_type (advance st) in again (Node.cast e target) st'

  unfoldable pub cast_loop : ℕ → Node → State → Result
  unfolding at advance
  cast_loop zero e st = cast_turn no_fuel e st (at Tok.kw_as st)
  cast_loop (suc k) e st = cast_turn (cast_loop k) e st (at Tok.kw_as st)

  unfoldable pub parse_cast : Parse → ℕ → Parse
  unfolding cast_loop
  parse_cast unary n st = then_parse (unary st) (cast_loop n)

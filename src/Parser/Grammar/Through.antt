-- ===== src/Parser/Grammar/Through.antt =====
-- What a level of src/Parser.cpp does where nothing of its own follows.
use oxide_lang_reupload.Prelude.{
  ℕ, zero, suc, List, [], ◌∷◌, Option, ◌&&◌, &&_iff, Bool-cases, refl, inl, inr, arith,
}
use oxide_lang_reupload.Types.Base.{BType}
use oxide_lang_reupload.Lexer.Token.{Tok, Token}
use oxide_lang_reupload.Parser.Expr.{Calls}
use oxide_lang_reupload.Parser.State.{State, cur, at, first_token}
use oxide_lang_reupload.Parser.Node.{Node}
use oxide_lang_reupload.Parser.Levels.{
  Result, Parse, left_loop, cast_loop, parse_cast, assign_op, implies_ops, parse_unary, parse_power,
  parse_implies, parse_ternary, parse_assign, parse_range,
}
use oxide_lang_reupload.Parser.Grammar.{
  Level, range, assignment, conditional, implication, disjunction, cast, unary, power, postfix,
  stops, differs, is_none,
}
use oxide_lang_reupload.Parser.Grammar.Steps.{not_at, is_none-none, Starts}
use oxide_lang_reupload.Parser.Grammar.Loops.{
  parse_level, Quiet, Quiet-append, loop_start, loop_operation, loop_finish, loop_turn, loop_end,
}
use oxide_lang_reupload.Parser.Grammar.Loops

module _ (parse_type : State → BType × State) (try_type_args : State → Option (List BType × State))
    (other : Calls → ℕ → State → Result) (st : State) where
  abbrev level_parser : Level → ℕ → Parse
  level_parser = parse_level parse_type try_type_args other st

  abbrev Parses : Level → Node → List Token → Type 0
  Parses = Loops.Parses parse_type try_type_args other st

  abbrev Quiet' : List Token → Type 0
  Quiet' = Quiet parse_type try_type_args other st

  -- Where the next token goes on at no looser level, a level does what the tighter one does.
  pub tighter_range : (e : Node) (ts : List Token) → Parses assignment e ts → Parses range e ts
  unfolding parse_range at cur
  tighter_range e ts p zero rest l q h = ground arith
  tighter_range e ts p (suc n) rest l q h =
      let k = (first_token rest).kind in
      let (h1, h2) =
        (&&_iff (differs k Tok.dotdot && differs k Tok.dotdoteq) (stops assignment k)).0 h in
      let (a, b) = (&&_iff (differs k Tok.dotdot) (differs k Tok.dotdoteq)).0 h1 in
      rw (p (suc n) rest l q h2, not_at k Tok.dotdot a, not_at k Tok.dotdoteq b) refl

  pub tighter_assign :
      (e : Node) (ts : List Token) → Parses conditional e ts → Parses assignment e ts
  unfolding parse_assign at cur
  tighter_assign e ts p zero rest l q h = ground arith
  tighter_assign e ts p (suc n) rest l q h =
      let k = (first_token rest).kind in
      let (h1, h2) =
        (&&_iff (differs k Tok.chan_arrow && is_none (assign_op k)) (stops conditional k)).0 h in
      let (a, b) = (&&_iff (differs k Tok.chan_arrow) (is_none (assign_op k))).0 h1 in
      rw (p (suc n) rest l q h2, not_at k Tok.chan_arrow a, is_none-none (assign_op k) b) refl

  pub tighter_ternary :
      (e : Node) (ts : List Token) → Parses implication e ts → Parses conditional e ts
  unfolding parse_ternary at cur
  tighter_ternary e ts p zero rest l q h = ground arith
  tighter_ternary e ts p (suc n) rest l q h =
      let k = (first_token rest).kind in
      let (a, h1) = (&&_iff (differs k Tok.question) (stops implication k)).0 h in
      rw (p (suc n) rest l q h1, not_at k Tok.question a) refl

  pub tighter_implies :
      (e : Node) (ts : List Token) → Parses disjunction e ts → Parses implication e ts
  unfolding parse_implies left_loop cur
  tighter_implies e ts p zero rest l q h = ground arith
  tighter_implies e ts p (suc n) rest l q h =
      let k = (first_token rest).kind in
      let (a, h1) = (&&_iff (is_none (implies_ops k)) (stops disjunction k)).0 h in
      elim (Bool-cases st.in_spec) [
        | inl s ↦ rw (p (suc n) rest l q h1, s, is_none-none (implies_ops k) a) refl
        | inr s ↦ rw (p (suc n) rest l q h1, s) refl
      ]

  pub tighter_cast : (e : Node) (ts : List Token) → Parses unary e ts → Parses cast e ts
  unfolding parse_cast cast_loop at cur
  tighter_cast e ts p zero rest l q h = ground arith
  tighter_cast e ts p (suc n) rest l q h =
      let k = (first_token rest).kind in
      let (a, h1) = (&&_iff (differs k Tok.kw_as) (stops unary k)).0 h in
      rw (p (suc n) rest l q h1, not_at k Tok.kw_as a) refl

  pub tighter_unary :
      (ts : List Token) (e : Node) → Starts ts → Parses power e ts → Parses unary e ts
  unfolding parse_unary at cur
  tighter_unary ts e s p zero rest l q h = ground arith
  tighter_unary (t ∷ ts) e s p (suc n) rest l q h =
      let (a, b, c) = s in rw (a, b, c) (p (suc n) rest l q h)
  tighter_unary [] e s p (suc n) rest l q h = absurd (s tt)

  pub tighter_power : (e : Node) (ts : List Token) → Parses postfix e ts → Parses power e ts
  unfolding parse_power at cur
  tighter_power e ts p zero rest l q h = ground arith
  tighter_power e ts p (suc n) rest l q h =
      let k = (first_token rest).kind in
      let (a, h1) = (&&_iff (differs k Tok.pow) (stops postfix k)).0 h in
      rw (p (suc n) rest l q h1, not_at k Tok.pow a) refl

-- ===== src/Parser/Grammar.antt =====
-- The grammar of the expressions of src/Parser.cpp, with its levels of precedence, apart from the
-- parser.
pub mod Steps
pub mod Loops
pub mod Calls
pub mod Through
pub mod Operations
pub mod Primaries
pub mod Trails
pub mod Complete
use oxide_lang_reupload.Prelude.{
  ℕ, Text, codes, List, [], ◌∷◌, ◌++◌, Option, none, some, Bool, true, false, not, ◌&&◌, ◌==◌, ◌≡◌,
}
use oxide_lang_reupload.Lexer.Token.{Tok, Token}
use oxide_lang_reupload.Splitter.Expr.{UnaryOp, BinaryOp}
use oxide_lang_reupload.Parser.State.{tok_index}
use oxide_lang_reupload.Parser.Node.{Node, Target}
use oxide_lang_reupload.Parser.Levels.{
  Infixes, or_ops, and_ops, equality_ops, rel_ops, bit_or_ops, bit_xor_ops, bit_and_ops, shift_ops,
  add_ops, mul_ops, implies_ops, assign_op, assign_node, target_of,
}

-- Loosest first.
pub data Level : Type 0 where
  range assignment conditional implication disjunction conjunction equality relation : Level
  bit_or bit_xor bit_and shift sum product cast unary power postfix primary : Level

-- The left-associative levels: their operators, and the level of their operands.
pub data Chain : Level → Infixes → Level → Type 0 where
  or_chain : Chain disjunction or_ops conjunction
  and_chain : Chain conjunction and_ops equality
  equality_chain : Chain equality equality_ops relation
  rel_chain : Chain relation rel_ops bit_or
  bit_or_chain : Chain bit_or bit_or_ops bit_xor
  bit_xor_chain : Chain bit_xor bit_xor_ops bit_and
  bit_and_chain : Chain bit_and bit_and_ops shift
  shift_chain : Chain shift shift_ops sum
  sum_chain : Chain sum add_ops product
  product_chain : Chain product mul_ops cast

-- The other steps to a tighter level.
pub data Tighter : Level → Level → Type 0 where
  range_assign : Tighter range assignment
  assign_conditional : Tighter assignment conditional
  conditional_implies : Tighter conditional implication
  implies_or : Tighter implication disjunction
  cast_unary : Tighter cast unary
  unary_power : Tighter unary power
  power_postfix : Tighter power postfix
  postfix_primary : Tighter postfix primary

-- The infix operators of the left-associative levels.
pub data Infix : Level → Tok → (Node → Node → Node) → Type 0 where
  oror : Infix disjunction Tok.barbar (Node.binary BinaryOp.lor)
  andand : Infix conjunction Tok.ampamp (Node.binary BinaryOp.land)
  equal : Infix equality Tok.eqeq (Node.binary BinaryOp.eq)
  unequal : Infix equality Tok.bangeq (Node.binary BinaryOp.ne)
  less : Infix relation Tok.lt (Node.binary BinaryOp.lt)
  greater : Infix relation Tok.gt (Node.binary BinaryOp.gt)
  at_most : Infix relation Tok.lteq (Node.binary BinaryOp.le)
  at_least : Infix relation Tok.gteq (Node.binary BinaryOp.ge)
  bar : Infix bit_or Tok.bar (Node.binary BinaryOp.bor)
  caret : Infix bit_xor Tok.caret (Node.binary BinaryOp.bxor)
  ampersand : Infix bit_and Tok.amp (Node.binary BinaryOp.band)
  left_shift : Infix shift Tok.shl (Node.binary BinaryOp.shl)
  right_shift : Infix shift Tok.shr (Node.binary BinaryOp.shr)
  plus : Infix sum Tok.plus (Node.binary BinaryOp.add)
  minus : Infix sum Tok.minus (Node.binary BinaryOp.sub)
  star : Infix product Tok.star (Node.binary BinaryOp.mul)
  slash : Infix product Tok.slash (Node.binary BinaryOp.div)
  percent : Infix product Tok.percent (Node.binary BinaryOp.mod_)
  backslash : Infix product Tok.backslash Node.solve

pub data Prefix : Tok → (Node → Node) → Type 0 where
  bang : Prefix Tok.bang (Node.unary UnaryOp.not_)
  tilde : Prefix Tok.tilde (Node.unary UnaryOp.bnot)
  address : Prefix Tok.amp (Node.unary UnaryOp.addr)
  pointed : Prefix Tok.star (Node.unary UnaryOp.deref)
  negated : Prefix Tok.minus (Node.unary UnaryOp.neg)
  received : Prefix Tok.chan_arrow Node.channel_recv

pub data Assigning : Tok → Option BinaryOp → Type 0 where
  plainly : Assigning Tok.eq none
  adding : Assigning Tok.pluseq (some BinaryOp.add)
  subtracting : Assigning Tok.minuseq (some BinaryOp.sub)
  multiplying : Assigning Tok.stareq (some BinaryOp.mul)
  dividing : Assigning Tok.lasheq (some BinaryOp.div)
  reducing : Assigning Tok.percenteq (some BinaryOp.mod_)
  masking : Assigning Tok.ampeq (some BinaryOp.band)
  joining : Assigning Tok.bareq (some BinaryOp.bor)
  flipping : Assigning Tok.careteq (some BinaryOp.bxor)
  shifting_left : Assigning Tok.shleq (some BinaryOp.shl)
  shifting_right : Assigning Tok.shreq (some BinaryOp.shr)

-- Any token of the kind `k`.
abbrev pub of_kind : Tok → Token → Token
of_kind k t = record t { kind = k }

-- `Derives spec lv e ts`: at the level `lv`, the tokens `ts` are the expression `e`. `implies` is an
-- operator in a contract only (`spec`).
pub data Derives (spec : Bool) : Level → Node → List Token → Type 0 where
  operand :
      {lv lv' : Level} {ops : Infixes} {e : Node} {ts : List Token}
      → Chain lv ops lv'
      → Derives spec lv' e ts
      → Derives spec lv e ts
  tighter :
      {lv lv' : Level} {e : Node} {ts : List Token}
      → Tighter lv lv'
      → Derives spec lv' e ts
      → Derives spec lv e ts
  operation :
      {lv lv' : Level} {ops : Infixes} {k : Tok} {join : Node → Node → Node} {a b : Node}
      {ts us : List Token}
      → Chain lv ops lv'
      → Infix lv k join
      → (t : Token) → Derives spec lv a ts
      → Derives spec lv' b us
      → Derives spec lv (join a b) (ts ++ of_kind k t ∷ us)
  implied :
      {a b : Node} {ts us : List Token}
      → spec ≡ true
      → (t : Token) → Derives spec disjunction a ts
      → Derives spec implication b us
      → Derives spec implication
          (Node.binary BinaryOp.lor (Node.unary UnaryOp.not_ a) b)
          (ts ++ of_kind Tok.kw_implies t ∷ us)
  choice :
      {c a b : Node} {ts us vs : List Token}
      → (t u : Token) → Derives spec implication c ts
      → Derives spec assignment a us
      → Derives spec assignment b vs
      → Derives spec assignment
          (Node.ternary c a b)
          (ts ++ of_kind Tok.question t ∷ us ++ of_kind Tok.colon u ∷ vs)
  assigned :
      {k : Tok} {op : Option BinaryOp} {a b : Node} {g : Target} {ts us : List Token}
      → Assigning k op
      → target_of a ≡ some g
      → (t : Token) → Derives spec conditional a ts
      → Derives spec assignment b us
      → Derives spec assignment (assign_node op g b) (ts ++ of_kind k t ∷ us)
  sent :
      {a b : Node} {ts us : List Token}
      → (t : Token) → Derives spec conditional a ts
      → Derives spec assignment b us
      → Derives spec assignment (Node.channel_send a b) (ts ++ of_kind Tok.chan_arrow t ∷ us)
  up_to :
      {a b : Node} {ts us : List Token}
      → (t : Token) → Derives spec assignment a ts
      → Derives spec assignment b us
      → Derives spec range (Node.range_lit false a b) (ts ++ of_kind Tok.dotdot t ∷ us)
  up_to_and_with :
      {a b : Node} {ts us : List Token}
      → (t : Token) → Derives spec assignment a ts
      → Derives spec assignment b us
      → Derives spec range (Node.range_lit true a b) (ts ++ of_kind Tok.dotdoteq t ∷ us)
  prefixed :
      {k : Tok} {f : Node → Node} {e : Node} {ts : List Token}
      → Prefix k f
      → (t : Token) → Derives spec unary e ts
      → Derives spec unary (f e) (of_kind k t ∷ ts)
  raised :
      {a b : Node} {ts us : List Token}
      → (t : Token) → Derives spec postfix a ts
      → Derives spec unary b us
      → Derives spec power (Node.power a b) (ts ++ of_kind Tok.pow t ∷ us)
  indexed :
      {a b : Node} {ts us : List Token}
      → (t u : Token) → Derives spec postfix a ts
      → Derives spec range b us
      → Derives spec postfix
          (Node.index a b)
          (ts ++ of_kind Tok.lbracket t ∷ us ++ of_kind Tok.rbracket u ∷ [])
  selected :
      {a : Node} {ts : List Token}
      → (t u : Token) → Derives spec postfix a ts
      → Derives spec postfix
          (Node.field a u.text)
          (ts ++ of_kind Tok.dot t ∷ of_kind Tok.ident u ∷ [])
  parenthesised :
      {e : Node} {ts : List Token}
      → (t u : Token) → Derives spec range e ts
      → Derives spec primary e (of_kind Tok.lparen t ∷ ts ++ of_kind Tok.rparen u ∷ [])
  name : (t : Token) → Derives spec primary (Node.var_ref t.text) (of_kind Tok.ident t ∷ [])
  number : (t : Token) → Derives spec primary (Node.int_lit t.u64) (of_kind Tok.int_lit t ∷ [])
  string : (t : Token) → Derives spec primary (Node.str_lit t.text) (of_kind Tok.str_lit t ∷ [])
  truth : (t : Token) → Derives spec primary (Node.bool_lit true) (of_kind Tok.kw_true t ∷ [])
  falsity : (t : Token) → Derives spec primary (Node.bool_lit false) (of_kind Tok.kw_false t ∷ [])

abbrev pub is_none {ℓ} : {A : Type ℓ} → Option A → Bool
is_none none = true
is_none (some a) = false

abbrev pub differs : Tok → Tok → Bool
differs a b = not (tok_index a == tok_index b)

abbrev pub is_postfix : Tok → Bool
is_postfix Tok.lbracket = true
is_postfix Tok.dot = true
is_postfix Tok.lparen = true
is_postfix Tok.math_sym = true
is_postfix Tok.kw_pow2 = true
is_postfix Tok.kw_pow3 = true
is_postfix Tok.inc = true
is_postfix Tok.dec = true
is_postfix _ = false

abbrev primary_stops : Tok → Bool
primary_stops k = differs k Tok.lparen && differs k Tok.coloncolon && differs k Tok.lbrace

abbrev postfix_stops : Tok → Bool
postfix_stops k = not (is_postfix k) && primary_stops k

abbrev power_stops : Tok → Bool
power_stops k = differs k Tok.pow && postfix_stops k

abbrev unary_stops : Tok → Bool
unary_stops k = power_stops k

abbrev cast_stops : Tok → Bool
cast_stops k = differs k Tok.kw_as && unary_stops k

abbrev product_stops : Tok → Bool
product_stops k = is_none (mul_ops k) && cast_stops k

abbrev sum_stops : Tok → Bool
sum_stops k = is_none (add_ops k) && product_stops k

abbrev shift_stops : Tok → Bool
shift_stops k = is_none (shift_ops k) && sum_stops k

abbrev bit_and_stops : Tok → Bool
bit_and_stops k = is_none (bit_and_ops k) && shift_stops k

abbrev bit_xor_stops : Tok → Bool
bit_xor_stops k = is_none (bit_xor_ops k) && bit_and_stops k

abbrev bit_or_stops : Tok → Bool
bit_or_stops k = is_none (bit_or_ops k) && bit_xor_stops k

abbrev relation_stops : Tok → Bool
relation_stops k = is_none (rel_ops k) && bit_or_stops k

abbrev equality_stops : Tok → Bool
equality_stops k = is_none (equality_ops k) && relation_stops k

abbrev conjunction_stops : Tok → Bool
conjunction_stops k = is_none (and_ops k) && equality_stops k

abbrev disjunction_stops : Tok → Bool
disjunction_stops k = is_none (or_ops k) && conjunction_stops k

abbrev implication_stops : Tok → Bool
implication_stops k = is_none (implies_ops k) && disjunction_stops k

abbrev conditional_stops : Tok → Bool
conditional_stops k = differs k Tok.question && implication_stops k

abbrev assignment_stops : Tok → Bool
assignment_stops k = differs k Tok.chan_arrow && is_none (assign_op k) && conditional_stops k

abbrev range_stops : Tok → Bool
range_stops k = differs k Tok.dotdot && differs k Tok.dotdoteq && assignment_stops k

-- A token of the kind ends an expression of the level: no loop of the level or below goes on there.
abbrev pub stops : Level → Tok → Bool
stops primary = primary_stops
stops postfix = postfix_stops
stops power = power_stops
stops unary = unary_stops
stops cast = cast_stops
stops product = product_stops
stops sum = sum_stops
stops shift = shift_stops
stops bit_and = bit_and_stops
stops bit_xor = bit_xor_stops
stops bit_or = bit_or_stops
stops relation = relation_stops
stops equality = equality_stops
stops conjunction = conjunction_stops
stops disjunction = disjunction_stops
stops implication = implication_stops
stops conditional = conditional_stops
stops assignment = assignment_stops
stops range = range_stops

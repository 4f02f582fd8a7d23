-- ===== src/Parser/Grammar/Steps.antt =====
-- How each step of the grammar is parsed, one lemma for each kind of loop or branch.
use oxide_lang_reupload.Prelude.{
  List, [], ◌∷◌, ◌++◌, Option, none, some, Bool, true, false, ◌&&◌, &&_iff, ◌==◌, ◌≡◌, refl, sym,
  ◌∙◌, arith,
}
use oxide_lang_reupload.Lexer.Token.{Tok, Token}
use oxide_lang_reupload.Parser.State.{State, first_token, tok_index}
use oxide_lang_reupload.Parser.Node.{Node}
use oxide_lang_reupload.Parser.Levels.{
  Infixes, prefix_op, or_ops, and_ops, equality_ops, rel_ops, bit_or_ops, bit_xor_ops, bit_and_ops,
  shift_ops, add_ops, mul_ops,
}
use oxide_lang_reupload.Parser.Grammar.{
  Level, Infix, Chain, Tighter, Derives, of_kind, stops, is_none, differs,
}

-- The state before the tokens.
abbrev pub before : State → List Token → State
before st ts = record st { toks = ts }

-- The next token ends an expression of the level.
abbrev pub Ends : Level → List Token → Type 0
Ends lv rest = stops lv (first_token rest).kind ≡ true

pub left : (a b : Bool) → (a && b) ≡ true → a ≡ true
left a b h = ((&&_iff a b).0 h).0

pub right : (a b : Bool) → (a && b) ≡ true → b ≡ true
right a b h = ((&&_iff a b).0 h).1

-- A token of another kind.
pub not_at : (a b : Tok) → differs a b ≡ true → (tok_index a == tok_index b) ≡ false
not_at a b h = ground arith

pub is_none-none {ℓ} : {A : Type ℓ} (o : Option A) → is_none o ≡ true → o ≡ none
is_none-none none h = refl
is_none-none (some a) h = ground arith

-- A token of a level's operators ends an operand, and is read as the operator.
pub Infix-joins :
    {lv lv' : Level} {ops : Infixes} {k : Tok} {join : Node → Node → Node}
    → Chain lv ops lv'
    → Infix lv k join
    → (ops k ≡ some join) × (stops lv' k ≡ true)
Infix-joins Chain.or_chain Infix.oror = (refl, refl)
Infix-joins Chain.and_chain Infix.andand = (refl, refl)
Infix-joins Chain.equality_chain Infix.equal = (refl, refl)
Infix-joins Chain.equality_chain Infix.unequal = (refl, refl)
Infix-joins Chain.rel_chain Infix.less = (refl, refl)
Infix-joins Chain.rel_chain Infix.greater = (refl, refl)
Infix-joins Chain.rel_chain Infix.at_most = (refl, refl)
Infix-joins Chain.rel_chain Infix.at_least = (refl, refl)
Infix-joins Chain.bit_or_chain Infix.bar = (refl, refl)
Infix-joins Chain.bit_xor_chain Infix.caret = (refl, refl)
Infix-joins Chain.bit_and_chain Infix.ampersand = (refl, refl)
Infix-joins Chain.shift_chain Infix.left_shift = (refl, refl)
Infix-joins Chain.shift_chain Infix.right_shift = (refl, refl)
Infix-joins Chain.sum_chain Infix.plus = (refl, refl)
Infix-joins Chain.sum_chain Infix.minus = (refl, refl)
Infix-joins Chain.product_chain Infix.star = (refl, refl)
Infix-joins Chain.product_chain Infix.slash = (refl, refl)
Infix-joins Chain.product_chain Infix.percent = (refl, refl)
Infix-joins Chain.product_chain Infix.backslash = (refl, refl)

-- Where a left-associative level ends, its operands end, and no operator follows.
pub Chain-ends :
    {lv lv' : Level} {ops : Infixes}
    → Chain lv ops lv'
    → (k : Tok) → stops lv k ≡ true
    → (ops k ≡ none) × (stops lv' k ≡ true)
Chain-ends Chain.or_chain k h =
    (is_none-none (or_ops k) (left (is_none (or_ops k)) _ h), right (is_none (or_ops k)) _ h)
Chain-ends Chain.and_chain k h =
    (is_none-none (and_ops k) (left (is_none (and_ops k)) _ h), right (is_none (and_ops k)) _ h)
Chain-ends Chain.equality_chain k h = (
  is_none-none (equality_ops k) (left (is_none (equality_ops k)) _ h),
  right (is_none (equality_ops k)) _ h,
)
Chain-ends Chain.rel_chain k h =
    (is_none-none (rel_ops k) (left (is_none (rel_ops k)) _ h), right (is_none (rel_ops k)) _ h)
Chain-ends Chain.bit_or_chain k h = (
  is_none-none (bit_or_ops k) (left (is_none (bit_or_ops k)) _ h),
  right (is_none (bit_or_ops k)) _ h,
)
Chain-ends Chain.bit_xor_chain k h = (
  is_none-none (bit_xor_ops k) (left (is_none (bit_xor_ops k)) _ h),
  right (is_none (bit_xor_ops k)) _ h,
)
Chain-ends Chain.bit_and_chain k h = (
  is_none-none (bit_and_ops k) (left (is_none (bit_and_ops k)) _ h),
  right (is_none (bit_and_ops k)) _ h,
)
Chain-ends Chain.shift_chain k h = (
  is_none-none (shift_ops k) (left (is_none (shift_ops k)) _ h),
  right (is_none (shift_ops k)) _ h,
)
Chain-ends Chain.sum_chain k h =
    (is_none-none (add_ops k) (left (is_none (add_ops k)) _ h), right (is_none (add_ops k)) _ h)
Chain-ends Chain.product_chain k h =
    (is_none-none (mul_ops k) (left (is_none (mul_ops k)) _ h), right (is_none (mul_ops k)) _ h)

pub unequal_bools : ¬ (false ≡ true)
unequal_bools h = ground arith

-- The levels that are left-associative.
abbrev pub chained : Level → Bool
chained Level.disjunction = true
chained Level.conjunction = true
chained Level.equality = true
chained Level.relation = true
chained Level.bit_or = true
chained Level.bit_xor = true
chained Level.bit_and = true
chained Level.shift = true
chained Level.sum = true
chained Level.product = true
chained _ = false

pub Chain-chained : {lv lv' : Level} {ops : Infixes} → Chain lv ops lv' → chained lv ≡ true
Chain-chained Chain.or_chain = refl
Chain-chained Chain.and_chain = refl
Chain-chained Chain.equality_chain = refl
Chain-chained Chain.rel_chain = refl
Chain-chained Chain.bit_or_chain = refl
Chain-chained Chain.bit_xor_chain = refl
Chain-chained Chain.bit_and_chain = refl
Chain-chained Chain.shift_chain = refl
Chain-chained Chain.sum_chain = refl
Chain-chained Chain.product_chain = refl

pub Tighter-chained : {lv lv' : Level} → Tighter lv lv' → chained lv ≡ false
Tighter-chained Tighter.range_assign = refl
Tighter-chained Tighter.assign_conditional = refl
Tighter-chained Tighter.conditional_implies = refl
Tighter-chained Tighter.implies_or = refl
Tighter-chained Tighter.cast_unary = refl
Tighter-chained Tighter.unary_power = refl
Tighter-chained Tighter.power_postfix = refl
Tighter-chained Tighter.postfix_primary = refl

-- The first token is no prefix operator.
abbrev pub Starts : List Token → Type 0
Starts [] = ¬ Unit
Starts (t ∷ ts) =
    (prefix_op t.kind ≡ none)
    × ((tok_index t.kind == tok_index Tok.inc) ≡ false)
    × ((tok_index t.kind == tok_index Tok.dec) ≡ false)

Starts-append : (ts us : List Token) → Starts ts → Starts (ts ++ us)
Starts-append [] us s = absurd (s tt)
Starts-append (t ∷ ts) us s = s

-- The levels below the prefix operators.
abbrev low : Level → Bool
low Level.power = true
low Level.postfix = true
low Level.primary = true
low _ = false

Chain-low : {lv lv' : Level} {ops : Infixes} → Chain lv ops lv' → low lv ≡ false
Chain-low Chain.or_chain = refl
Chain-low Chain.and_chain = refl
Chain-low Chain.equality_chain = refl
Chain-low Chain.rel_chain = refl
Chain-low Chain.bit_or_chain = refl
Chain-low Chain.bit_xor_chain = refl
Chain-low Chain.bit_and_chain = refl
Chain-low Chain.shift_chain = refl
Chain-low Chain.sum_chain = refl
Chain-low Chain.product_chain = refl

pub Derives-Starts :
    {spec : Bool} {lv : Level} {e : Node} {ts : List Token}
    → Derives spec lv e ts
    → low lv ≡ true
    → Starts ts
Derives-Starts (Derives.operand c d) h = absurd (unequal_bools (sym (Chain-low c) ∙ h))
Derives-Starts (Derives.operation c i t d d') h = absurd (unequal_bools (sym (Chain-low c) ∙ h))
Derives-Starts (Derives.tighter Tighter.range_assign d) h = absurd (unequal_bools h)
Derives-Starts (Derives.tighter Tighter.assign_conditional d) h = absurd (unequal_bools h)
Derives-Starts (Derives.tighter Tighter.conditional_implies d) h = absurd (unequal_bools h)
Derives-Starts (Derives.tighter Tighter.implies_or d) h = absurd (unequal_bools h)
Derives-Starts (Derives.tighter Tighter.cast_unary d) h = absurd (unequal_bools h)
Derives-Starts (Derives.tighter Tighter.unary_power d) h = absurd (unequal_bools h)
Derives-Starts (Derives.tighter Tighter.power_postfix d) h = Derives-Starts d refl
Derives-Starts (Derives.tighter Tighter.postfix_primary d) h = Derives-Starts d refl
Derives-Starts (Derives.raised {ts = ts} {us = us} t d d') h =
    Starts-append ts (of_kind Tok.pow t ∷ us) (Derives-Starts d refl)
Derives-Starts (Derives.indexed {ts = ts} {us = us} t u d d') h =
    Starts-append (ts ++ of_kind Tok.lbracket t ∷ us) (of_kind Tok.rbracket u ∷ [])
      (Starts-append ts (of_kind Tok.lbracket t ∷ us) (Derives-Starts d refl))
Derives-Starts (Derives.selected {ts = ts} t u d) h =
    Starts-append ts (of_kind Tok.dot t ∷ of_kind Tok.ident u ∷ []) (Derives-Starts d refl)
Derives-Starts (Derives.parenthesised t u d) h = (refl, refl, refl)
Derives-Starts (Derives.name t) h = (refl, refl, refl)
Derives-Starts (Derives.number t) h = (refl, refl, refl)
Derives-Starts (Derives.string t) h = (refl, refl, refl)
Derives-Starts (Derives.truth t) h = (refl, refl, refl)
Derives-Starts (Derives.falsity t) h = (refl, refl, refl)
Derives-Starts (Derives.implied s t x y) h = absurd (unequal_bools h)
Derives-Starts (Derives.choice t u x y z) h = absurd (unequal_bools h)
Derives-Starts (Derives.assigned i w t x y) h = absurd (unequal_bools h)
Derives-Starts (Derives.sent t x y) h = absurd (unequal_bools h)
Derives-Starts (Derives.up_to t x y) h = absurd (unequal_bools h)
Derives-Starts (Derives.up_to_and_with t x y) h = absurd (unequal_bools h)
Derives-Starts (Derives.prefixed i t x) h = absurd (unequal_bools h)

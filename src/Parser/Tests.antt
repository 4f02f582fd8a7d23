-- ===== src/Parser/Tests.antt =====
-- The properties of the parser at a concrete sentence, `mask & 255 == 0`.
use oxide_lang_reupload.Prelude.{
  ℕ, suc, Text, codes, List, [], ◌∷◌, ◌++◌, Option, none, some, true, false, if◌then◌else◌, ◌≡◌,
  refl, arith,
}
use oxide_lang_reupload.Types.Base.{BType, plain, i64}
use oxide_lang_reupload.Lexer.Token.{Tok, Token}
use oxide_lang_reupload.Splitter.Expr.{BinaryOp}
use oxide_lang_reupload.Parser.State.{State, at, advance}
use oxide_lang_reupload.Parser.Node.{Node}
use oxide_lang_reupload.Parser.Levels.{Result}
use oxide_lang_reupload.Parser.Expr.{Calls, parse_expr}
use oxide_lang_reupload.Parser.Grammar.{
  Level, Chain, Tighter, Infix, Derives, of_kind, operand, tighter, operation, name, number,
}
use oxide_lang_reupload.Parser.Grammar.Steps.{before}
use oxide_lang_reupload.Parser.Grammar.Complete.{parse_expr-Derives}
use oxide_lang_reupload.Parser.Total.{
  size, Returns, IsTotal, returned, Returns_le, if-Returns, at-advance,
}
use oxide_lang_reupload.Parser.Total.Expr.{AreTotal, parse_expr-Returns}

abbrev token : Text → ℕ → Token
token s n = record {
  kind = Tok.end;
  text = s;
  u64 = n;
  f64 = [];
  line = 1;
  col = 1;
  is_f32 = false;
}

abbrev blank : Token
blank = token [] 0

abbrev zero_is : Node
zero_is =
    Node.binary BinaryOp.eq
      (Node.binary BinaryOp.band (Node.var_ref (codes "mask")) (Node.int_lit 255)) (Node.int_lit 0)

abbrev masked : List Token
masked =
    of_kind Tok.ident (token (codes "mask") 0)
    ∷ of_kind Tok.amp blank
    ∷ of_kind Tok.int_lit (token [] 255)
    ∷ of_kind Tok.eqeq blank
    ∷ of_kind Tok.int_lit (token [] 0)
    ∷ []

to_shift :
    {e : Node} {ts : List Token} → Derives false Level.primary e ts → Derives false Level.shift e ts
to_shift d = operand Chain.shift_chain (
    operand Chain.sum_chain (
      operand Chain.product_chain (
        tighter Tighter.cast_unary (
          tighter Tighter.unary_power
            (tighter Tighter.power_postfix (tighter Tighter.postfix_primary d))))))

to_relation :
    {e : Node} {ts : List Token}
    → Derives false Level.bit_and e ts
    → Derives false Level.relation e ts
to_relation d = operand Chain.rel_chain (operand Chain.bit_or_chain (operand Chain.bit_xor_chain d))

masked-Derives : Derives false Level.range zero_is masked
masked-Derives = tighter Tighter.range_assign (
    tighter Tighter.assign_conditional (
      tighter Tighter.conditional_implies (
        tighter Tighter.implies_or (
          operand Chain.or_chain (
            operand Chain.and_chain (
              operation Chain.equality_chain Infix.equal blank
                (operand Chain.equality_chain (
                  to_relation (
                    operation Chain.bit_and_chain Infix.ampersand blank
                      (operand Chain.bit_and_chain (to_shift (name (token (codes "mask") 0))))
                      (to_shift (number (token [] 255))))))
                (to_relation (operand Chain.bit_and_chain (to_shift (number (token [] 0)))))))))))

abbrev any_type : State → BType × State
any_type st = (plain i64, st)

abbrev no_type_args : State → Option (List BType × State)
no_type_args st = none

abbrev no_other : Calls → ℕ → State → Result
no_other c n st = none

abbrev start : State
start = record { toks = []; errs = []; allow_struct_lit = true; in_spec = false }

abbrev semicolon : List Token
semicolon = of_kind Tok.semicolon blank ∷ []

parse_expr-Derives_example :
    parse_expr any_type no_type_args no_other 6 (before start (masked ++ semicolon))
    ≡ some (zero_is, before start semicolon)
parse_expr-Derives_example =
    parse_expr-Derives any_type no_type_args no_other start masked-Derives 6 semicolon (omega arith)
      (refl, (refl, (refl, (refl, (refl, (refl, tt)))))) refl

-- An arm that starts the parser of expressions again, behind a bracket.
abbrev bracket_other : Calls → ℕ → State → Result
bracket_other c n st = if at Tok.lbracket st then c.expr (advance st) else some (Node.absent, st)

bracket_other-IsTotal :
    (c : Calls) (n : ℕ) → AreTotal c n → IsTotal (bracket_other c (suc n)) (suc n)
bracket_other-IsTotal c n p st l =
    if-Returns (at Tok.lbracket st) (c.expr (advance st)) (some (Node.absent, st)) (size st)
      (λ h.
        let less = at-advance Tok.lbracket st refl h in
        Returns_le (c.expr (advance st)) (size (advance st)) (size st) (omega arith)
          (p.0 (advance st) (omega arith)))
      (λ h. returned Node.absent st (size st) (omega arith))

-- `( [ + ;`, which no expression starts with.
abbrev broken : State
broken =
    before start
      (of_kind Tok.lparen blank ∷ of_kind Tok.lbracket blank ∷ of_kind Tok.plus blank ∷ semicolon)

parse_expr-Returns_example : Returns (parse_expr any_type no_type_args bracket_other 5 broken) 4
parse_expr-Returns_example =
    parse_expr-Returns any_type no_type_args bracket_other (λ st. omega arith) (λ st. tt)
      bracket_other-IsTotal 5 broken (omega arith)

-- ===== src/Parser/Expr.antt =====
-- src/Parser.cpp, the expression parser tied together: each call of a parser that starts the chain
-- of levels again uses up one unit of fuel.
use oxide_lang_reupload.Prelude.{
  ℕ, zero, suc, ◌%◌, codes, List, Option, none, true, false, if◌then◌else◌,
}
use oxide_lang_reupload.Types.Base.{BType}
use oxide_lang_reupload.Lexer.Token.{Tok}
use oxide_lang_reupload.Parser.State.{State, cur, advance}
use oxide_lang_reupload.Parser.Node.{Node}
use oxide_lang_reupload.Parser.Levels.{
  Result, Parse, left_assoc, left_loop, or_ops, and_ops, equality_ops, rel_ops, bit_or_ops,
  bit_xor_ops, bit_and_ops, shift_ops, add_ops, mul_ops, parse_implies, parse_ternary, parse_assign,
  parse_range, parse_unary, parse_power, parse_cast,
}
use oxide_lang_reupload.Parser.Postfix.{parse_postfix}
use oxide_lang_reupload.Parser.Primary.{
  lit, parse_macro_call, parse_marker, parse_old, parse_paren, parse_sqrt, parse_integrate,
  parse_glyph, parse_nothing,
}
use oxide_lang_reupload.Parser.Primary.Typed.{parse_new, parse_new_map, parse_sizeof, parse_quant}
use oxide_lang_reupload.Parser.Primary.Names.{parse_named}

-- The parsers that an operand starts again.
pub record Calls : Type 0 where
  pub expr : Parse
  pub assign : Parse
  pub ternary : Parse
  pub add : Parse
  pub unary : Parse

-- `parseType` and `tryParseTypeArgs`, which finds no type arguments at `none`, and the arms of
-- `parsePrimary` that read statements or matrices: `fn`, `spawn`, `chan`, `asm` and `[`. These get the
-- parsers that they start again, and the fuel for their loops.
module _ (parse_type : State → BType × State) (try_type_args : State → Option (List BType × State))
    (other : Calls → ℕ → State → Result) where
  unfoldable pub parse_primary_by : Calls → ℕ → State → Tok → Result
  unfolding advance cur parse_macro_call parse_marker parse_old parse_paren parse_integrate
      parse_glyph parse_nothing parse_new parse_new_map parse_sizeof parse_quant parse_named
  parse_primary_by c n st Tok.int_lit = lit (Node.int_lit (cur st).u64) st
  parse_primary_by c n st Tok.kw_expand = parse_macro_call c.expr n (advance st)
  parse_primary_by c n st Tok.dollar = parse_marker (advance st)
  parse_primary_by c n st Tok.float_lit = lit (Node.float_lit (cur st).f64 (cur st).is_f32) st
  parse_primary_by c n st Tok.str_lit = lit (Node.str_lit (cur st).text) st
  parse_primary_by c n st Tok.char_lit = lit (Node.char_lit ((cur st).u64 % 256)) st
  parse_primary_by c n st Tok.kw_null = lit Node.null_lit st
  parse_primary_by c n st Tok.kw_fn = other c n st
  parse_primary_by c n st Tok.kw_sizeof = parse_sizeof parse_type (advance st)
  parse_primary_by c n st Tok.kw_spawn = other c n st
  parse_primary_by c n st Tok.kw_chan = other c n st
  parse_primary_by c n st Tok.kw_old =
      if st.in_spec then parse_old c.ternary (advance st) else parse_nothing st
  parse_primary_by c n st Tok.kw_forall =
      if st.in_spec
      then parse_quant parse_type c.assign c.ternary true (advance st)
      else parse_nothing st
  parse_primary_by c n st Tok.kw_exists =
      if st.in_spec
      then parse_quant parse_type c.assign c.ternary false (advance st)
      else parse_nothing st
  parse_primary_by c n st Tok.kw_asm = other c n st
  parse_primary_by c n st Tok.kw_self = lit (Node.var_ref (codes "self")) st
  parse_primary_by c n st Tok.kw_true = lit (Node.bool_lit true) st
  parse_primary_by c n st Tok.kw_false = lit (Node.bool_lit false) st
  parse_primary_by c n st Tok.lparen = parse_paren c.expr (advance st)
  parse_primary_by c n st Tok.kw_vec = parse_new parse_type Node.dyn_new (codes "vec") (advance st)
  parse_primary_by c n st Tok.kw_map =
      parse_new_map parse_type Node.map_new (codes "map") (advance st)
  parse_primary_by c n st Tok.kw_set = parse_new parse_type Node.set_new (codes "set") (advance st)
  parse_primary_by c n st Tok.kw_hmap =
      parse_new_map parse_type Node.hmap_new (codes "hmap") (advance st)
  parse_primary_by c n st Tok.kw_hset =
      parse_new parse_type Node.hset_new (codes "hset") (advance st)
  parse_primary_by c n st Tok.lbracket = other c n st
  parse_primary_by c n st Tok.math_sym = parse_glyph c.unary c.add st
  parse_primary_by c n st Tok.kw_pi = lit (Node.math_sym (codes "pi")) st
  parse_primary_by c n st Tok.kw_sqrt = parse_sqrt c.unary (advance st)
  parse_primary_by c n st Tok.kw_integrate = parse_integrate c.unary c.add (advance st)
  parse_primary_by c n st Tok.ident = parse_named try_type_args c.expr n st
  parse_primary_by c n st Tok.kw_print = parse_named try_type_args c.expr n st
  parse_primary_by c n st _ = parse_nothing st

  abbrev pub parse_primary : Calls → ℕ → Parse
  parse_primary c n st = parse_primary_by c n st (cur st).kind

  -- The levels above an operand, from the parser of unary expressions upwards.
  module _ (n : ℕ) (unary : Parse) where
    abbrev pub cast_level : Parse
    cast_level = parse_cast parse_type unary n

    abbrev pub mul_level : Parse
    mul_level = left_assoc mul_ops cast_level n

    abbrev pub add_level : Parse
    add_level = left_assoc add_ops mul_level n

    abbrev pub shift_level : Parse
    shift_level = left_assoc shift_ops add_level n

    abbrev pub bit_and_level : Parse
    bit_and_level = left_assoc bit_and_ops shift_level n

    abbrev pub bit_xor_level : Parse
    bit_xor_level = left_assoc bit_xor_ops bit_and_level n

    abbrev pub bit_or_level : Parse
    bit_or_level = left_assoc bit_or_ops bit_xor_level n

    abbrev pub rel_level : Parse
    rel_level = left_assoc rel_ops bit_or_level n

    abbrev pub equality_level : Parse
    equality_level = left_assoc equality_ops rel_level n

    abbrev pub and_level : Parse
    and_level = left_assoc and_ops equality_level n

    abbrev pub or_level : Parse
    or_level = left_assoc or_ops and_level n

  -- The parsers that use up fuel.
  pub record Parsers : Type 0 where
    pub implies : Parse
    pub calls : Calls

  abbrev pub spent_parser : Parse
  spent_parser st = none

  abbrev pub spent_parsers : Parsers
  spent_parsers = record {
    implies = spent_parser;
    calls = record {
      expr = spent_parser;
      assign = spent_parser;
      ternary = spent_parser;
      add = spent_parser;
      unary = spent_parser;
    };
  }

  -- One round of the chain, from the parsers of the round below.
  module _ (n : ℕ) (p : Parsers) where
    abbrev pub primary_level : Parse
    primary_level = parse_primary p.calls n

    abbrev pub postfix_level : Parse
    postfix_level = parse_postfix p.calls.expr primary_level n

    abbrev pub power_level : Parse
    power_level = parse_power p.calls.unary postfix_level

    abbrev pub unary_level : Parse
    unary_level = parse_unary p.calls.unary power_level

    abbrev pub implies_level : Parse
    implies_level = parse_implies p.implies (or_level n unary_level) n

    abbrev pub ternary_level : Parse
    ternary_level = parse_ternary p.calls.assign implies_level

    abbrev pub assign_level : Parse
    assign_level = parse_assign p.calls.assign ternary_level

    abbrev pub range_level : Parse
    range_level = parse_range assign_level

    abbrev pub next_parsers : Parsers
    next_parsers = record {
      implies = implies_level;
      calls = record {
        expr = range_level;
        assign = assign_level;
        ternary = ternary_level;
        add = add_level n unary_level;
        unary = unary_level;
      };
    }

  unfoldable pub parsers : ℕ → Parsers
  unfolding parse_primary_by cur parse_postfix parse_unary parse_power parse_cast left_loop
      parse_implies parse_ternary parse_assign parse_range
  parsers zero = spent_parsers
  parsers (suc n) = next_parsers (suc n) (parsers n)

  -- `parseExpr`.
  abbrev pub parse_expr : ℕ → Parse
  parse_expr n = (parsers n).calls.expr

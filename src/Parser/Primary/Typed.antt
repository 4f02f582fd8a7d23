-- ===== src/Parser/Primary/Typed.antt =====
-- src/Parser.cpp, the arms of `parsePrimary` that read types.
use oxide_lang_reupload.Prelude.{Text, codes, ◌++◌, some, Bool, true, false, not, if◌then◌else◌}
use oxide_lang_reupload.Types.Base.{BType, i64, plain}
use oxide_lang_reupload.Lexer.Token.{Tok}
use oxide_lang_reupload.Parser.State.{State, cur, advance, at, error, accept, expect}
use oxide_lang_reupload.Parser.Node.{Node}
use oxide_lang_reupload.Parser.Levels.{Result, Parse, then_parse}
use oxide_lang_reupload.Parser.Primary.{with_flags, parse_spec_expr}

module _ (parse_type : State → BType × State) where
  -- `vec`, `set`, `hset` behind the keyword.
  unfoldable pub parse_new : (BType → Node) → Text → State → Result
  unfolding expect
  parse_new make word st =
      let (ok1, st1) = expect Tok.lbracket (codes "'[' after '" ++ word ++ codes "'") st in
      let (elem, st2) = parse_type st1 in
      let (ok2, st3) = expect Tok.rbracket (codes "']'") st2 in some (make elem, st3)

  -- `map`, `hmap` behind the keyword.
  unfoldable pub parse_new_map : (BType → BType → Node) → Text → State → Result
  unfolding expect
  parse_new_map make word st =
      let (ok1, st1) = expect Tok.lbracket (codes "'[' after '" ++ word ++ codes "'") st in
      let (key, st2) = parse_type st1 in
      let (ok2, st3) =
        expect Tok.comma (codes "',' between key and value in " ++ word ++ codes "[K, V]") st2 in
      let (val, st4) = parse_type st3 in
      let (ok5, st5) = expect Tok.rbracket (codes "']'") st4 in some (make key val, st5)

  -- `sizeof(T)` behind the keyword.
  unfoldable pub parse_sizeof : State → Result
  unfolding expect
  parse_sizeof st =
      let (ok1, st1) = expect Tok.lparen (codes "'(' after 'sizeof'") st in
      let (target, st2) = parse_type st1 in
      let (ok2, st3) = expect Tok.rparen (codes "')' to close sizeof(...)") st2 in
      some (Node.size_of target, st3)

  -- The type of a binder, if there is one.
  abbrev pub binder_type : State → BType × State
  binder_type st = if at Tok.kw_in st then (plain i64, st) else parse_type st

  abbrev pub binder_colon : State → State
  binder_colon st =
      if at Tok.colon st
      then advance st
      else error (codes "expected ':' after quantifier binder") st

  abbrev pub range_dots : State → Bool × State
  range_dots st =
      let (inclusive, st1) = accept Tok.dotdoteq st in
      let (ok, st2) = expect Tok.dotdot (codes "'..' or '..=' in quantifier range") st1 in
      if inclusive then (true, st1) else (false, st2)

  -- `forall` and `exists` behind the keyword. The bounds are no contract expressions.
  unfoldable pub parse_quant : Parse → Parse → Bool → Parse
  unfolding at advance cur error accept expect parse_spec_expr
  parse_quant assign ternary all st =
      let binder = (cur st).text in
      let (ok1, st1) = expect Tok.ident (codes "quantifier binder name") st in
      let (type, st2) = binder_type (binder_colon st1) in
      let (ok3, st3) = expect Tok.kw_in (codes "'in' after quantifier binder") st2 in
      if not ok1
      then some (Node.bool_lit false, st1)
      else then_parse (assign (with_flags false false st3)) (λ lo st4.
        let (inclusive, st5) = range_dots st4 in
        then_parse (assign st5) (λ hi st6.
          let (ok7, st7) =
            expect Tok.kw_implies (codes "'implies' after quantifier range")
              (with_flags st3.allow_struct_lit st3.in_spec st6) in
          then_parse (parse_spec_expr ternary st7)
            (λ body st8. some (Node.quant all binder type lo hi inclusive body, st8))))

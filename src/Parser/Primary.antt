-- ===== src/Parser/Primary.antt =====
-- src/Parser.cpp, `parsePrimary` and `parseSpecExpr`.
pub mod Typed
pub mod Names
use oxide_lang_reupload.Prelude.{
  ℕ, zero, suc, Text, codes, text_eq, List, [], ◌∷◌, ◌++◌, Option, none, some, Bool, true, false,
  not, ◌||◌, ◌&&◌, if◌then◌else◌,
}
use oxide_lang_reupload.Types.Base.{BType, i64, plain}
use oxide_lang_reupload.Lexer.Token.{Tok}
use oxide_lang_reupload.Parser.State.{State, cur, advance, at, error, accept, expect}
use oxide_lang_reupload.Parser.Node.{Node, Nodes, no_nodes, node}
use oxide_lang_reupload.Parser.Levels.{Result, Parse, then_parse}
use oxide_lang_reupload.Parser.Postfix.{then_args, parse_args}

-- A literal, one token long.
abbrev pub lit : Node → State → Result
lit e st = some (e, advance st)

abbrev pub zero_lit : State → Result
zero_lit st = some (Node.int_lit 0, st)

-- `saved` is put back into the flags.
abbrev pub with_flags : Bool → Bool → State → State
with_flags struct_lit spec st = record st { allow_struct_lit = struct_lit; in_spec = spec }

-- A contract clause: `ternary` is `parseTernary`.
unfoldable pub parse_spec_expr : Parse → Parse
parse_spec_expr ternary st =
    then_parse (ternary (with_flags false true st))
      (λ e st'. some (e, with_flags st.allow_struct_lit st.in_spec st'))

-- The names and values of the fields of a struct literal, up to its `}`.
abbrev pub Fields : Type 0
Fields = Option (List Text × Nodes × State)

abbrev pub then_fields : Fields → (List Text → Nodes → State → Result) → Result
then_fields none k = none
then_fields (some (names, es, st)) k = k names es st

abbrev pub add_field : Text → Node → Fields → Fields
add_field name e none = none
add_field name e (some (names, es, st)) = some (name ∷ names, node e es, st)

abbrev pub fields_turn : (State → Fields) → Parse → State → Fields
fields_turn again expr st =
    let name = (cur st).text in
    let (ok1, st1) = expect Tok.ident (codes "field name") st in
    let (ok2, st2) = expect Tok.colon (codes "':' in struct literal") st1 in
    if at Tok.rbrace st || at Tok.end st
    then some ([], no_nodes, st)
    else if not ok1
    then some ([], no_nodes, st1)
    else if not ok2
    then some (name ∷ [], no_nodes, st2)
    else elim (expr st2) [
      | none ↦ none
      | some (e, st3) ↦
          if at Tok.comma st3
          then add_field name e (again (advance st3))
          else some (name ∷ [], node e no_nodes, st3)
    ]

abbrev pub no_fields : State → Fields
no_fields st = none

unfoldable pub fields_loop : Parse → ℕ → State → Fields
unfolding at advance cur expect
fields_loop expr zero = fields_turn no_fields expr
fields_loop expr (suc k) = fields_turn (fields_loop expr k) expr

-- A struct literal behind its `{`.
unfoldable pub parse_struct_lit : Parse → ℕ → Text → List BType → Bool → Parse
unfolding fields_loop expect
parse_struct_lit expr n name targs has st = then_fields (fields_loop expr n st) (λ names es st'.
    let (ok, st2) = expect Tok.rbrace (codes "'}'") st' in
    some (Node.struct_lit name targs has names es, st2))

-- `expand name(args)` behind the keyword.
unfoldable pub parse_macro_call : Parse → ℕ → Parse
unfolding at advance cur expect parse_args
parse_macro_call expr n st =
    let name = (cur st).text in
    let (ok1, st1) = expect Tok.ident (codes "macro name after 'expand'") st in
    let (ok2, st2) = expect Tok.lparen (codes "'(' after macro name in expand") st1 in
    if not ok1
    then zero_lit st1
    else if not ok2
    then zero_lit st2
    else then_args (parse_args expr n (codes "')' to close expand(...)") st2)
        (λ es st3. some (Node.macro_call name es, st3))

-- `$name` behind the dollar.
unfoldable pub parse_marker : State → Result
unfolding cur expect
parse_marker st =
    let name = (cur st).text in
    let (ok, st') = expect Tok.ident (codes "identifier after '$' in macro parameter marker") st in
    if ok then some (Node.var_ref (codes "$" ++ name), st') else zero_lit st'

-- `old(e)` behind the keyword.
unfoldable pub parse_old : Parse → Parse
unfolding parse_spec_expr expect
parse_old ternary st =
    let (ok1, st1) = expect Tok.lparen (codes "'(' after 'old'") st in
    then_parse (parse_spec_expr ternary st1) (λ e st2.
      let (ok2, st3) = expect Tok.rparen (codes "')' to close old(...)") st2 in
      some (Node.old e, st3))

-- `(e)` behind the parenthesis.
unfoldable pub parse_paren : Parse → Parse
unfolding expect
parse_paren expr st =
    then_parse (expr st)
      (λ e st'. let (ok, st2) = expect Tok.rparen (codes "')'") st' in some (e, st2))

-- `√ e`, `sqrt e` behind the glyph or the keyword.
abbrev pub parse_sqrt : Parse → Parse
parse_sqrt unary st =
    then_parse (unary st) (λ e st'. some (Node.call (codes "sqrt") [] false (node e no_nodes), st'))

abbrev pub at_word : Text → State → Bool
at_word w st = at Tok.ident st && text_eq (cur st).text w

-- `∫ e from a to b` behind the glyph: it gives up at a missing word.
unfoldable pub parse_integral : Parse → Parse → Parse
unfolding at advance cur error
parse_integral unary add st = then_parse (unary st) (λ body st1.
    if at_word (codes "from") st1
    then then_parse (add (advance st1)) (λ lo st2.
      if at_word (codes "to") st2
      then then_parse (add (advance st2)) (λ hi st3. some (Node.integrate body lo hi, st3))
      else some (
        Node.integrate body lo Node.absent,
        error (codes "expected 'to' after integral lower bound") st2,
      ))
    else some (body, error (codes "expected 'from' after integral body") st1))

abbrev pub word_or_error : Text → Text → State → State
word_or_error w msg st = if at_word w st then advance st else error msg st

-- `integrate e from a to b` behind the keyword: it goes on without a missing word.
unfoldable pub parse_integrate : Parse → Parse → Parse
unfolding at advance cur error
parse_integrate unary add st = then_parse (unary st) (λ body st1.
    then_parse
      (add (word_or_error (codes "from") (codes "expected 'from' after integrate body") st1))
      (λ lo st2.
        then_parse
          (add (word_or_error (codes "to") (codes "expected 'to' after integrate lower bound") st2))
          (λ hi st3. some (Node.integrate body lo hi, st3))))

abbrev pub pi_sign : Text
pi_sign = 207 ∷ 128 ∷ []

abbrev pub sqrt_sign : Text
sqrt_sign = 226 ∷ 136 ∷ 154 ∷ []

abbrev pub integral_sign : Text
integral_sign = 226 ∷ 136 ∷ 171 ∷ []

-- A glyph at the start of an expression.
unfoldable pub parse_glyph : Parse → Parse → Parse
unfolding advance cur parse_integral
parse_glyph unary add st =
    let tx = (cur st).text in
    if text_eq tx pi_sign
    then lit (Node.math_sym (codes "pi")) st
    else if text_eq tx sqrt_sign
    then parse_sqrt unary (advance st)
    else if text_eq tx integral_sign
    then parse_integral unary add (advance st)
    else lit (Node.math_sym tx) st

-- No expression starts here: an error, and one token is passed over.
unfoldable pub parse_nothing : State → Result
unfolding advance cur error
parse_nothing st = some (
  Node.int_lit 0,
  advance (error (codes "expected an expression but got '" ++ (cur st).text ++ codes "'") st),
)

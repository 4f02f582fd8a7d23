-- ===== src/Parser/Primary/Names.antt =====
-- src/Parser.cpp, the arms of `parsePrimary` that start with a name.
use oxide_lang_reupload.Prelude.{
  ℕ, Text, codes, text_eq, List, [], Option, none, some, Bool, true, false, not, ◌&&◌,
  if◌then◌else◌,
}
use oxide_lang_reupload.Types.Base.{BType}
use oxide_lang_reupload.Lexer.Token.{Tok}
use oxide_lang_reupload.Parser.State.{State, cur, advance, at, expect}
use oxide_lang_reupload.Parser.Node.{Node}
use oxide_lang_reupload.Parser.Levels.{Result, Parse}
use oxide_lang_reupload.Parser.Postfix.{then_args, parse_args}
use oxide_lang_reupload.Parser.Primary.{zero_lit, parse_struct_lit}

-- An associated call behind `name::`.
unfoldable pub parse_assoc : Parse → ℕ → Text → Parse
unfolding cur expect parse_args
parse_assoc expr n name st =
    let callee = (cur st).text in
    let (ok1, st1) = expect Tok.ident (codes "method name after '::'") st in
    let (ok2, st2) = expect Tok.lparen (codes "'(' for associated function call") st1 in
    if not ok1
    then zero_lit st1
    else if not ok2
    then zero_lit st2
    else then_args (parse_args expr n (codes "')'") st2)
        (λ es st3. some (Node.assoc_call name callee es, st3))

abbrev pub parse_call : Parse → ℕ → Text → List BType → Bool → Parse
parse_call expr n name targs has st =
    then_args (parse_args expr n (codes "')'") st)
      (λ es st'. some (Node.call name targs has es, st'))

-- Behind `name<...>`.
abbrev pub named_generic : Parse → ℕ → Text → List BType → Parse
named_generic expr n name targs st =
    if at Tok.lparen st
    then parse_call expr n name targs true (advance st)
    else if st.allow_struct_lit && at Tok.lbrace st
    then parse_struct_lit expr n name targs true (advance st)
    else some (Node.var_ref name, st)

-- Behind a name without type arguments.
abbrev pub named_plain : Parse → ℕ → Text → Parse
named_plain expr n name st =
    let is_print = text_eq name (codes "print") in
    if at Tok.coloncolon st && not is_print
    then parse_assoc expr n name (advance st)
    else if st.allow_struct_lit && at Tok.lbrace st && not is_print
    then parse_struct_lit expr n name [] false (advance st)
    else if at Tok.lparen st
    then parse_call expr n name [] false (advance st)
    else some (Node.var_ref name, st)

abbrev pub named_by : Parse → ℕ → Text → State → Option (List BType × State) → Result
named_by expr n name st none = named_plain expr n name st
named_by expr n name st (some (targs, st')) = named_generic expr n name targs st'

module _ (try_type_args : State → Option (List BType × State)) where
  -- An expression that starts with a name.
  unfoldable pub parse_named : Parse → ℕ → Parse
  unfolding at advance cur parse_args parse_assoc parse_struct_lit
  parse_named expr n st =
      let name = (cur st).text in
      let st' = advance st in
      if not (text_eq name (codes "print")) && at Tok.lt st'
      then named_by expr n name st' (try_type_args st')
      else named_plain expr n name st'

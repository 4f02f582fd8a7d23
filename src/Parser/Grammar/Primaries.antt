-- ===== src/Parser/Grammar/Primaries.antt =====
-- How the literals, names and parentheses of the grammar are parsed.
use oxide_lang_reupload.Prelude.{
  ℕ, zero, suc, codes, text_eq, length-append, List, [], ◌∷◌, ◌++◌, append_assoc, Option, none,
  Bool, true, false, not, ◌&&◌, &&_iff, ◌==◌, if◌then◌else◌, Bool-cases, ◌≡◌, refl, subst, inl, inr,
  arith,
}
use oxide_lang_reupload.Types.Base.{BType}
use oxide_lang_reupload.Lexer.Token.{Tok, Token}
use oxide_lang_reupload.Parser.State.{State, cur, advance, at, expect, first_token, tok_index}
use oxide_lang_reupload.Parser.Node.{Node}
use oxide_lang_reupload.Parser.Levels.{Result, Parse}
use oxide_lang_reupload.Parser.Primary.{parse_paren}
use oxide_lang_reupload.Parser.Primary.Names.{parse_named}
use oxide_lang_reupload.Parser.Expr.{Calls, parse_primary_by}
use oxide_lang_reupload.Parser.Grammar.{Level, range, primary, of_kind, differs}
use oxide_lang_reupload.Parser.Grammar.Steps.{before, not_at}
use oxide_lang_reupload.Parser.Grammar.Loops.{
  parse_level, Quiet, Quiet-append, loop_start, loop_operation, loop_finish, loop_turn, loop_end,
}
use oxide_lang_reupload.Parser.Grammar.Loops
use oxide_lang_reupload.Parser.Grammar.Calls.{expr_call}

module _ (parse_type : State → BType × State) (try_type_args : State → Option (List BType × State))
    (other : Calls → ℕ → State → Result) (st : State) where
  abbrev level_parser : Level → ℕ → Parse
  level_parser = parse_level parse_type try_type_args other st

  abbrev Parses : Level → Node → List Token → Type 0
  Parses = Loops.Parses parse_type try_type_args other st

  abbrev Quiet' : List Token → Type 0
  Quiet' = Quiet parse_type try_type_args other st

  pub number_step : (t : Token) → Parses primary (Node.int_lit t.u64) (of_kind Tok.int_lit t ∷ [])
  unfolding parse_primary_by cur advance
  number_step t zero rest l q h = ground arith
  number_step t (suc n) rest l q h = refl

  pub string_step : (t : Token) → Parses primary (Node.str_lit t.text) (of_kind Tok.str_lit t ∷ [])
  unfolding parse_primary_by cur advance
  string_step t zero rest l q h = ground arith
  string_step t (suc n) rest l q h = refl

  pub truth_step : (t : Token) → Parses primary (Node.bool_lit true) (of_kind Tok.kw_true t ∷ [])
  unfolding parse_primary_by cur advance
  truth_step t zero rest l q h = ground arith
  truth_step t (suc n) rest l q h = refl

  pub falsity_step :
      (t : Token) → Parses primary (Node.bool_lit false) (of_kind Tok.kw_false t ∷ [])
  unfolding parse_primary_by cur advance
  falsity_step t zero rest l q h = ground arith
  falsity_step t (suc n) rest l q h = refl

  no_type_args :
      (rest : List Token)
      → Quiet' rest
      → (tok_index (first_token rest).kind == tok_index Tok.lt) ≡ true
      → try_type_args (before st rest) ≡ none
  no_type_args [] q h = ground arith
  no_type_args (t ∷ rest) q h = q.0

  never_both : (a b : Bool) (x y : Result) → (if a && false && b then x else y) ≡ y
  never_both true b x y = refl
  never_both false b x y = refl

  pub name_step : (t : Token) → Parses primary (Node.var_ref t.text) (of_kind Tok.ident t ∷ [])
  unfolding parse_primary_by cur advance parse_named at
  name_step t zero rest l q h = ground arith
  name_step t (suc n) rest l q h =
      let k = (first_token rest).kind in
      let (h1, c) =
        (&&_iff (differs k Tok.lparen && differs k Tok.coloncolon) (differs k Tok.lbrace)).0 h in
      let (a, b) = (&&_iff (differs k Tok.lparen) (differs k Tok.coloncolon)).0 h1 in
      let lt_test = not (text_eq t.text (codes "print")) && (tok_index k == tok_index Tok.lt) in
      elim (Bool-cases lt_test) [
        | inl e ↦
            let lt =
              ((&&_iff (not (text_eq t.text (codes "print"))) (tok_index k == tok_index Tok.lt)).0
                e).1 in
            rw
              (
                e,
                no_type_args rest q.1 lt,
                not_at k Tok.coloncolon b,
                not_at k Tok.lbrace c,
                not_at k Tok.lparen a,
              )
              (never_both st.allow_struct_lit (not (text_eq t.text (codes "print"))) _ _)
        | inr e ↦
            rw (e, not_at k Tok.coloncolon b, not_at k Tok.lbrace c, not_at k Tok.lparen a)
              (never_both st.allow_struct_lit (not (text_eq t.text (codes "print"))) _ _)
      ]

  pub paren_step :
      (e : Node) (ts : List Token) (t u : Token)
      → Parses range e ts
      → Parses primary e (of_kind Tok.lparen t ∷ ts ++ of_kind Tok.rparen u ∷ [])
  unfolding parse_primary_by cur advance parse_paren expect at
  paren_step e ts t u p zero rest l q h = ground arith
  paren_step e ts t u p (suc n) rest l q h =
      let size = length-append ts (of_kind Tok.rparen u ∷ []) in
      let assoc = append_assoc ts (of_kind Tok.rparen u ∷ []) rest in
      rw
        (
          expr_call parse_type try_type_args other st n,
          assoc,
          p n (of_kind Tok.rparen u ∷ rest) (omega arith) (subst Quiet' assoc q.1) refl,
        )
        refl

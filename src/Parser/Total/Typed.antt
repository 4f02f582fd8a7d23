-- ===== src/Parser/Total/Typed.antt =====
-- The arms of `parsePrimary` that read types or start with a name return.
use oxide_lang_reupload.Prelude.{
  ℕ, ◌≤◌, ◌<◌, Text, codes, text_eq, List, [], ◌++◌, Option, none, some, Bool, true, false, not,
  ◌&&◌, Bool-cases, inl, inr, arith,
}
use oxide_lang_reupload.Types.Base.{BType}
use oxide_lang_reupload.Lexer.Token.{Tok}
use oxide_lang_reupload.Parser.State.{State, cur, advance, at, error, accept, expect}
use oxide_lang_reupload.Parser.Node.{Node}
use oxide_lang_reupload.Parser.Levels.{Parse}
use oxide_lang_reupload.Parser.Primary.{with_flags, parse_spec_expr}
use oxide_lang_reupload.Parser.Primary.Typed.{
  parse_new, parse_new_map, parse_sizeof, binder_type, binder_colon, range_dots, parse_quant,
}
use oxide_lang_reupload.Parser.Primary.Names.{named_generic, named_plain, named_by, parse_named}
use oxide_lang_reupload.Parser.Total.{
  size, Returns, IsTotal, returned, then-Returns, if-Returns, advance_le, expect_le,
}
use oxide_lang_reupload.Parser.Total.Primary.{
  called, parse_spec_expr-Returns, parse_struct_lit-Returns, parse_args-Returns,
  parse_assoc-Returns,
}

module _ (parse_type : State → BType × State)
    (shorter : (st : State) → size (parse_type st).1 ≤ size st) where
  pub parse_new-Returns :
      (make : BType → Node) (word : Text) (st : State) (m : ℕ)
      → size st ≤ m
      → Returns (parse_new parse_type make word st) m
  unfolding parse_new
  parse_new-Returns make word st m h =
      let open_word = codes "'[' after '" ++ word ++ codes "'" in
      let st1 = (expect Tok.lbracket open_word st).1 in
      let st2 = (parse_type st1).1 in
      returned (make (parse_type st1).0) (expect Tok.rbracket (codes "']'") st2).1 m (
        omega (
          arith,
          expect_le Tok.lbracket open_word st,
          shorter st1,
          expect_le Tok.rbracket (codes "']'") st2,
        ))

  pub parse_new_map-Returns :
      (make : BType → BType → Node) (word : Text) (st : State) (m : ℕ)
      → size st ≤ m
      → Returns (parse_new_map parse_type make word st) m
  unfolding parse_new_map
  parse_new_map-Returns make word st m h =
      let open_word = codes "'[' after '" ++ word ++ codes "'" in
      let comma_word = codes "',' between key and value in " ++ word ++ codes "[K, V]" in
      let st1 = (expect Tok.lbracket open_word st).1 in
      let st2 = (parse_type st1).1 in
      let st3 = (expect Tok.comma comma_word st2).1 in
      let st4 = (parse_type st3).1 in
      returned (make (parse_type st1).0 (parse_type st3).0)
        (expect Tok.rbracket (codes "']'") st4).1 m
        (omega (
          arith,
          expect_le Tok.lbracket open_word st,
          shorter st1,
          expect_le Tok.comma comma_word st2,
          shorter st3,
          expect_le Tok.rbracket (codes "']'") st4,
        ))

  pub parse_sizeof-Returns :
      (st : State) (m : ℕ) → size st ≤ m → Returns (parse_sizeof parse_type st) m
  unfolding parse_sizeof
  parse_sizeof-Returns st m h =
      let st1 = (expect Tok.lparen (codes "'(' after 'sizeof'") st).1 in
      let st2 = (parse_type st1).1 in
      returned (Node.size_of (parse_type st1).0)
        (expect Tok.rparen (codes "')' to close sizeof(...)") st2).1 m
        (omega (
          arith,
          expect_le Tok.lparen (codes "'(' after 'sizeof'") st,
          shorter st1,
          expect_le Tok.rparen (codes "')' to close sizeof(...)") st2,
        ))

  binder_type_le : (st : State) → size (binder_type parse_type st).1 ≤ size st
  binder_type_le st = elim (Bool-cases (at Tok.kw_in st)) [
    | inl h ↦ rw h (omega arith)
    | inr h ↦ rw h (shorter st)
  ]

  binder_colon_le : (st : State) → size (binder_colon parse_type st) ≤ size st
  unfolding error
  binder_colon_le st = elim (Bool-cases (at Tok.colon st)) [
    | inl h ↦ rw h (advance_le st)
    | inr h ↦ rw h (omega arith)
  ]

  range_dots_le : (st : State) → size (range_dots parse_type st).1 ≤ size st
  unfolding accept
  range_dots_le st = elim (Bool-cases (at Tok.dotdoteq st)) [
    | inl h ↦ rw h (advance_le st)
    | inr h ↦ rw h (expect_le Tok.dotdot (codes "'..' or '..=' in quantifier range") st)
  ]

  pub parse_quant-Returns :
      (assign ternary : Parse) (all : Bool) (n : ℕ) (st : State) (m : ℕ)
      → IsTotal assign n
      → IsTotal ternary n
      → size st < n
      → size st ≤ m
      → Returns (parse_quant parse_type assign ternary all st) m
  unfolding parse_quant
  parse_quant-Returns assign ternary all n st m a t l h =
      let (ok1, st1) = expect Tok.ident (codes "quantifier binder name") st in
      let le1 = expect_le Tok.ident (codes "quantifier binder name") st in
      let colon = binder_colon parse_type st1 in
      let le2 = binder_colon_le st1 in
      let (type, st2) = binder_type parse_type colon in
      let le3 = binder_type_le colon in
      let st3 = (expect Tok.kw_in (codes "'in' after quantifier binder") st2).1 in
      let le4 = expect_le Tok.kw_in (codes "'in' after quantifier binder") st2 in
      if-Returns (not ok1) _ _ m (λ x. returned (Node.bool_lit false) st1 m (omega arith))
        (λ x.
          then-Returns (assign (with_flags false false st3)) _ (size st) m
            (called assign n (with_flags false false st3) (size st) a (omega arith) (omega arith))
            (λ lo st4 l4.
              let le5 = range_dots_le st4 in
              then-Returns (assign (range_dots parse_type st4).1) _ (size st) m
                (called assign n (range_dots parse_type st4).1 (size st) a (omega arith)
                  (omega arith))
                (λ hi st6 l6.
                  let back = with_flags st3.allow_struct_lit st3.in_spec st6 in
                  let st7 =
                    (expect Tok.kw_implies (codes "'implies' after quantifier range") back).1 in
                  let le7 =
                    expect_le Tok.kw_implies (codes "'implies' after quantifier range") back in
                  then-Returns (parse_spec_expr ternary st7) _ m m
                    (parse_spec_expr-Returns ternary n st7 m t (omega arith) (omega arith))
                    (λ body st8 l8.
                      returned
                        (Node.quant all (cur st).text type lo hi (range_dots parse_type st4).0 body)
                        st8 m l8))))

named_generic-Returns :
    (expr : Parse) (n k : ℕ) (name : Text) (targs : List BType) (st : State) (m : ℕ)
    → IsTotal expr n
    → size st ≤ k
    → size st < n
    → size st ≤ m
    → Returns (named_generic expr k name targs st) m
named_generic-Returns expr n k name targs st m p l l' h =
    let le = advance_le st in
    if-Returns (at Tok.lparen st) _ _ m
      (λ x.
        parse_args-Returns expr n k (codes "')'") (Node.call name targs true) (advance st) m p
          (omega arith) (omega arith) (omega arith))
      (λ x.
        if-Returns (st.allow_struct_lit && at Tok.lbrace st) _ _ m
          (λ y.
            parse_struct_lit-Returns expr n k name targs true (advance st) m p (omega arith)
              (omega arith) (omega arith))
          (λ y. returned (Node.var_ref name) st m h))

named_plain-Returns :
    (expr : Parse) (n k : ℕ) (name : Text) (st : State) (m : ℕ)
    → IsTotal expr n
    → size st ≤ k
    → size st < n
    → size st ≤ m
    → Returns (named_plain expr k name st) m
named_plain-Returns expr n k name st m p l l' h =
    let le = advance_le st in
    let is_print = text_eq name (codes "print") in
    if-Returns (at Tok.coloncolon st && not is_print) _ _ m
      (λ x.
        parse_assoc-Returns expr n k name (advance st) m p (omega arith) (omega arith)
          (omega arith))
      (λ x.
        if-Returns (st.allow_struct_lit && at Tok.lbrace st && not is_print) _ _ m
          (λ y.
            parse_struct_lit-Returns expr n k name [] false (advance st) m p (omega arith)
              (omega arith) (omega arith))
          (λ y.
            if-Returns (at Tok.lparen st) _ _ m
              (λ z.
                parse_args-Returns expr n k (codes "')'") (Node.call name [] false) (advance st) m p
                  (omega arith) (omega arith) (omega arith))
              (λ z. returned (Node.var_ref name) st m h)))

-- Type arguments that are read leave no more tokens.
abbrev pub Reading : Option (List BType × State) → ℕ → Type 0
Reading none m = Unit
Reading (some (targs, st)) m = size st ≤ m

named_by-Returns :
    (expr : Parse) (n k : ℕ) (name : Text) (st : State) (o : Option (List BType × State)) (m : ℕ)
    → IsTotal expr n
    → Reading o (size st)
    → size st ≤ k
    → size st < n
    → size st ≤ m
    → Returns (named_by expr k name st o) m
named_by-Returns expr n k name st none m p r l l' h =
    named_plain-Returns expr n k name st m p l l' h
named_by-Returns expr n k name st (some (targs, st')) m p r l l' h =
    named_generic-Returns expr n k name targs st' m p (omega arith) (omega arith) (omega arith)

pub parse_named-Returns :
    (try_type_args : State → Option (List BType × State))
    → ((st : State) → Reading (try_type_args st) (size st))
    → (expr : Parse) (n k : ℕ) (st : State) → IsTotal expr n
    → size st ≤ k
    → size (advance st) < n
    → Returns (parse_named try_type_args expr k st) (size st)
unfolding parse_named
parse_named-Returns try_type_args r expr n k st p l l' =
    let le = advance_le st in
    let name = (cur st).text in
    let st' = advance st in
    if-Returns (not (text_eq name (codes "print")) && at Tok.lt st') _ _ (size st)
      (λ x.
        named_by-Returns expr n k name st' (try_type_args st') (size st) p (r st') (omega arith) l'
          le)
      (λ x. named_plain-Returns expr n k name st' (size st) p (omega arith) l' le)

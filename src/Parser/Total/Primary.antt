-- ===== src/Parser/Total/Primary.antt =====
-- The arms of `parsePrimary` return.
use oxide_lang_reupload.Prelude.{
  ℕ, zero, suc, ◌≤◌, ◌<◌, Text, codes, List, [], ◌∷◌, some, Bool, true, false, not, ◌||◌,
  if◌then◌else◌, ◌≡◌, refl, sym, subst, arith,
}
use oxide_lang_reupload.Types.Base.{BType}
use oxide_lang_reupload.Lexer.Token.{Tok}
use oxide_lang_reupload.Parser.State.{State, cur, advance, at, expect}
use oxide_lang_reupload.Parser.Node.{Node, Nodes, no_nodes, node}
use oxide_lang_reupload.Parser.Levels.{Parse}
use oxide_lang_reupload.Parser.Postfix.{then_args, parse_args}
use oxide_lang_reupload.Parser.Primary.{
  with_flags, parse_spec_expr, Fields, add_field, fields_turn, no_fields, fields_loop,
  parse_struct_lit, parse_macro_call,
}
use oxide_lang_reupload.Parser.Primary.Names.{parse_assoc}
use oxide_lang_reupload.Parser.Total.{
  size, Returns, IsTotal, returned, then-Returns, Returns_le, if-Returns, at-advance, expect_le,
}
use oxide_lang_reupload.Parser.Total.Postfix.{parse_args-Lists, then_args-Returns}

pub called :
    (p : Parse) (n : ℕ) (st : State) (m : ℕ)
    → IsTotal p n
    → size st < n
    → size st ≤ m
    → Returns (p st) m
called p n st m t l h = Returns_le (p st) (size st) m h (t st l)

pub parse_spec_expr-Returns :
    (ternary : Parse) (n : ℕ) (st : State) (m : ℕ)
    → IsTotal ternary n
    → size st < n
    → size st ≤ m
    → Returns (parse_spec_expr ternary st) m
unfolding parse_spec_expr
parse_spec_expr-Returns ternary n st m t l h =
    then-Returns (ternary (with_flags false true st)) _ m m
      (called ternary n (with_flags false true st) m t l h)
      (λ e st' l'. (e, with_flags st.allow_struct_lit st.in_spec st', refl, l'))

-- The fields are read, with at most `m` tokens left.
abbrev Reads : Fields → ℕ → Type 0
Reads r m =
    (names : List Text) × (es : Nodes) × (st : State) × (r ≡ some (names, es, st)) × (size st ≤ m)

if-Reads :
    (b : Bool) (x y : Fields) (m : ℕ)
    → (b ≡ true → Reads x m)
    → (b ≡ false → Reads y m)
    → Reads (if b then x else y) m
if-Reads true x y m f g = f refl
if-Reads false x y m f g = g refl

add_field-Reads :
    (name : Text) (e : Node) (r : Fields) (m : ℕ) → Reads r m → Reads (add_field name e r) m
add_field-Reads name e r m (names, es, st, h, l) =
    subst (λ z. Reads (add_field name e z) m) (sym h) (name ∷ names, node e es, st, refl, l)

fields_turn-Reads :
    (expr : Parse) (n : ℕ) (loop : State → Fields) (st : State)
    → IsTotal expr n
    → size st < n
    → ((st' : State) → suc (size st') ≤ size st → Reads (loop st') (size st))
    → Reads (fields_turn loop expr st) (size st)
fields_turn-Reads expr n loop st p l f =
    let (ok1, st1) = expect Tok.ident (codes "field name") st in
    let (ok2, st2) = expect Tok.colon (codes "':' in struct literal") st1 in
    let le1 = expect_le Tok.ident (codes "field name") st in
    let le2 = expect_le Tok.colon (codes "':' in struct literal") st1 in
    let (e, st3, h, l3) = p st2 (omega arith) in
    let name = (cur st).text in
    if-Reads (at Tok.rbrace st || at Tok.end st) _ _ (size st)
      (λ a. ([], no_nodes, st, refl, omega arith))
      (λ a.
        if-Reads (not ok1) _ _ (size st) (λ b. ([], no_nodes, st1, refl, le1))
          (λ b.
            if-Reads (not ok2) _ _ (size st) (λ c. (name ∷ [], no_nodes, st2, refl, omega arith))
              (λ c. rw h (
                if-Reads (at Tok.comma st3) _ _ (size st)
                  (λ d.
                    add_field-Reads name e (loop (advance st3)) (size st)
                      (f (advance st3) (omega (arith, at-advance Tok.comma st3 refl d))))
                  (λ d. (name ∷ [], node e no_nodes, st3, refl, omega arith))))))

fields_loop-Reads :
    (expr : Parse) (n : ℕ)
    → IsTotal expr n
    → (k : ℕ) (st : State) → size st ≤ k
    → size st < n
    → Reads (fields_loop expr k st) (size st)
unfolding fields_loop
fields_loop-Reads expr n p zero st l m =
    fields_turn-Reads expr n no_fields st p m (λ st' h. absurd (omega arith))
fields_loop-Reads expr n p (suc k) st l m =
    fields_turn-Reads expr n (fields_loop expr k) st p m (λ st' h.
      let (names, es, st2, e, l') = fields_loop-Reads expr n p k st' (omega arith) (omega arith) in
      (names, es, st2, e, omega arith))

pub parse_struct_lit-Returns :
    (expr : Parse) (n k : ℕ) (name : Text) (targs : List BType) (has : Bool) (st : State) (m : ℕ)
    → IsTotal expr n
    → size st ≤ k
    → size st < n
    → size st ≤ m
    → Returns (parse_struct_lit expr k name targs has st) m
unfolding parse_struct_lit
parse_struct_lit-Returns expr n k name targs has st m p l l' h =
    let (names, es, st', e, small) = fields_loop-Reads expr n p k st l l' in
    rw e (
      Node.struct_lit name targs has names es,
      (expect Tok.rbrace (codes "'}'") st').1,
      refl,
      omega (arith, expect_le Tok.rbrace (codes "'}'") st'),
    )

pub parse_args-Returns :
    (expr : Parse) (n k : ℕ) (close : Text) (f : Nodes → Node) (st : State) (m : ℕ)
    → IsTotal expr n
    → size st ≤ k
    → size st < n
    → size st ≤ m
    → Returns (then_args (parse_args expr k close st) (λ es st'. some (f es, st'))) m
parse_args-Returns expr n k close f st m p l l' h =
    then_args-Returns (parse_args expr k close st) _ (size st) m
      (parse_args-Lists expr n p k close st l l')
      (λ es st' small. returned (f es) st' m (omega arith))

pub parse_macro_call-Returns :
    (expr : Parse) (n k : ℕ) (st : State) (m : ℕ)
    → IsTotal expr n
    → size st ≤ k
    → size st < n
    → size st ≤ m
    → Returns (parse_macro_call expr k st) m
unfolding parse_macro_call
parse_macro_call-Returns expr n k st m p l l' h =
    let (ok1, st1) = expect Tok.ident (codes "macro name after 'expand'") st in
    let (ok2, st2) = expect Tok.lparen (codes "'(' after macro name in expand") st1 in
    let le1 = expect_le Tok.ident (codes "macro name after 'expand'") st in
    let le2 = expect_le Tok.lparen (codes "'(' after macro name in expand") st1 in
    if-Returns (not ok1) _ _ m (λ a. returned (Node.int_lit 0) st1 m (omega arith))
      (λ a.
        if-Returns (not ok2) _ _ m (λ b. returned (Node.int_lit 0) st2 m (omega arith))
          (λ b.
            parse_args-Returns expr n k (codes "')' to close expand(...)")
              (Node.macro_call (cur st).text) st2 m p (omega arith) (omega arith) (omega arith)))

pub parse_assoc-Returns :
    (expr : Parse) (n k : ℕ) (name : Text) (st : State) (m : ℕ)
    → IsTotal expr n
    → size st ≤ k
    → size st < n
    → size st ≤ m
    → Returns (parse_assoc expr k name st) m
unfolding parse_assoc
parse_assoc-Returns expr n k name st m p l l' h =
    let (ok1, st1) = expect Tok.ident (codes "method name after '::'") st in
    let (ok2, st2) = expect Tok.lparen (codes "'(' for associated function call") st1 in
    let le1 = expect_le Tok.ident (codes "method name after '::'") st in
    let le2 = expect_le Tok.lparen (codes "'(' for associated function call") st1 in
    if-Returns (not ok1) _ _ m (λ a. returned (Node.int_lit 0) st1 m (omega arith))
      (λ a.
        if-Returns (not ok2) _ _ m (λ b. returned (Node.int_lit 0) st2 m (omega arith))
          (λ b.
            parse_args-Returns expr n k (codes "')'") (Node.assoc_call name (cur st).text) st2 m p
              (omega arith) (omega arith) (omega arith)))

-- ===== src/Parser/Total/Forms.antt =====
-- The other arms of `parsePrimary` return.
use oxide_lang_reupload.Prelude.{
  ℕ, ◌≤◌, ◌<◌, Text, codes, text_eq, [], ◌++◌, some, false, Bool-cases, refl, inl, inr, arith,
}
use oxide_lang_reupload.Lexer.Token.{Tok}
use oxide_lang_reupload.Parser.State.{State, cur, advance, error, expect}
use oxide_lang_reupload.Parser.Node.{Node, no_nodes, node}
use oxide_lang_reupload.Parser.Levels.{Result, Parse, then_parse}
use oxide_lang_reupload.Parser.Primary.{
  lit, parse_spec_expr, parse_marker, parse_old, parse_paren, parse_sqrt, at_word, parse_integral,
  word_or_error, parse_integrate, pi_sign, sqrt_sign, integral_sign, parse_glyph, parse_nothing,
}
use oxide_lang_reupload.Parser.Total.{
  size, Returns, IsTotal, returned, then-Returns, if-Returns, advance_le, expect_le,
}
use oxide_lang_reupload.Parser.Total.Primary.{called, parse_spec_expr-Returns}

pub parse_marker-Returns : (st : State) (m : ℕ) → size st ≤ m → Returns (parse_marker st) m
unfolding parse_marker
parse_marker-Returns st m h =
    let what = codes "identifier after '$' in macro parameter marker" in
    let (ok, st') = expect Tok.ident what st in
    let le = expect_le Tok.ident what st in
    if-Returns ok _ _ m
      (λ a. returned (Node.var_ref (codes "$" ++ (cur st).text)) st' m (omega arith))
      (λ a. returned (Node.int_lit 0) st' m (omega arith))

-- An expression up to a closing token.
closed-Returns :
    (r : Result) (k : Tok) (close : Text) (f : Node → Node) (m : ℕ)
    → Returns r m
    → Returns (then_parse r (λ e st. let (ok, st') = expect k close st in some (f e, st'))) m
closed-Returns r k close f m h =
    then-Returns r _ m m h
      (λ e st l. (f e, (expect k close st).1, refl, omega (arith, expect_le k close st)))

pub parse_old-Returns :
    (ternary : Parse) (n : ℕ) (st : State) (m : ℕ)
    → IsTotal ternary n
    → size st < n
    → size st ≤ m
    → Returns (parse_old ternary st) m
unfolding parse_old
parse_old-Returns ternary n st m t l h =
    let le = expect_le Tok.lparen (codes "'(' after 'old'") st in
    closed-Returns (parse_spec_expr ternary (expect Tok.lparen (codes "'(' after 'old'") st).1)
      Tok.rparen (codes "')' to close old(...)") (λ e. Node.old e) m
      (parse_spec_expr-Returns ternary n (expect Tok.lparen (codes "'(' after 'old'") st).1 m t
        (omega arith) (omega arith))

pub parse_paren-Returns :
    (expr : Parse) (n : ℕ) (st : State) (m : ℕ)
    → IsTotal expr n
    → size st < n
    → size st ≤ m
    → Returns (parse_paren expr st) m
unfolding parse_paren
parse_paren-Returns expr n st m t l h =
    closed-Returns (expr st) Tok.rparen (codes "')'") (λ e. e) m (called expr n st m t l h)

pub parse_sqrt-Returns :
    (unary : Parse) (n : ℕ) (st : State) (m : ℕ)
    → IsTotal unary n
    → size st < n
    → size st ≤ m
    → Returns (parse_sqrt unary st) m
parse_sqrt-Returns unary n st m t l h =
    then-Returns (unary st) _ m m (called unary n st m t l h)
      (λ e st' l'. returned (Node.call (codes "sqrt") [] false (node e no_nodes)) st' m l')

error_le : (msg : Text) (st : State) → size (error msg st) ≤ size st
unfolding error
error_le msg st = omega arith

parse_integral-Returns :
    (unary add : Parse) (n : ℕ) (st : State) (m : ℕ)
    → IsTotal unary n
    → IsTotal add n
    → size st < n
    → size st ≤ m
    → Returns (parse_integral unary add st) m
unfolding parse_integral
parse_integral-Returns unary add n st m t a l h =
    then-Returns (unary st) _ (size st) m (t st l) (λ body st1 l1.
      if-Returns (at_word (codes "from") st1) _ _ m
        (λ x.
          then-Returns (add (advance st1)) _ (size st) m
            (called add n (advance st1) (size st) a (omega (arith, advance_le st1))
              (omega (arith, advance_le st1)))
            (λ lo st2 l2.
              if-Returns (at_word (codes "to") st2) _ _ m
                (λ y.
                  then-Returns (add (advance st2)) _ (size st) m
                    (called add n (advance st2) (size st) a (omega (arith, advance_le st2))
                      (omega (arith, advance_le st2)))
                    (λ hi st3 l3. returned (Node.integrate body lo hi) st3 m (omega arith)))
                (λ y.
                  returned (Node.integrate body lo Node.absent)
                    (error (codes "expected 'to' after integral lower bound") st2) m
                    (omega
                      (arith, error_le (codes "expected 'to' after integral lower bound") st2)))))
        (λ x.
          returned body (error (codes "expected 'from' after integral body") st1) m
            (omega (arith, error_le (codes "expected 'from' after integral body") st1))))

word_or_error_le : (w msg : Text) (st : State) → size (word_or_error w msg st) ≤ size st
word_or_error_le w msg st = elim (Bool-cases (at_word w st)) [
  | inl h ↦ rw h (advance_le st)
  | inr h ↦ rw h (error_le msg st)
]

pub parse_integrate-Returns :
    (unary add : Parse) (n : ℕ) (st : State) (m : ℕ)
    → IsTotal unary n
    → IsTotal add n
    → size st < n
    → size st ≤ m
    → Returns (parse_integrate unary add st) m
unfolding parse_integrate
parse_integrate-Returns unary add n st m t a l h =
    then-Returns (unary st) _ (size st) m (t st l) (λ body st1 l1.
      let le1 =
        word_or_error_le (codes "from") (codes "expected 'from' after integrate body") st1 in
      then-Returns
        (add (word_or_error (codes "from") (codes "expected 'from' after integrate body") st1)) _
        (size st) m
        (called add n
          (word_or_error (codes "from") (codes "expected 'from' after integrate body") st1)
          (size st) a (omega arith) (omega arith))
        (λ lo st2 l2.
          let le2 =
            word_or_error_le (codes "to") (codes "expected 'to' after integrate lower bound") st2 in
          then-Returns
            (add
              (word_or_error (codes "to") (codes "expected 'to' after integrate lower bound") st2))
            _ (size st) m
            (called add n
              (word_or_error (codes "to") (codes "expected 'to' after integrate lower bound") st2)
              (size st) a (omega arith) (omega arith))
            (λ hi st3 l3. returned (Node.integrate body lo hi) st3 m (omega arith))))

pub lit-Returns : (e : Node) (st : State) → Returns (lit e st) (size st)
lit-Returns e st = returned e (advance st) (size st) (advance_le st)

pub parse_nothing-Returns : (st : State) → Returns (parse_nothing st) (size st)
unfolding parse_nothing
parse_nothing-Returns st =
    let msg = codes "expected an expression but got '" ++ (cur st).text ++ codes "'" in
    returned (Node.int_lit 0) (advance (error msg st)) (size st)
      (omega (arith, advance_le (error msg st), error_le msg st))

pub parse_glyph-Returns :
    (unary add : Parse) (n : ℕ) (st : State)
    → IsTotal unary n
    → IsTotal add n
    → size (advance st) < n
    → Returns (parse_glyph unary add st) (size st)
unfolding parse_glyph
parse_glyph-Returns unary add n st t a l =
    let tx = (cur st).text in
    if-Returns (text_eq tx pi_sign) _ _ (size st) (λ h. lit-Returns (Node.math_sym (codes "pi")) st)
      (λ h.
        if-Returns (text_eq tx sqrt_sign) _ _ (size st)
          (λ h. parse_sqrt-Returns unary n (advance st) (size st) t l (advance_le st))
          (λ h.
            if-Returns (text_eq tx integral_sign) _ _ (size st)
              (λ h. parse_integral-Returns unary add n (advance st) (size st) t a l (advance_le st))
              (λ h. lit-Returns (Node.math_sym tx) st)))

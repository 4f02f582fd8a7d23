-- ===== src/Lexer/Lex/Symbols.antt =====
-- The lengths of the operators of src/Lexer.cpp.
use oxide_lang_reupload.Prelude.{
  ℕ, ◌≤◌, Bool, true, false, Option, none, some, arith, if◌then◌else◌,
}
use oxide_lang_reupload.Lexer.Token.{Tok}
use oxide_lang_reupload.Lexer.Operators.{operator, operator_tail}

abbrev pub HasLength : Option (Tok × ℕ) → Type 0
HasLength none = Unit
HasLength (some (k, n)) = 1 ≤ n

if_rule :
    (b : Bool) (x y : Option (Tok × ℕ)) → HasLength x → HasLength y → HasLength (if b then x else y)
if_rule true x y h k = h
if_rule false x y h k = k

operator_tail-HasLength : (c n m : ℕ) → HasLength (operator_tail c n m)
unfolding operator_tail
operator_tail-HasLength c n m = ground arith

pub operator-HasLength : (c n m : ℕ) → HasLength (operator c n m)
unfolding operator
operator-HasLength c n m = ground arith

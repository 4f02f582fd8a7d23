-- ===== src/Parser/Grammar/Calls.antt =====
-- The parsers that start the chain of levels again.
use oxide_lang_reupload.Prelude.{ℕ, zero, suc, List, Option, ◌≡◌, refl}
use oxide_lang_reupload.Types.Base.{BType}
use oxide_lang_reupload.Parser.State.{State}
use oxide_lang_reupload.Parser.Levels.{Result, Parse}
use oxide_lang_reupload.Parser.Expr.{Calls, parsers}
use oxide_lang_reupload.Parser.Grammar.{Level, range, assignment, implication, unary}
use oxide_lang_reupload.Parser.Grammar.Loops.{parse_level}

module _ (parse_type : State → BType × State) (try_type_args : State → Option (List BType × State))
    (other : Calls → ℕ → State → Result) (st : State) where
  abbrev level_parser : Level → ℕ → Parse
  level_parser = parse_level parse_type try_type_args other st

  -- The parser below in the chain, when a call starts it again.
  pub unary_call :
      (n : ℕ) → (parsers parse_type try_type_args other n).calls.unary ≡ level_parser unary n
  unfolding parsers
  unary_call zero = refl
  unary_call (suc n) = refl

  pub assign_call :
      (n : ℕ) → (parsers parse_type try_type_args other n).calls.assign ≡ level_parser assignment n
  unfolding parsers
  assign_call zero = refl
  assign_call (suc n) = refl

  pub expr_call :
      (n : ℕ) → (parsers parse_type try_type_args other n).calls.expr ≡ level_parser range n
  unfolding parsers
  expr_call zero = refl
  expr_call (suc n) = refl

  pub implies_call :
      (n : ℕ) → (parsers parse_type try_type_args other n).implies ≡ level_parser implication n
  unfolding parsers
  implies_call zero = refl
  implies_call (suc n) = refl

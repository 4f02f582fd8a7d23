-- ===== src/Lexer/Token.antt =====
-- src/Lexer.h: tokens and errors.
use oxide_lang_reupload.Prelude.{ℕ, Text, Bool}

pub data Tok : Type 0 where
  end ident int_lit float_lit str_lit char_lit kw_let kw_mut kw_fn kw_return kw_if : Tok
  kw_else kw_while kw_for kw_break kw_continue kw_in kw_true kw_false kw_as kw_const : Tok
  kw_enum kw_match kw_null kw_extern kw_export kw_typedef kw_impl kw_self kw_private : Tok
  kw_sizeof kw_asm kw_virtual kw_override kw_defer kw_atomic kw_unsafe kw_spawn kw_sync : Tok
  kw_chan kw_send kw_recv kw_noninterference kw_cycle_preserves kw_concept kw_where : Tok
  kw_requires kw_ensures kw_invariant kw_assert kw_old kw_implies kw_forall kw_exists : Tok
  kw_decreases kw_ghost kw_region kw_spec kw_refines kw_implements kw_modifies : Tok
  kw_effects kw_lemma kw_preserves kw_axiom kw_trusted kw_source kw_trap kw_handler : Tok
  kw_discharge kw_instantiate kw_on kw_proof kw_that kw_by kw_induction kw_base kw_step : Tok
  kw_assume kw_prove kw_calc kw_macro kw_expand kw_bitfield kw_bit kw_bits kw_i64 kw_f64 : Tok
  kw_bool kw_void kw_print kw_struct kw_str kw_vec kw_map kw_set kw_hmap kw_hset kw_char : Tok
  kw_i8 kw_i16 kw_i32 kw_u8 kw_u16 kw_u32 kw_u64 kw_usize kw_f32 plus minus star slash : Tok
  percent eq eqeq bang bangeq lt gt lteq gteq ampamp barbar amp bar caret tilde shl shr : Tok
  pluseq minuseq stareq lasheq percenteq ampeq bareq careteq shleq shreq inc dec : Tok
  question lparen rparen lbrace rbrace lbracket rbracket dot comma semicolon colon arrow : Tok
  dotdot dotdoteq coloncolon fatarrow dollar chan_arrow pow backslash math_sym kw_pi : Tok
  kw_integrate kw_sqrt kw_pow2 kw_pow3 err : Tok

-- `f64` holds the numeral that `std::stod` reads, in place of the double.
pub record Token : Type 0 where
  pub kind : Tok
  pub text : Text
  pub u64 : ℕ
  pub f64 : Text
  pub line : ℕ
  pub col : ℕ
  pub is_f32 : Bool

pub record LexError : Type 0 where
  pub msg : Text
  pub line : ℕ
  pub col : ℕ

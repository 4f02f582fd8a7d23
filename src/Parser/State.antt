-- ===== src/Parser/State.antt =====
-- src/Parser.h, the state of `Parser`, and its token helpers in src/Parser.cpp.
use oxide_lang_reupload.Prelude.{
  ℕ, Text, codes, List, [], ◌∷◌, ◌++◌, Bool, true, false, ◌==◌, if◌then◌else◌,
}
use oxide_lang_reupload.Lexer.Token.{Tok, Token}

pub record ParseError : Type 0 where
  pub msg : Text
  pub line : ℕ
  pub col : ℕ

-- `toks` is `toks_` from `p_` on. The source does not test `p_`: behind the vector's end its reads are
-- undefined. Here tokens may follow those of the vector in `toks`, for whatever such a read finds, so
-- that a theorem on all `toks` covers each finite run of them.
pub record State : Type 0 where
  pub toks : List Token
  pub errs : List ParseError
  pub allow_struct_lit : Bool
  pub in_spec : Bool

-- What is read where `toks` holds no more. The source has no such token: its vector ends with an
-- `end` token, and a run that passes over that reads behind the vector.
abbrev pub end_token : Token
end_token = record {
  kind = Tok.end;
  text = [];
  u64 = 0;
  f64 = [];
  line = 0;
  col = 0;
  is_f32 = false;
}

abbrev pub first_token : List Token → Token
first_token [] = end_token
first_token (t ∷ ts) = t

abbrev pub other_tokens : List Token → List Token
other_tokens [] = []
other_tokens (t ∷ ts) = ts

unfoldable pub cur : State → Token
cur st = first_token st.toks

-- `p_++`.
unfoldable pub advance : State → State
advance st = record st { toks = other_tokens st.toks }

-- The value of the enumerator.
abbrev pub tok_index : Tok → ℕ
tok_index Tok.end = 0
tok_index Tok.ident = 1
tok_index Tok.int_lit = 2
tok_index Tok.float_lit = 3
tok_index Tok.str_lit = 4
tok_index Tok.char_lit = 5
tok_index Tok.kw_let = 6
tok_index Tok.kw_mut = 7
tok_index Tok.kw_fn = 8
tok_index Tok.kw_return = 9
tok_index Tok.kw_if = 10
tok_index Tok.kw_else = 11
tok_index Tok.kw_while = 12
tok_index Tok.kw_for = 13
tok_index Tok.kw_break = 14
tok_index Tok.kw_continue = 15
tok_index Tok.kw_in = 16
tok_index Tok.kw_true = 17
tok_index Tok.kw_false = 18
tok_index Tok.kw_as = 19
tok_index Tok.kw_const = 20
tok_index Tok.kw_enum = 21
tok_index Tok.kw_match = 22
tok_index Tok.kw_null = 23
tok_index Tok.kw_extern = 24
tok_index Tok.kw_export = 25
tok_index Tok.kw_typedef = 26
tok_index Tok.kw_impl = 27
tok_index Tok.kw_self = 28
tok_index Tok.kw_private = 29
tok_index Tok.kw_sizeof = 30
tok_index Tok.kw_asm = 31
tok_index Tok.kw_virtual = 32
tok_index Tok.kw_override = 33
tok_index Tok.kw_defer = 34
tok_index Tok.kw_atomic = 35
tok_index Tok.kw_unsafe = 36
tok_index Tok.kw_spawn = 37
tok_index Tok.kw_sync = 38
tok_index Tok.kw_chan = 39
tok_index Tok.kw_send = 40
tok_index Tok.kw_recv = 41
tok_index Tok.kw_noninterference = 42
tok_index Tok.kw_cycle_preserves = 43
tok_index Tok.kw_concept = 44
tok_index Tok.kw_where = 45
tok_index Tok.kw_requires = 46
tok_index Tok.kw_ensures = 47
tok_index Tok.kw_invariant = 48
tok_index Tok.kw_assert = 49
tok_index Tok.kw_old = 50
tok_index Tok.kw_implies = 51
tok_index Tok.kw_forall = 52
tok_index Tok.kw_exists = 53
tok_index Tok.kw_decreases = 54
tok_index Tok.kw_ghost = 55
tok_index Tok.kw_region = 56
tok_index Tok.kw_spec = 57
tok_index Tok.kw_refines = 58
tok_index Tok.kw_implements = 59
tok_index Tok.kw_modifies = 60
tok_index Tok.kw_effects = 61
tok_index Tok.kw_lemma = 62
tok_index Tok.kw_preserves = 63
tok_index Tok.kw_axiom = 64
tok_index Tok.kw_trusted = 65
tok_index Tok.kw_source = 66
tok_index Tok.kw_trap = 67
tok_index Tok.kw_handler = 68
tok_index Tok.kw_discharge = 69
tok_index Tok.kw_instantiate = 70
tok_index Tok.kw_on = 71
tok_index Tok.kw_proof = 72
tok_index Tok.kw_that = 73
tok_index Tok.kw_by = 74
tok_index Tok.kw_induction = 75
tok_index Tok.kw_base = 76
tok_index Tok.kw_step = 77
tok_index Tok.kw_assume = 78
tok_index Tok.kw_prove = 79
tok_index Tok.kw_calc = 80
tok_index Tok.kw_macro = 81
tok_index Tok.kw_expand = 82
tok_index Tok.kw_bitfield = 83
tok_index Tok.kw_bit = 84
tok_index Tok.kw_bits = 85
tok_index Tok.kw_i64 = 86
tok_index Tok.kw_f64 = 87
tok_index Tok.kw_bool = 88
tok_index Tok.kw_void = 89
tok_index Tok.kw_print = 90
tok_index Tok.kw_struct = 91
tok_index Tok.kw_str = 92
tok_index Tok.kw_vec = 93
tok_index Tok.kw_map = 94
tok_index Tok.kw_set = 95
tok_index Tok.kw_hmap = 96
tok_index Tok.kw_hset = 97
tok_index Tok.kw_char = 98
tok_index Tok.kw_i8 = 99
tok_index Tok.kw_i16 = 100
tok_index Tok.kw_i32 = 101
tok_index Tok.kw_u8 = 102
tok_index Tok.kw_u16 = 103
tok_index Tok.kw_u32 = 104
tok_index Tok.kw_u64 = 105
tok_index Tok.kw_usize = 106
tok_index Tok.kw_f32 = 107
tok_index Tok.plus = 108
tok_index Tok.minus = 109
tok_index Tok.star = 110
tok_index Tok.slash = 111
tok_index Tok.percent = 112
tok_index Tok.eq = 113
tok_index Tok.eqeq = 114
tok_index Tok.bang = 115
tok_index Tok.bangeq = 116
tok_index Tok.lt = 117
tok_index Tok.gt = 118
tok_index Tok.lteq = 119
tok_index Tok.gteq = 120
tok_index Tok.ampamp = 121
tok_index Tok.barbar = 122
tok_index Tok.amp = 123
tok_index Tok.bar = 124
tok_index Tok.caret = 125
tok_index Tok.tilde = 126
tok_index Tok.shl = 127
tok_index Tok.shr = 128
tok_index Tok.pluseq = 129
tok_index Tok.minuseq = 130
tok_index Tok.stareq = 131
tok_index Tok.lasheq = 132
tok_index Tok.percenteq = 133
tok_index Tok.ampeq = 134
tok_index Tok.bareq = 135
tok_index Tok.careteq = 136
tok_index Tok.shleq = 137
tok_index Tok.shreq = 138
tok_index Tok.inc = 139
tok_index Tok.dec = 140
tok_index Tok.question = 141
tok_index Tok.lparen = 142
tok_index Tok.rparen = 143
tok_index Tok.lbrace = 144
tok_index Tok.rbrace = 145
tok_index Tok.lbracket = 146
tok_index Tok.rbracket = 147
tok_index Tok.dot = 148
tok_index Tok.comma = 149
tok_index Tok.semicolon = 150
tok_index Tok.colon = 151
tok_index Tok.arrow = 152
tok_index Tok.dotdot = 153
tok_index Tok.dotdoteq = 154
tok_index Tok.coloncolon = 155
tok_index Tok.fatarrow = 156
tok_index Tok.dollar = 157
tok_index Tok.chan_arrow = 158
tok_index Tok.pow = 159
tok_index Tok.backslash = 160
tok_index Tok.math_sym = 161
tok_index Tok.kw_pi = 162
tok_index Tok.kw_integrate = 163
tok_index Tok.kw_sqrt = 164
tok_index Tok.kw_pow2 = 165
tok_index Tok.kw_pow3 = 166
tok_index Tok.err = 167

unfoldable pub at : Tok → State → Bool
unfolding cur
at t st = tok_index (cur st).kind == tok_index t

unfoldable pub error : Text → State → State
unfolding cur
error msg st = record st {
  errs = st.errs ++ record { msg = msg; line = (cur st).line; col = (cur st).col } ∷ [];
}

unfoldable pub accept : Tok → State → Bool × State
unfolding at advance
accept t st = if at t st then (true, advance st) else (false, st)

unfoldable pub expect : Tok → Text → State → Bool × State
unfolding at advance error cur
expect t what st = if at t st then (true, advance st) else (
  false,
  error (codes "expected " ++ what ++ codes " but got '" ++ (cur st).text ++ codes "'") st,
)

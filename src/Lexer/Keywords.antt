-- ===== src/Lexer/Keywords.antt =====
-- src/Lexer.cpp, `Lexer::keyword`.
use oxide_lang_reupload.Prelude.{Text, codes, [], ◌∷◌, none, some}
use oxide_lang_reupload.Prelude.Map.{Map, find}
use oxide_lang_reupload.Lexer.Token.{Tok}

-- The entries of the static map, in the order written.
abbrev pub keywords : Map Tok
keywords =
    (codes "let", Tok.kw_let)
    ∷ (codes "mut", Tok.kw_mut)
    ∷ (codes "fn", Tok.kw_fn)
    ∷ (codes "return", Tok.kw_return)
    ∷ (codes "if", Tok.kw_if)
    ∷ (codes "else", Tok.kw_else)
    ∷ (codes "while", Tok.kw_while)
    ∷ (codes "for", Tok.kw_for)
    ∷ (codes "break", Tok.kw_break)
    ∷ (codes "continue", Tok.kw_continue)
    ∷ (codes "in", Tok.kw_in)
    ∷ (codes "true", Tok.kw_true)
    ∷ (codes "false", Tok.kw_false)
    ∷ (codes "as", Tok.kw_as)
    ∷ (codes "const", Tok.kw_const)
    ∷ (codes "enum", Tok.kw_enum)
    ∷ (codes "match", Tok.kw_match)
    ∷ (codes "null", Tok.kw_null)
    ∷ (codes "extern", Tok.kw_extern)
    ∷ (codes "export", Tok.kw_export)
    ∷ (codes "typedef", Tok.kw_typedef)
    ∷ (codes "impl", Tok.kw_impl)
    ∷ (codes "self", Tok.kw_self)
    ∷ (codes "private", Tok.kw_private)
    ∷ (codes "sizeof", Tok.kw_sizeof)
    ∷ (codes "asm", Tok.kw_asm)
    ∷ (codes "virtual", Tok.kw_virtual)
    ∷ (codes "override", Tok.kw_override)
    ∷ (codes "defer", Tok.kw_defer)
    ∷ (codes "atomic", Tok.kw_atomic)
    ∷ (codes "unsafe", Tok.kw_unsafe)
    ∷ (codes "spawn", Tok.kw_spawn)
    ∷ (codes "sync", Tok.kw_sync)
    ∷ (codes "Channel", Tok.kw_chan)
    ∷ (codes "noninterference", Tok.kw_noninterference)
    ∷ (codes "cycle_preserves", Tok.kw_cycle_preserves)
    ∷ (codes "concept", Tok.kw_concept)
    ∷ (codes "where", Tok.kw_where)
    ∷ (codes "requires", Tok.kw_requires)
    ∷ (codes "ensures", Tok.kw_ensures)
    ∷ (codes "invariant", Tok.kw_invariant)
    ∷ (codes "assert", Tok.kw_assert)
    ∷ (codes "old", Tok.kw_old)
    ∷ (codes "implies", Tok.kw_implies)
    ∷ (codes "forall", Tok.kw_forall)
    ∷ (codes "exists", Tok.kw_exists)
    ∷ (codes "decreases", Tok.kw_decreases)
    ∷ (codes "ghost", Tok.kw_ghost)
    ∷ (codes "region", Tok.kw_region)
    ∷ (codes "spec", Tok.kw_spec)
    ∷ (codes "refines", Tok.kw_refines)
    ∷ (codes "modifies", Tok.kw_modifies)
    ∷ (codes "implements", Tok.kw_implements)
    ∷ (codes "effects", Tok.kw_effects)
    ∷ (codes "preserves", Tok.kw_preserves)
    ∷ (codes "lemma", Tok.kw_lemma)
    ∷ (codes "axiom", Tok.kw_axiom)
    ∷ (codes "trusted", Tok.kw_trusted)
    ∷ (codes "source", Tok.kw_source)
    ∷ (codes "trap", Tok.kw_trap)
    ∷ (codes "handler", Tok.kw_handler)
    ∷ (codes "discharge", Tok.kw_discharge)
    ∷ (codes "instantiate", Tok.kw_instantiate)
    ∷ (codes "on", Tok.kw_on)
    ∷ (codes "proof", Tok.kw_proof)
    ∷ (codes "that", Tok.kw_that)
    ∷ (codes "by", Tok.kw_by)
    ∷ (codes "induction", Tok.kw_induction)
    ∷ (codes "base", Tok.kw_base)
    ∷ (codes "step", Tok.kw_step)
    ∷ (codes "assume", Tok.kw_assume)
    ∷ (codes "prove", Tok.kw_prove)
    ∷ (codes "calc", Tok.kw_calc)
    ∷ (codes "macro", Tok.kw_macro)
    ∷ (codes "expand", Tok.kw_expand)
    ∷ (codes "i64", Tok.kw_i64)
    ∷ (codes "f64", Tok.kw_f64)
    ∷ (codes "bool", Tok.kw_bool)
    ∷ (codes "void", Tok.kw_void)
    ∷ (codes "print", Tok.kw_print)
    ∷ (codes "struct", Tok.kw_struct)
    ∷ (codes "bitfield", Tok.kw_bitfield)
    ∷ (codes "bit", Tok.kw_bit)
    ∷ (codes "bits", Tok.kw_bits)
    ∷ (codes "str", Tok.kw_str)
    ∷ (codes "vec", Tok.kw_vec)
    ∷ (codes "map", Tok.kw_map)
    ∷ (codes "set", Tok.kw_set)
    ∷ (codes "hmap", Tok.kw_hmap)
    ∷ (codes "hset", Tok.kw_hset)
    ∷ (codes "char", Tok.kw_char)
    ∷ (codes "i8", Tok.kw_i8)
    ∷ (codes "i16", Tok.kw_i16)
    ∷ (codes "i32", Tok.kw_i32)
    ∷ (codes "u8", Tok.kw_u8)
    ∷ (codes "u16", Tok.kw_u16)
    ∷ (codes "u32", Tok.kw_u32)
    ∷ (codes "u64", Tok.kw_u64)
    ∷ (codes "usize", Tok.kw_usize)
    ∷ (codes "f32", Tok.kw_f32)
    ∷ (codes "pi", Tok.kw_pi)
    ∷ (codes "integrate", Tok.kw_integrate)
    ∷ (codes "sqrt", Tok.kw_sqrt)
    ∷ (codes "pow2", Tok.kw_pow2)
    ∷ (codes "pow3", Tok.kw_pow3)
    ∷ []

unfoldable pub keyword : Text → Tok
unfolding find
keyword s = elim (find s keywords) [ none ↦ Tok.ident | some k ↦ k ]

-- ===== src/Parser/Node.antt =====
-- The expressions of src/AST.h that the expression parser makes.
use oxide_lang_reupload.Prelude.{ℕ, Text, List, Bool}
use oxide_lang_reupload.Types.Base.{BType}
use oxide_lang_reupload.Splitter.Expr.{UnaryOp, BinaryOp}

-- Positions are left out. `absent` is a null pointer. `other` is a node of a primary expression that
-- is not modelled, under a number.
mutual
  pub data Node : Type 0 where
    absent : Node
    int_lit : ℕ → Node
    float_lit : Text → Bool → Node
    bool_lit : Bool → Node
    str_lit : Text → Node
    char_lit : ℕ → Node
    null_lit : Node
    var_ref : Text → Node
    unary : UnaryOp → Node → Node
    binary : BinaryOp → Node → Node → Node
    ternary : Node → Node → Node → Node
    cast : Node → BType → Node
    index : Node → Node → Node
    field : Node → Text → Node
    method_call : Text → Node → Nodes → Node
    -- the name, `typeArgs`, `hasTypeArgs` and the arguments
    call : Text → List BType → Bool → Nodes → Node
    -- `fnPtr`: the callee and the arguments
    call_value : Node → Nodes → Node
    assoc_call : Text → Text → Nodes → Node
    macro_call : Text → Nodes → Node
    -- the name, `typeArgs`, `hasTypeArgs`, the names of the fields and their values
    struct_lit : Text → List BType → Bool → List Text → Nodes → Node
    power : Node → Node → Node
    superscript : Text → Node → Node → Node
    solve : Node → Node → Node
    -- `isInc`, `isPost` and the target
    inc_dec : Bool → Bool → Target → Node
    -- the target, and the operation with `isCompound`
    assign : Target → Node → Node
    assign_with : BinaryOp → Target → Node → Node
    range_lit : Bool → Node → Node → Node
    channel_send : Node → Node → Node
    channel_recv : Node → Node
    size_of : BType → Node
    old : Node → Node
    -- `isForall`, the binder and its type, the bounds, `inclusive` and the body
    quant : Bool → Text → BType → Node → Node → Bool → Node → Node
    dyn_new set_new hset_new : BType → Node
    map_new hmap_new : BType → BType → Node
    math_sym : Text → Node
    integrate : Node → Node → Node → Node
    other : ℕ → Node

  pub data Target : Type 0 where
    to_var : Text → Target
    to_index : Node → Node → Target
    to_field : Node → Text → Target
    to_deref : Node → Target

  pub data Nodes : Type 0 where
    no_nodes : Nodes
    node : Node → Nodes → Nodes

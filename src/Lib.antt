-- ===== src/Lib.antt =====
-- The Oxide compiler (src/*.cpp), as far as it is modelled.
--
-- A source text is split into tokens by `Lexer::lex` (src/Lexer.cpp), and the parser of
-- src/Parser.cpp makes expressions of them. Types are small records with
-- positions in global tables (src/AST.h, src/Types.cpp): the parser and the type checker make them
-- with `makePtr`, `makeArrayType` and the like and read them back with `pointee`, `arrayElem` and
-- the like. Names of structs, enums, aliases and concepts are looked up in registries of the same
-- file. The type checker (src/Sema.cpp) gives every struct its layout from the widths and
-- alignments of src/Types.cpp. It keeps a stack of scopes with the names declared, and proposes a
-- similar name for one that is not declared. The code generator (src/IRGen.cpp) has scopes of its
-- own, and calls the destructors of the locals where a block ends or is left.
-- The verifier splits each proof goal into smaller ones and picks a solver tactic for each
-- (src/ProofSplitter.cpp) before the goals go to an SMT solver.
-- The verdicts of several solvers are merged, and the goals are logged with escaped strings
-- (src/ProofDispatch.cpp).
--
-- Files:
--   Prelude and below   names of the libraries passed on; Boolean tests, lists, texts (lists of
--                       byte values), integers and sorted association lists for `std::map`
--   Types/Base          `BType`, `operator==`, `isInt` .. `bitWidth`
--   Types/Tables        the static tables of src/Types.cpp as a record `Tables`, passed along:
--                       `makeX` is `make_x`, and a reader takes the tables as an argument
--   Types/Registry      the static maps of src/Types.cpp as a record `Registry`
--   Layout/Width        `fieldByteWidth`, `fieldAlign`
--   Layout/Structs      the loops over fields in `Sema::check` and `Sema::recomputeVtableLayout`
--   Lexer and below     `Lexer::lex`: Cursor is its state, Numbers, Literals and Operators its
--                       branches, Lex the loop
--   Parser/State        `cur`, `at`, `accept`, `expect`, `error` of `Parser`
--   Parser/Node         the expressions of src/AST.h that the expression parser makes
--   Parser/Levels       `parseRange` to `parsePower` and `makeIncDec`; `left_assoc` is the loop of the
--                       left-associative levels `parseLogicOr` to `parseMul`
--   Parser/Postfix      `parsePostfix`
--   Parser/Primary      the arms of `parsePrimary` and `parseSpecExpr`; Typed has the arms that
--                       read types, Names those that start with a name
--   Parser/Expr         the levels tied together: `parse_expr` is `parseExpr`
--   Parser/Grammar and below
--                       the grammar of expressions, apart from the parser, and the proofs on it
--   Parser/Total and below
--                       the number of tokens left, and the levels, loops and arms that return
--   Sema/Suggest        `editDist`, `suggest`, with Edits and Nearest on what they compute
--   Sema/Scopes         `lookup`, `pushScope`, `popScope`, `declare`, `recordDropLocal`; Refinement
--                       and Blocks are proofs, Hint the error on an undeclared variable
--   Sema/Inherit        `isBaseOf` (also of src/IRGen.cpp), `implicitAssignable`
--   IrGen/Drops         the scopes, drop lists, moves and destructor calls of `IRGen`; an instruction
--                       written to `out_` is a constructor of `Instr`. Steps has the blocks that the
--                       proofs of Callees and Blocks are on
--   Splitter/Expr       the expressions of src/AST.h that the splitter reads, and its tests on them
--   Splitter/Subst      `substBinder`
--   Splitter/Split      `splitGoal` with its five strategies
--   Splitter/Tactic     `selectTactic`, `tacticStrategy`, `smtDischargeGoal`
--   Splitter/Ranges, Instances, Parts, Sound, Exists, Ground
--                       the proofs on the splitter, by what they are about
--   Splitter/Meaning    what a goal means, independently of the code: values are numbers, and the
--                       operations that the splitter does not know are any functions
--   Dispatch/Merge      `mergeResults`
--   Dispatch/Json       `jsonEscape`, `jsonStringField`
--   Tests in each part  runs at concrete inputs, and a concrete input for each theorem
--
-- Conventions. `int32_t`, `int64_t` and `size_t` of table positions, offsets, lines and columns are
-- unbounded: no overflow is modelled there. The value of an integer literal is bounded as
-- `std::stoull` bounds it. A pointer into a registry is the entry it points to or its key.
-- The parser reads its tokens without a test of its position, and can pass over the `end` token: what
-- it reads behind its vector is undefined. The model's list may hold tokens behind the vector's, and
-- gives an `end` token where it is empty.
--
-- Fuel. The loop of the lexer gets one more than the length of its input, a string literal one more
-- than the bytes behind its mark. `fieldByteWidth` and `fieldAlign` get a fuel from the length of
-- the table of element types, which bounds the nesting of arrays. A call of the expression parser
-- that starts the chain of levels again has one unit of fuel less, and the loops of a level have as
-- much as the level: each such call is behind a token, and each turn takes one, so one more than the
-- number of tokens is enough. The walk up the base pointers of a struct is bounded by an argument:
-- any number above the length of the chain is enough.
--
-- Not modelled: types, statements and declarations in the parser, and its lambda, thread, channel,
-- assembly, array and matrix literals (parameters of the expression parser; the conditions on them
-- are named in the results); the type checker apart from layout, scopes, suggestions and base
-- classes; the code generator apart from the destructor calls (the code of a deferred statement is a
-- parameter); the SMT encoder (`smtExpr` is a parameter of the splitter), running the solvers and
-- the file of the proof log, the driver and the command line. `std::stod` is left out: the token of
-- a float literal keeps its text only.
pub mod Prelude
pub mod Types
pub mod Layout
pub mod Lexer
pub mod Parser
pub mod Sema
pub mod IrGen
pub mod Splitter
pub mod Dispatch

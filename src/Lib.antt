-- ===== src/Lib.antt =====
-- Verification of the Calynda for Wii repository: the compiler of the Calynda language, and a
-- decompiler for the executables of the Wii.
--
-- The parts that are modelled, and how they work together. The compiler reads a source text through
-- its lexer (`tokenizer_next`), one token per call; the parser builds a tree from the tokens, the
-- symbol table gives each name its declaration (`symbol_table_build`), and the type checker gives a
-- type to every expression. The decompiler reads an executable through its loader (`dol_parse`),
-- finds the words of a text section by their virtual addresses (`dol_vaddr_to_ptr`), and decodes
-- them one at a time (`ppc_decode`); from the words of a function it builds a graph of basic blocks
-- (`cfg_build`). The Solite runtime, which compiled programs call, keeps signals, the effects that
-- read them, and a queue of the effects to run again: a write schedules the subscribers and flushes
-- the queue, unless a batch is open.
--
-- - Base: names of the libraries that are passed on, comparisons and byte texts, 32-bit integers
--   (Base/Int), results that must be there (Base/Returns), lemmas on lists (Base/Lists).
-- - Tokenizer: compiler/src/tokenizer. The `Tokenizer` struct is the record `Tokenizer`: its fields
--   `current`, `line` and `column` are a `Position`, which keeps the bytes from the pointer on, up to
--   the NUL that ends the text, and the offset of the pointer. Stepping over that NUL is visible:
--   the offset grows and the bytes do not shrink. A token's `start` is a position in the source, or
--   the message of an error token. Position has the helpers of tokenizer_internal.h, Keywords has
--   tokenizer_keywords.c, Literals and Template have tokenizer_literals.c, Punctuation has
--   tokenizer_punctuation.c, Next has tokenizer.c, TokenType has the enumeration and its names.
--   Proofs: Ahead and Scanned on the scanning functions, and on `tokenizer_next` Progress, Slices,
--   Spaces, Nesting, Words, Integers and Names.
-- - Sema: compiler/src/sema. Primitive and Checked have the types of type_checker_types.c, Convert
--   has the promotion, assignment and merging of type_checker_convert.c, Operators has the binary
--   operators of type_checker_ops.c, PrimitiveToken has the two functions on tokens of
--   compiler/src/parser/parser_lookahead.c, and Lookahead its scans ahead for types and local
--   bindings, on the list of tokens. TypeText states what types the functions of
--   compiler/src/parser/parser_types.c read, which are not those of compiler/calynda_fork.ebnf. A
--   name that may be NULL is an `Option String`, and a function that reports an error returns `none`.
--   Proofs: Equality,
--   Promotion, Assign, Binary, Compound, Words; Levels, Heads, Bindings, Scans.
-- - Symbols: compiler/src/sema/symbol_table*.c. Ast has the declarations as the table reads them, State
--   the structs of symbol_table.h, Core the functions of symbol_table_core.c and of
--   symbol_table_registry.c, Query has symbol_table_query.c, Imports has symbol_table_imports.c,
--   Predeclare has symbol_table_predecl.c and `symbol_table_build` up to the bodies, Locals the
--   declaration of parameters and local bindings of symbol_table_analyze_expr.c, Tree the expressions,
--   statements and blocks of a program, Walk the walk over them of symbol_table_analyze.c and
--   symbol_table_analyze_expr.c, and Build that over the declarations, with `symbol_table_build`. The
--   scopes are a list, and a pointer to a scope is its place there. Scoping and Program state the
--   scoping rules on the tree alone, under a list of frames. Proofs: Names, Added, Declared, Whole,
--   Visible, Parents, Shadows; Frames, Resolved, Runs, Refines, Follows, Built.
-- - Ppc: decompiler/src/ppc. Op has the operations and their mnemonics, Insn the decoded instruction
--   and the bit fields of ppc_internal.h, Decode has decode.c and DecodeExt has decode_ext.c. A
--   function that fills `out` takes the instruction so far and returns the new one. Proofs: Bounds,
--   Encode, EncodeBranch, EncodeExt, EncodeXform, Multiply, Mnemonics.
-- - Dol: decompiler/src/dol.c. The section array with its count is a list, and `dol_parse` returns a
--   status with an image, which is all zero after an error. Proofs: Dol/Sections, Dol/Sound,
--   Dol/Accepts.
-- - Cfg: decompiler/src/cli/cfg/cfg_build.c. Graph has the structs of cfg.h and the small helpers,
--   Leaders has `collect_leaders`, Build has `split_and_wire` and `cfg_build` up to its analyses, and
--   Dominance the reverse post-order of decompiler/src/cli/cfg/cfg_dominance.c. A part of an array
--   that a loop of the sort has done is a list with its last element first. Proofs: Order, Begins,
--   Scan, Division, Numbers, Transfers, Edges, Wired, Whole, Inside; Search, Parents, Depth, Turned,
--   Positions, Places, PostOrder, Ordered. Blocks and edges are specified over what `ppc_decode`
--   makes of the words: calls and words that it leaves unknown (conditional returns, `bctrl`) are
--   straight-line code there, as in `collect_leaders`.
-- - Solite: solite_runtime/src/solite_signal.c and solite_effect.c. State has the structs, the global
--   variables as the record `SoliteState`, and the stack of observers; Effect has scheduling, the
--   flush and batches, Signal and Memo the functions on signals and memos. An address is a number,
--   and the store says what is behind it. Proofs: Queue, Calls, Reach, Observers, Tracking, Batch.
--
-- Bounds and fuel. Words are numbers below 2 ^ 32, with the wrap-around of C written out; lines,
-- columns and offsets do not wrap, which they do in C only for texts of more than 2 ^ 31 bytes. The
-- loops of the lexer whose step is not one byte (white space, strings, templates) run on fuel, one
-- more than the bytes that are left, and return `none` when it ends; since each round takes a byte,
-- that is enough. The scan for leaders runs on fuel too, one more than the words of the range, and
-- the look-up of a name through the scopes runs on as much fuel as there are scopes: a parent is
-- made before its children. The depth-first search of the graph has one more unit of fuel than there
-- are blocks, for the depth of its recursion: each call that goes on marks a block. The
-- scans ahead have one more unit than there are tokens, since the end-of-file token stops them.
-- Allocations of the graph and of the symbol table succeed. Character classes are those of the C
-- locale. The flush of the Solite runtime runs on fuel as well, one unit
-- for a round; it ends or not as the program's callbacks have it, so its theorems say what holds
-- where it ends, or what callbacks make it end. Those callbacks, and what the allocator returns,
-- are parameters there.
--
-- Not modelled: the NULL checks of pointer arguments; the texts of the type checker's messages;
-- the other passes of the compiler (the parser but for its scans ahead for types and local
-- bindings, the checker's walk over the tree, intermediate forms, emitters, runtime), the texts
-- and the search for a scope by its owner of the symbol table, the decompiler's printer and its
-- other analyses, disc images and their cipher, the other parts of the Solite runtime (control
-- flow components, styles, the bridge, the main loop), the release of memory, and the libraries
-- on floating point.
pub mod Base
pub mod Tokenizer
pub mod Sema
pub mod Ppc
pub mod Dol
pub mod Solite
pub mod Cfg
pub mod Symbols

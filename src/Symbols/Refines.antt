-- ===== src/Symbols/Refines.antt =====
-- The walk over the bodies follows the scoping rules.
use calynda_for_wii.Symbols.Resolved.{names_of, analyze_identifier-IsNamed}
use calynda_for_wii.Symbols.Frames.{scope_new-shapes, length-shapes, shape, Shape, Chain, shapes}
use calynda_for_wii.Symbols.Walk.{in_scope_of, analyze_identifier}
use calynda_for_wii.Symbols.Scoping.{
  are_new, local_entry, parameter_frame, is_new, names_under, provided, ◌▹◌, resolve, Names, Frame,
}
use calynda_for_wii.Symbols.Runs.{
  parameters-Runs, Grows-trans, declare-Runs, HasFrame-Grows, Grows-HasFrame, HasFrame-Chain,
  Grows-Chain, Grows, Runs-then, Runs, HasFrame, Runs-weaken, Grows-refl,
}
use calynda_for_wii.Symbols.Locals.{local_symbol, st_add_parameter_symbols, st_add_local_symbol}
use calynda_for_wii.Symbols.State.{scope_block, ScopeKind, SymbolTable}
use calynda_for_wii.Symbols.Core.{st_append_scope_child, st_scope_new}
use calynda_for_wii.Base.{
  append-nil, ℕ, Bool, true, Option, some, List, [], ◌∷◌, ◌++◌, map, length, Bytes, ◌≡◌, inl, refl,
  sym, ap, ◌∙◌,
}
use calynda_for_wii.Symbols.Imports.{◌>>=◌}
use calynda_for_wii.Symbols.Tree.{AstLocalBindingStatement, AstParameter, AstSourceSpan}

-- A part of the tree is walked as the scoping rules say, in every scope with a chain of frames.
abbrev pub Follows :
    (ℕ → SymbolTable → Bool × SymbolTable) → (List Frame → Names → Option Names) → Type 0
Follows walk names =
    (scope : ℕ) (env : List Frame) (table : SymbolTable)
    → Chain (shapes table) (some scope) env
    → Runs (walk scope table) (names env (names_of table)) (Grows table)

pub Follows-nothing : Follows (λ scope table. (true, table)) (λ env n. some n)
Follows-nothing scope env table c = inl (table, refl, refl, Grows-refl table)

pub Follows-then :
    (walk walk' : ℕ → SymbolTable → Bool × SymbolTable)
    (names names' : List Frame → Names → Option Names)
    → Follows walk names
    → Follows walk' names'
    → Follows (λ scope table. walk scope table >>= walk' scope) (λ env n. names env n ▹ names' env)
Follows-then walk walk' names names' first second scope env table c =
    Runs-then (walk scope table) (walk' scope) (names env (names_of table)) (names' env)
      (Grows table) (Grows table) (first scope env table c)
      (λ after g.
        Runs-weaken (walk' scope after) (names' env (names_of after)) (Grows after) (Grows table)
          (second scope env after (Grows-Chain table after (some scope) env g c))
          (λ last g'. Grows-trans table after last g g'))

pub identifier-Follows :
    (node : ℕ) (span : AstSourceSpan) (name : Bytes)
    → Follows
        (λ scope table. analyze_identifier node span name scope table)
        (λ env n. some (resolve node name env n))
identifier-Follows node span name scope env table c =
    let (after, e, h) = analyze_identifier-IsNamed node scope span name env table c in
    inl (
      after,
      e,
      ap some (sym h.names_are),
      ([], ap (map shape) h.same_scopes ∙ sym (append-nil (shapes table)), h.same_error),
    )

-- A new scope is empty.
pub new_scope-HasFrame :
    (kind : ScopeKind) (owner parent : ℕ) (table : SymbolTable)
    → (opened : SymbolTable) × (st_scope_new kind owner (some parent) table
        ≡ (opened, length (shapes table)))
      × HasFrame (shapes table) (some parent) [] table.has_error opened
      × (names_of opened ≡ names_of table)
unfolding st_scope_new st_append_scope_child
new_scope-HasFrame kind owner parent table =
    let opened = (st_scope_new kind owner (some parent) table).0 in
    (
      opened,
      ap (λ k. (opened, k)) (sym (length-shapes table.scopes)),
      record {
        behind = [];
        shapes_are = scope_new-shapes kind owner parent table;
        error_is = refl;
      },
      refl,
    )

-- A body in a scope with parameters.
pub in_scope_of-Follows :
    (kind : ScopeKind) (owner : ℕ) (parameters : List AstParameter)
    (walk : ℕ → SymbolTable → Bool × SymbolTable) (names : List Frame → Names → Option Names)
    → Follows walk names
    → Follows (in_scope_of kind owner parameters walk) (names_under parameters names)
in_scope_of-Follows kind owner parameters walk names body parent env table c =
    let (opened, e, h, same) = new_scope-HasFrame kind owner parent table in
    let frame = parameter_frame parameters in
    let outer = shapes table in
    rw (e, sym same)
      (Runs-then (st_add_parameter_symbols parameters (length outer) opened) (walk (length outer))
        (provided (are_new [] frame) (names_of opened)) (names (frame ∷ env))
        (HasFrame outer (some parent) frame table.has_error) (Grows table)
        (parameters-Runs parameters outer (some parent) [] table.has_error opened h)
        (λ after h'.
          Runs-weaken (walk (length outer) after) (names (frame ∷ env) (names_of after))
            (Grows after) (Grows table)
            (body (length outer) (frame ∷ env) after
              (HasFrame-Chain outer (some parent) frame table.has_error after env c h'))
            (λ last g.
              Grows-HasFrame table last (some parent) frame
                (HasFrame-Grows outer (some parent) frame table.has_error after last h' g))))

-- A statement keeps the scopes around its own, and adds what it declares to its frame.
abbrev pub InFrame :
    (ℕ → SymbolTable → Bool × SymbolTable)
    → (List Frame → Names → Option Names)
    → Frame
    → Frame
    → Type 0
InFrame walk names frame frame' =
    (outer : List Shape) (parent : Option ℕ) (env : List Frame) (error : Bool) (table : SymbolTable)
    → Chain outer parent env
    → HasFrame outer parent frame error table
    → Runs (walk (length outer) table) (names env (names_of table))
        (HasFrame outer parent frame' error)

-- An expression in a statement adds nothing to the frame.
pub Follows-InFrame :
    (walk : ℕ → SymbolTable → Bool × SymbolTable) (names : List Frame → Names → Option Names)
    (frame : Frame)
    → Follows walk names
    → InFrame walk (λ env. names (frame ∷ env)) frame frame
Follows-InFrame walk names frame run outer parent env error table c h =
    Runs-weaken (walk (length outer) table) (names (frame ∷ env) (names_of table)) (Grows table)
      (HasFrame outer parent frame error)
      (run (length outer) (frame ∷ env) table
        (HasFrame-Chain outer parent frame error table env c h))
      (λ after g. HasFrame-Grows outer parent frame error table after h g)

pub local-InFrame :
    (b : AstLocalBindingStatement) (walk : ℕ → SymbolTable → Bool × SymbolTable)
    (names : List Frame → Names → Option Names) (frame : Frame)
    → Follows walk names
    → InFrame
        (λ scope table. walk scope table >>= st_add_local_symbol b scope)
        (λ env n. names (frame ∷ env) n ▹ provided (is_new (some b.name) frame))
        frame
        (frame ++ local_entry b ∷ [])
unfolding st_add_local_symbol
local-InFrame b walk names frame run outer parent env error table c h =
    Runs-then (walk (length outer) table) (st_add_local_symbol b (length outer))
      (names (frame ∷ env) (names_of table)) (provided (is_new (some b.name) frame))
      (HasFrame outer parent frame error)
      (HasFrame outer parent (frame ++ local_entry b ∷ []) error)
      (Follows-InFrame walk names frame run outer parent env error table c h)
      (λ after h'.
        declare-Runs b.name b.name_span (local_symbol b (length outer)) outer parent frame error
          after h')

pub InFrame-then :
    (walk walk' : ℕ → SymbolTable → Bool × SymbolTable)
    (names names' : List Frame → Names → Option Names) (frame frame' frame'' : Frame)
    → InFrame walk names frame frame'
    → InFrame walk' names' frame' frame''
    → InFrame
        (λ scope table. walk scope table >>= walk' scope)
        (λ env n. names env n ▹ names' env)
        frame
        frame''
InFrame-then walk walk' names names' frame frame' frame'' first second outer parent env error table
      c h =
    Runs-then (walk (length outer) table) (walk' (length outer)) (names env (names_of table))
      (names' env) (HasFrame outer parent frame' error) (HasFrame outer parent frame'' error)
      (first outer parent env error table c h)
      (λ after h'. second outer parent env error after c h')

-- A block runs its statements in a new scope.
pub block-Follows :
    (node : ℕ) (walk : ℕ → SymbolTable → Bool × SymbolTable)
    (names : List Frame → Names → Option Names) (frame : Frame)
    → InFrame walk names [] frame
    → Follows
        (λ scope table.
          let (opened, inner) = st_scope_new scope_block node (some scope) table in
          walk inner opened)
        names
block-Follows node walk names frame run parent env table c =
    let (opened, e, h, same) = new_scope-HasFrame scope_block node parent table in
    rw (e, sym same)
      (Runs-weaken (walk (length (shapes table)) opened) (names env (names_of opened))
        (HasFrame (shapes table) (some parent) frame table.has_error) (Grows table)
        (run (shapes table) (some parent) env table.has_error opened c h)
        (λ after h'. Grows-HasFrame table after (some parent) frame h'))

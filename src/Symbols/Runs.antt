-- ===== src/Symbols/Runs.antt =====
-- A step of the walk against the scoping rules: both go on, with the same names, or both stop; and the
-- steps that open scopes and declare parameters and local bindings.
use calynda_for_wii.Symbols.Added.{set_error-has_error, stops}
use calynda_for_wii.Symbols.Predeclare.{declare}
use calynda_for_wii.Symbols.Resolved.{find_named-entry, names_of}
use calynda_for_wii.Symbols.Tree.{AstParameter, AstSourceSpan}
use calynda_for_wii.Symbols.Scoping.{
  is_entry, parameter_entry, parameter_frame, is_new, are_new, ◌▹◌, Frame, provided, Names,
}
use calynda_for_wii.Symbols.Query.{find_named, scope_lookup_local}
use calynda_for_wii.Symbols.Frames.{
  append_symbol-shapes, scope_at-middle, Chain-more, open_scope, Chain, entry_of, shapes, Shape,
}
use calynda_for_wii.Symbols.Core.{scope_at, st_scope_append_symbol}
use calynda_for_wii.Symbols.Locals.{parameter_symbol, st_add_parameter_symbols}
use calynda_for_wii.Symbols.State.{Symbol, SymbolTable}
use calynda_for_wii.Base.{
  ℕ, Bool, true, false, not, ◌&&◌, Option, none, some, List, [], ◌∷◌, ◌++◌, map, length, Bytes,
  append_assoc, append-nil, ◌≡◌, ◌⊎◌, inl, inr, refl, sym, ap, ◌∙◌, Option-cases,
}
use calynda_for_wii.Symbols.Imports.{◌>>=◌}

-- `P` is what else holds of the table.
abbrev pub Runs : Bool × SymbolTable → Option Names → (SymbolTable → Type 0) → Type 0
Runs r o P =
    ((after : SymbolTable) × (r ≡ (true, after)) × (o ≡ some (names_of after)) × P after)
    ⊎ ((o ≡ none) × (r.0 ≡ false) × (r.1.has_error ≡ true))

pub Runs-then :
    (r : Bool × SymbolTable) (f : SymbolTable → Bool × SymbolTable) (o : Option Names)
    (g : Names → Option Names) (P Q : SymbolTable → Type 0)
    → Runs r o P
    → ((after : SymbolTable) → P after → Runs (f after) (g (names_of after)) Q)
    → Runs (r >>= f) (o ▹ g) Q
Runs-then r f o g P Q first second = elim first [
  | inl (after, e, same, p) ↦ rw (e, same) (second after p)
  | inr (refused, stop, h) ↦ let (stop', h') = stops r f stop h in inr (rw refused refl, stop', h')
]

pub Runs-weaken :
    (r : Bool × SymbolTable) (o : Option Names) (P Q : SymbolTable → Type 0)
    → Runs r o P
    → ((after : SymbolTable) → P after → Q after)
    → Runs r o Q
Runs-weaken r o P Q run weaker = elim run [
  | inl (after, e, same, p) ↦ inl (after, e, same, weaker after p)
  | inr stop ↦ inr stop
]

-- Scopes were added at the end, and the error is as before.
abbrev pub Grows : SymbolTable → SymbolTable → Type 0
Grows before after =
    (rest : List Shape) × (shapes after ≡ shapes before ++ rest)
    × (after.has_error ≡ before.has_error)

pub Grows-refl : (table : SymbolTable) → Grows table table
Grows-refl table = ([], sym (append-nil (shapes table)), refl)

pub Grows-trans : (a b c : SymbolTable) → Grows a b → Grows b c → Grows a c
Grows-trans a b c (rest, e, h) (rest', e', h') =
    (rest ++ rest', e' ∙ ap (λ k. k ++ rest') e ∙ append_assoc (shapes a) rest rest', h' ∙ h)

pub Grows-Chain :
    (before after : SymbolTable) (scope : Option ℕ) (env : List Frame)
    → Grows before after
    → Chain (shapes before) scope env
    → Chain (shapes after) scope env
Grows-Chain before after scope env (rest, e, h) c =
    rw e (Chain-more (shapes before) rest scope env c)

-- The scope behind `outer` has this frame.
pub record HasFrame (outer : List Shape) (parent : Option ℕ) (frame : Frame) (error : Bool)
    (table : SymbolTable) : Type 0 where
  pub behind : List Shape
  pub shapes_are : shapes table ≡ outer ++ open_scope parent frame ∷ behind
  pub error_is : table.has_error ≡ error

-- The walk in that scope starts in the chain of the outer scopes and the frame.
pub HasFrame-Chain :
    (outer : List Shape) (parent : Option ℕ) (frame : Frame) (error : Bool) (table : SymbolTable)
    (env : List Frame)
    → Chain outer parent env
    → HasFrame outer parent frame error table
    → Chain (shapes table) (some (length outer)) (frame ∷ env)
HasFrame-Chain outer parent frame error table env c h =
    (outer, h.behind, parent, refl, h.shapes_are, c)

pub HasFrame-Grows :
    (outer : List Shape) (parent : Option ℕ) (frame : Frame) (error : Bool)
    (before after : SymbolTable)
    → HasFrame outer parent frame error before
    → Grows before after
    → HasFrame outer parent frame error after
HasFrame-Grows outer parent frame error before after h (rest, e, same) = record {
  behind = h.behind ++ rest;
  shapes_are =
      e
      ∙ ap (λ k. k ++ rest) h.shapes_are
      ∙ append_assoc outer (open_scope parent frame ∷ h.behind) rest;
  error_is = same ∙ h.error_is;
}

-- A scope behind all others has been opened in the table.
pub Grows-HasFrame :
    (before after : SymbolTable) (parent : Option ℕ) (frame : Frame)
    → HasFrame (shapes before) parent frame before.has_error after
    → Grows before after
Grows-HasFrame before after parent frame h =
    (open_scope parent frame ∷ h.behind, h.shapes_are, h.error_is)

find_named-is_new :
    (l : List Symbol) (name : Bytes)
    → ((find_named l name ≡ none) × (is_new (some name) (map entry_of l) ≡ true))
      ⊎ ((s : Symbol) × (find_named l name ≡ some s)
          × (is_new (some name) (map entry_of l) ≡ false))
find_named-is_new l name =
    let same = ap (λ o. not (is_entry o)) (sym (find_named-entry l name)) in
    elim (Option-cases (find_named l name)) [
      | inl e ↦ inl (e, same ∙ rw e refl)
      | inr (s, e) ↦ inr (s, e, same ∙ rw e refl)
    ]

pub append_symbol-names :
    (scope : ℕ) (symbol : Symbol) (table : SymbolTable)
    → names_of (st_scope_append_symbol scope symbol table) ≡ names_of table
unfolding st_scope_append_symbol
append_symbol-names scope symbol table = refl

append_symbol-error :
    (scope : ℕ) (symbol : Symbol) (table : SymbolTable)
    → (st_scope_append_symbol scope symbol table).has_error ≡ table.has_error
unfolding st_scope_append_symbol
append_symbol-error scope symbol table = refl

-- A symbol is added to the frame.
pub append_symbol-HasFrame :
    (outer : List Shape) (parent : Option ℕ) (frame : Frame) (error : Bool) (symbol : Symbol)
    (table : SymbolTable)
    → HasFrame outer parent frame error table
    → HasFrame outer parent
        (frame ++ entry_of symbol ∷ [])
        error
        (st_scope_append_symbol (length outer) symbol table)
append_symbol-HasFrame outer parent frame error symbol table h = record {
  behind = h.behind;
  shapes_are = append_symbol-shapes symbol table outer h.behind parent frame h.shapes_are;
  error_is = append_symbol-error (length outer) symbol table ∙ h.error_is;
}

-- A parameter or a local binding is declared exactly where its name is new in the frame.
pub declare-Runs :
    (name : Bytes) (span : AstSourceSpan) (symbol : Symbol) (outer : List Shape) (parent : Option ℕ)
    (frame : Frame) (error : Bool) (table : SymbolTable)
    → HasFrame outer parent frame error table
    → Runs
        (declare
          (scope_lookup_local table (length outer) name)
          name
          span
          (length outer)
          symbol
          table)
        (provided (is_new (some name) frame) (names_of table))
        (HasFrame outer parent (frame ++ entry_of symbol ∷ []) error)
unfolding scope_lookup_local
declare-Runs name span symbol outer parent frame error table h =
    let here = scope_at-middle table outer h.behind (open_scope parent frame) h.shapes_are in
    let own : map entry_of (scope_at table (length outer)).symbols ≡ frame =
      ap (λ s. s.frame) here in
    elim (find_named-is_new (scope_at table (length outer)).symbols name) [
      | inl (missing, new) ↦
          let new' : is_new (some name) frame ≡ true = rw own at new in
          rw (missing, new')
            (inl (
              st_scope_append_symbol (length outer) symbol table,
              refl,
              ap some (sym (append_symbol-names (length outer) symbol table)),
              append_symbol-HasFrame outer parent frame error symbol table h,
            ))
      | inr (s, there, old) ↦
          let old' : is_new (some name) frame ≡ false = rw own at old in
          rw (there, old') (inr (refl, refl, set_error-has_error _ _ _ table))
    ]

-- The loop over parameters.
provided_and : (a b : Bool) (n : Names) → provided (a && b) n ≡ (provided a n ▹ provided b)
provided_and true b n = refl
provided_and false b n = refl

pub parameters-Runs :
    (parameters : List AstParameter) (outer : List Shape) (parent : Option ℕ) (frame : Frame)
    (error : Bool) (table : SymbolTable)
    → HasFrame outer parent frame error table
    → Runs
        (st_add_parameter_symbols parameters (length outer) table)
        (provided (are_new frame (parameter_frame parameters)) (names_of table))
        (HasFrame outer parent (frame ++ parameter_frame parameters) error)
unfolding st_add_parameter_symbols
parameters-Runs [] outer parent frame error table h =
    inl (table, refl, refl, rw (append-nil frame) h)
parameters-Runs (p ∷ parameters) outer parent frame error table h =
    let more = frame ++ parameter_entry p ∷ [] in
    rw
      (provided_and (is_new (some p.name) frame) (are_new more (parameter_frame parameters))
        (names_of table))
      (Runs-then _ (st_add_parameter_symbols parameters (length outer)) _
        (provided (are_new more (parameter_frame parameters))) _ _
        (declare-Runs p.name p.name_span (parameter_symbol p (length outer)) outer parent frame
          error table h)
        (λ after h'.
          rw (sym (append_assoc frame (parameter_entry p ∷ []) (parameter_frame parameters)))
            (parameters-Runs parameters outer parent more error after h')))

-- ===== src/Symbols/Frames.antt =====
-- The scopes of a table seen as frames: what the operations on scopes do to them, and the chain of
-- scopes that stands for a list of frames.
use calynda_for_wii.Symbols.Scoping.{Entry, Frame}
use calynda_for_wii.Symbols.State.{ScopeKind, Symbol, Scope, SymbolTable}
use calynda_for_wii.Symbols.Core.{
  zero_scope, scope_at, st_scope_new, st_scope_append_symbol, st_append_scope_child,
}
use calynda_for_wii.Base.{
  ℕ, zero, suc, Option, none, some, List, [], ◌∷◌, ◌++◌, map, length, get_or, set, append_assoc,
  ◌≡◌, refl, ap, ◌∙◌,
}
use mathlib.Core.List.{map-append}

abbrev pub entry_of : Symbol → Entry
entry_of s = record {
  name = s.name;
  declaration = s.declaration;
  is_wildcard = s.is_wildcard_import;
}

pub record Shape : Type 0 where
  pub parent : Option ℕ
  pub frame : Frame

abbrev pub shape : Scope → Shape
shape s = record { parent = s.parent; frame = map entry_of s.symbols }

abbrev pub shapes : SymbolTable → List Shape
shapes table = map shape table.scopes

abbrev pub open_scope : Option ℕ → Frame → Shape
open_scope parent frame = record { parent = parent; frame = frame }

map-set :
    (scopes : List Scope) (i : ℕ) (new : Scope)
    → map shape (set scopes i new) ≡ set (map shape scopes) i (shape new)
map-set [] i new = refl
map-set (s ∷ scopes) zero new = refl
map-set (s ∷ scopes) (suc i) new = ap (◌∷◌ (shape s)) (map-set scopes i new)

map-get_or :
    (scopes : List Scope) (i : ℕ)
    → shape (get_or scopes i zero_scope) ≡ get_or (map shape scopes) i (shape zero_scope)
map-get_or [] i = refl
map-get_or (s ∷ scopes) zero = refl
map-get_or (s ∷ scopes) (suc i) = map-get_or scopes i

pub length-shapes : (scopes : List Scope) → length (map shape scopes) ≡ length scopes
length-shapes [] = refl
length-shapes (s ∷ scopes) = ap suc (length-shapes scopes)

set-same : (l : List Shape) (i : ℕ) (d : Shape) → set l i (get_or l i d) ≡ l
set-same [] i d = refl
set-same (x ∷ l) zero d = refl
set-same (x ∷ l) (suc i) d = ap (◌∷◌ x) (set-same l i d)

set-middle : (l q : List Shape) (x y : Shape) → set (l ++ x ∷ q) (length l) y ≡ l ++ y ∷ q
set-middle [] q x y = refl
set-middle (z ∷ l) q x y = ap (◌∷◌ z) (set-middle l q x y)

get_or-middle : (l q : List Shape) (x d : Shape) → get_or (l ++ x ∷ q) (length l) d ≡ x
get_or-middle [] q x d = refl
get_or-middle (z ∷ l) q x d = get_or-middle l q x d

-- The scope in the middle of a table.
pub scope_at-middle :
    (table : SymbolTable) (l q : List Shape) (x : Shape)
    → shapes table ≡ l ++ x ∷ q
    → shape (scope_at table (length l)) ≡ x
scope_at-middle table l q x e =
    map-get_or table.scopes (length l)
    ∙ ap (λ k. get_or k (length l) (shape zero_scope)) e
    ∙ get_or-middle l q x (shape zero_scope)

append_child-shapes :
    (parent child : ℕ) (table : SymbolTable)
    → shapes (st_append_scope_child parent child table) ≡ shapes table
unfolding st_append_scope_child
append_child-shapes parent child table =
    map-set table.scopes parent _
    ∙ ap (set (map shape table.scopes) parent) (map-get_or table.scopes parent)
    ∙ set-same (map shape table.scopes) parent (shape zero_scope)

-- A new scope is empty, and comes last.
pub scope_new-shapes :
    (kind : ScopeKind) (owner parent : ℕ) (table : SymbolTable)
    → shapes (st_scope_new kind owner (some parent) table).0
      ≡ shapes table ++ open_scope (some parent) [] ∷ []
unfolding st_scope_new
scope_new-shapes kind owner parent table =
    append_child-shapes parent (length table.scopes) _ ∙ map-append shape table.scopes _

-- A symbol is added to the frame of its scope.
pub append_symbol-shapes :
    (symbol : Symbol) (table : SymbolTable) (l q : List Shape) (parent : Option ℕ) (frame : Frame)
    → shapes table ≡ l ++ open_scope parent frame ∷ q
    → shapes (st_scope_append_symbol (length l) symbol table)
      ≡ l ++ open_scope parent (frame ++ entry_of symbol ∷ []) ∷ q
unfolding st_scope_append_symbol
append_symbol-shapes symbol table l q parent frame e =
    let old = scope_at table (length l) in
    let here : shape old ≡ open_scope parent frame =
      scope_at-middle table l q (open_scope parent frame) e in
    let grown : map entry_of (old.symbols ++ symbol ∷ []) ≡ frame ++ entry_of symbol ∷ [] =
      map-append entry_of old.symbols (symbol ∷ [])
      ∙ ap (λ s. s.frame ++ entry_of symbol ∷ []) here in
    let same : old.parent ≡ parent = ap (λ s. s.parent) here in
    map-set table.scopes (length l) _
    ∙ ap (λ k. set k (length l) (shape (record old { symbols = old.symbols ++ symbol ∷ [] }))) e
    ∙ set-middle l q (open_scope parent frame) _
    ∙ rw (grown, same) refl

-- The scope and its parents hold the frames; every parent stands before its children.
abbrev pub Chain : List Shape → Option ℕ → List Frame → Type 0
Chain h scope [] = scope ≡ none
Chain h scope (frame ∷ env) =
    (l : List Shape) × (q : List Shape) × (parent : Option ℕ) × (scope ≡ some (length l))
    × (h ≡ l ++ open_scope parent frame ∷ q)
    × Chain l parent env

pub Chain-more :
    (h rest : List Shape) (scope : Option ℕ) (env : List Frame)
    → Chain h scope env
    → Chain (h ++ rest) scope env
Chain-more h rest scope [] c = c
Chain-more h rest scope (frame ∷ env) (l, q, parent, e, split, c) = (
  l,
  q ++ rest,
  parent,
  e,
  ap (λ k. k ++ rest) split ∙ append_assoc l (open_scope parent frame ∷ q) rest,
  c,
)

-- ===== src/Symbols/Parents.antt =====
-- The operations on scopes keep the parent of every scope older than the scope.
use calynda_for_wii.Base.{
  ℕ, zero, suc, ◌+◌, true, ◌&&◌, Option, none, some, List, [], ◌∷◌, ◌++◌, length, get_or, set, ◌≡◌,
  refl, ap, ◌∙◌, arith,
}
use calynda_for_wii.Symbols.State.{Symbol, SymbolTable, Scope, ScopeKind}
use calynda_for_wii.Symbols.Core.{
  zero_scope, st_scope_new, st_append_scope_child, append_to_parent, st_scope_append_symbol,
}
use calynda_for_wii.Symbols.Visible.{is_below, parents_below}

set-parents_below :
    (k i : ℕ) (scopes : List Scope) (new : Scope)
    → new.parent ≡ (get_or scopes i zero_scope).parent
    → parents_below k (set scopes i new) ≡ parents_below k scopes
set-parents_below k i [] new e = refl
set-parents_below k zero (s ∷ scopes) new e = rw e refl
set-parents_below k (suc i) (s ∷ scopes) new e =
    ap (λ b. is_below k s.parent && b) (set-parents_below (suc k) i scopes new e)

snoc-parents_below :
    (k : ℕ) (scopes : List Scope) (new : Scope)
    → parents_below k scopes ≡ true
    → is_below (k + length scopes) new.parent ≡ true
    → parents_below k (scopes ++ new ∷ []) ≡ true
snoc-parents_below k [] new h below =
    let same : k + 0 ≡ k = omega arith in rw (rw same at below) refl
snoc-parents_below k (s ∷ scopes) new h below =
    let same : k + suc (length scopes) ≡ suc k + length scopes = omega arith in
    ground (arith, h, snoc-parents_below (suc k) scopes new (ground (arith, h)) (rw same at below))

append_to_parent-parents_below :
    (parent : Option ℕ) (scope : ℕ) (table : SymbolTable)
    → parents_below 0 (append_to_parent parent scope table).scopes ≡ parents_below 0 table.scopes
unfolding st_append_scope_child
append_to_parent-parents_below none scope table = refl
append_to_parent-parents_below (some parent) scope table =
    set-parents_below 0 parent table.scopes _ refl

st_scope_new-parents_below :
    (kind : ScopeKind) (owner : ℕ) (parent : Option ℕ) (table : SymbolTable)
    → parents_below 0 table.scopes ≡ true
    → is_below (length table.scopes) parent ≡ true
    → parents_below 0 (st_scope_new kind owner parent table).0.scopes ≡ true
unfolding st_scope_new
st_scope_new-parents_below kind owner parent table h below =
    append_to_parent-parents_below parent (length table.scopes) _
    ∙ snoc-parents_below 0 table.scopes _ h
        (let same : 0 + length table.scopes ≡ length table.scopes = omega arith in rw same below)

st_scope_append_symbol-parents_below :
    (scope : ℕ) (symbol : Symbol) (table : SymbolTable)
    → parents_below 0 (st_scope_append_symbol scope symbol table).scopes
      ≡ parents_below 0 table.scopes
unfolding st_scope_append_symbol
st_scope_append_symbol-parents_below scope symbol table =
    set-parents_below 0 scope table.scopes _ refl

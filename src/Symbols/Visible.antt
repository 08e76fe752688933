-- ===== src/Symbols/Visible.antt =====
-- Which symbol a name stands for in a scope.
use calynda_for_wii.Base.{
  ◌+◌, ℕ, zero, suc, ◌≤◌, Bool, true, ◌&&◌, Option, none, some, List, [], ◌∷◌, ltb, length, get_or,
  Bytes, ◌≡◌, ◌↔◌, inl, inr, refl, ap, ◌∙◌, arith, Option-cases,
}
use calynda_for_wii.Symbols.State.{Symbol, SymbolTable, Scope}
use calynda_for_wii.Symbols.Core.{scope_at, zero_scope}
use calynda_for_wii.Symbols.Query.{
  or_else, scope_lookup_local, symbol_table_find_import, st_lookup_in_scopes, symbol_table_lookup,
}

-- The name stands for the symbol: the scope has it, or does not and its parent resolves it; outside
-- all scopes, the imports do.
pub data Resolves (table : SymbolTable) (name : Bytes) : Option ℕ → Symbol → Type 0 where
  imported :
      {s : Symbol} → symbol_table_find_import table name ≡ some s → Resolves table name none s
  own :
      {i : ℕ} {s : Symbol}
      → scope_lookup_local table i name ≡ some s
      → Resolves table name (some i) s
  outer :
      {i : ℕ} {s : Symbol}
      → scope_lookup_local table i name ≡ none
      → Resolves table name (scope_at table i).parent s
      → Resolves table name (some i) s

-- A scope below this number, or none.
abbrev pub is_below : ℕ → Option ℕ → Bool
is_below n none = true
is_below n (some i) = ltb i n

-- The parent of every scope was made before it; the first of these scopes is number `k`.
abbrev pub parents_below : ℕ → List Scope → Bool
parents_below k [] = true
parents_below k (s ∷ scopes) = is_below k s.parent && parents_below (suc k) scopes

parent_below :
    (k i : ℕ) (scopes : List Scope)
    → parents_below k scopes ≡ true
    → is_below (k + i) (get_or scopes i zero_scope).parent ≡ true
parent_below k i [] h = refl
parent_below k zero (s ∷ scopes) h =
    let same : k + 0 ≡ k = omega arith in rw same (ground (arith, h))
parent_below k (suc i) (s ∷ scopes) h =
    let same : k + suc i ≡ suc k + i = omega arith in
    rw same (parent_below (suc k) i scopes (ground (arith, h)))

is_below-more :
    (m n : ℕ) (scope : Option ℕ) → is_below m scope ≡ true → m ≤ n → is_below n scope ≡ true
is_below-more m n none h k = refl
is_below-more m n (some i) h k = ground arith

next_below :
    (table : SymbolTable) (fuel i : ℕ)
    → parents_below 0 table.scopes ≡ true
    → ltb i (suc fuel) ≡ true
    → is_below fuel (scope_at table i).parent ≡ true
next_below table fuel i h below =
    let at : is_below i (scope_at table i).parent ≡ true =
      let same : 0 + i ≡ i = omega arith in rw same at (parent_below 0 i table.scopes h) in
    is_below-more i fuel (scope_at table i).parent at (ground (arith, below))

resolve_step :
    (table : SymbolTable) (name : Bytes) (fuel i : ℕ) (s : Symbol) (rest : Option Symbol)
    → scope_lookup_local table i name ≡ none
    → or_else (or_else (scope_lookup_local table i name) rest) (symbol_table_find_import table name)
      ≡ or_else rest (symbol_table_find_import table name)
resolve_step table name fuel i s rest e = rw e refl

lookup_sound :
    (fuel : ℕ) (table : SymbolTable) (scope : Option ℕ) (name : Bytes) (s : Symbol)
    → parents_below 0 table.scopes ≡ true
    → is_below fuel scope ≡ true
    → or_else (st_lookup_in_scopes fuel table scope name) (symbol_table_find_import table name)
      ≡ some s
    → Resolves table name scope s
unfolding st_lookup_in_scopes
lookup_sound fuel table none name s h below e = imported e
lookup_sound zero table (some i) name s h below e = absurd (ground arith)
lookup_sound (suc fuel) table (some i) name s h below e =
    elim (Option-cases (scope_lookup_local table i name)) [
      | inr (t, found) ↦ let same : t ≡ s = cc (rw found at e) in own (found ∙ ap some same)
      | inl missing ↦ outer missing (
          lookup_sound fuel table (scope_at table i).parent name s h
            (next_below table fuel i h below) (rw missing at e))
    ]

lookup_complete :
    (fuel : ℕ) (table : SymbolTable) (scope : Option ℕ) (name : Bytes) (s : Symbol)
    → parents_below 0 table.scopes ≡ true
    → is_below fuel scope ≡ true
    → Resolves table name scope s
    → or_else (st_lookup_in_scopes fuel table scope name) (symbol_table_find_import table name)
      ≡ some s
unfolding st_lookup_in_scopes
lookup_complete fuel table none name s h below (imported e) = e
lookup_complete zero table (some i) name s h below r = absurd (ground arith)
lookup_complete (suc fuel) table (some i) name s h below (own e) = rw e refl
lookup_complete (suc fuel) table (some i) name s h below (outer missing r) = rw missing (
    lookup_complete fuel table (scope_at table i).parent name s h (next_below table fuel i h below)
      r)

-- Where the parent of every scope was made before it, the look-up of a name gives a symbol exactly
-- where the name stands for it: the innermost scope around that declares the name decides, and the
-- imports only where no scope does.
pub symbol_table_lookup-Resolves :
    (table : SymbolTable) (scope : Option ℕ) (name : Bytes) (s : Symbol)
    → parents_below 0 table.scopes ≡ true
    → is_below (length table.scopes) scope ≡ true
    → (symbol_table_lookup table scope name ≡ some s) ↔ Resolves table name scope s
unfolding symbol_table_lookup
symbol_table_lookup-Resolves table scope name s h below = (
  lookup_sound (length table.scopes) table scope name s h below,
  lookup_complete (length table.scopes) table scope name s h below,
)

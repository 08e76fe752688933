-- ===== src/Symbols/Resolved.antt =====
-- What the walk does with an identifier.
use calynda_for_wii.Symbols.Frames.{
  scope_at-middle, length-shapes, open_scope, shapes, Shape, Chain, entry_of,
}
use calynda_for_wii.Symbols.Tree.{AstSourceSpan}
use calynda_for_wii.Symbols.Scoping.{
  or_outer, find_in_frames, resolve, resolve_by_wildcard, resolve_by, find_wildcard_entry, Frame,
  find_entry, resolve_to, Entry, Names,
}
use calynda_for_wii.Symbols.Query.{
  is_named, scope_lookup_local, or_else, find_named, symbol_table_find_import, symbol_table_lookup,
  st_lookup_in_scopes,
}
use calynda_for_wii.Symbols.State.{UnresolvedIdentifier, SymbolTable, SymbolResolution, Symbol}
use calynda_for_wii.Symbols.Walk.{
  synthetic_symbol, append_synthetic, resolved_symbol, append_resolution, find_wildcard,
  st_try_wildcard_resolve, analyze_identifier,
}
use calynda_for_wii.Symbols.Core.{
  scope_at, st_unresolved_append, st_imports_append, st_resolutions_append,
}
use calynda_for_wii.Base.{
  append-nil, ℕ, zero, suc, ◌≤◌, Bool, true, false, Option, none, some, List, [], ◌∷◌, ◌++◌, map,
  length, length-append, Bytes, append_assoc, ◌≡◌, inl, inr, refl, sym, ap, ◌∙◌, arith, Bool-cases,
}
use mathlib.Core.List.{map-append}

abbrev pub entry_if : Option Symbol → Option Entry
entry_if none = none
entry_if (some s) = some (entry_of s)

abbrev pub node_of : SymbolResolution → ℕ × ℕ
node_of r = (r.identifier, r.symbol.declaration)

abbrev pub node_of_unresolved : UnresolvedIdentifier → ℕ
node_of_unresolved u = u.identifier

-- What a table says of the names of a program.
abbrev pub names_of : SymbolTable → Names
names_of table = record {
  imports = map entry_of table.imports;
  resolved = map node_of table.resolutions;
  unresolved = map node_of_unresolved table.unresolved_identifiers;
}

pub find_named-entry :
    (l : List Symbol) (name : Bytes)
    → entry_if (find_named l name) ≡ find_entry (map entry_of l) name
find_named-entry [] name = refl
find_named-entry (s ∷ l) name = elim (Bool-cases (is_named s.name name)) [
  | inl e ↦ rw e refl
  | inr e ↦ rw e (find_named-entry l name)
]

or_else-entry : (a b : Option Symbol) → entry_if (or_else a b) ≡ or_outer (entry_if a) (entry_if b)
or_else-entry none b = refl
or_else-entry (some s) b = refl

find_wildcard-entry :
    (l : List Symbol) → entry_if (find_wildcard l) ≡ find_wildcard_entry (map entry_of l)
find_wildcard-entry [] = refl
find_wildcard-entry (s ∷ l) = elim (Bool-cases s.is_wildcard_import) [
  | inl e ↦ rw e refl
  | inr e ↦ rw e (find_wildcard-entry l)
]

lookup_step :
    (fuel : ℕ) (table : SymbolTable) (scope : ℕ) (name : Bytes)
    → st_lookup_in_scopes (suc fuel) table (some scope) name
      ≡ or_else
          (find_named (scope_at table scope).symbols name)
          (st_lookup_in_scopes fuel table (scope_at table scope).parent name)
unfolding st_lookup_in_scopes scope_lookup_local
lookup_step fuel table scope name = refl

lookup_outside :
    (fuel : ℕ) (table : SymbolTable) (name : Bytes)
    → st_lookup_in_scopes fuel table none name ≡ none
unfolding st_lookup_in_scopes
lookup_outside fuel table name = refl

-- The loop over the parents goes through the frames.
lookup-Chain :
    (env : List Frame) (fuel : ℕ) (table : SymbolTable) (h rest : List Shape) (scope : Option ℕ)
    (name : Bytes)
    → shapes table ≡ h ++ rest
    → Chain h scope env
    → length h ≤ fuel
    → entry_if (st_lookup_in_scopes fuel table scope name) ≡ find_in_frames env name
lookup-Chain [] fuel table h rest scope name e c enough =
    rw (c, lookup_outside fuel table name) refl
lookup-Chain (frame ∷ env) zero table h rest scope name e (l, q, parent, at_l, split, c) enough =
    let size = ap length split ∙ length-append l (open_scope parent frame ∷ q) in
    absurd (omega (arith, size, enough))
lookup-Chain (frame ∷ env) (suc fuel) table h rest scope name e (l, q, parent, at_l, split, c)
      enough =
    let size = ap length split ∙ length-append l (open_scope parent frame ∷ q) in
    let whole : shapes table ≡ l ++ open_scope parent frame ∷ (q ++ rest) =
      e ∙ ap (λ k. k ++ rest) split ∙ append_assoc l (open_scope parent frame ∷ q) rest in
    let here = scope_at-middle table l (q ++ rest) (open_scope parent frame) whole in
    let up : (scope_at table (length l)).parent ≡ parent = ap (λ s. s.parent) here in
    let own : entry_if (find_named (scope_at table (length l)).symbols name)
        ≡ find_entry frame name =
      find_named-entry (scope_at table (length l)).symbols name
      ∙ ap (λ s. find_entry s.frame name) here in
    let outer : entry_if (st_lookup_in_scopes fuel table parent name) ≡ find_in_frames env name =
      lookup-Chain env fuel table l (open_scope parent frame ∷ (q ++ rest)) parent name whole c
        (omega (arith, size, enough)) in
    rw (at_l, lookup_step fuel table (length l) name, up)
      (or_else-entry (find_named (scope_at table (length l)).symbols name)
          (st_lookup_in_scopes fuel table parent name)
        ∙ rw (own, outer) refl)

-- The walk goes on with the same scopes and errors.
pub record IsNamed (before after : SymbolTable) (names : Names) : Type 0 where
  pub names_are : names_of after ≡ names
  pub same_scopes : after.scopes ≡ before.scopes
  pub same_error : after.has_error ≡ before.has_error

symbol_table_lookup-entry :
    (table : SymbolTable) (scope : ℕ) (env : List Frame) (name : Bytes)
    → Chain (shapes table) (some scope) env
    → entry_if (symbol_table_lookup table (some scope) name)
      ≡ or_outer (find_in_frames env name) (find_entry (map entry_of table.imports) name)
unfolding symbol_table_lookup symbol_table_find_import
symbol_table_lookup-entry table scope env name c =
    let size = length-shapes table.scopes in
    or_else-entry _ (find_named table.imports name)
    ∙ rw
        (
          lookup-Chain env (length table.scopes) table (shapes table) [] (some scope) name
              (sym (append-nil (shapes table))) c (omega (arith, size)),
          find_named-entry table.imports name,
        )
        refl

found : Option Symbol → Bool
found none = false
found (some s) = true

resolution-IsNamed :
    (node scope : ℕ) (span : AstSourceSpan) (s : Symbol) (table : SymbolTable)
    → IsNamed table
        (st_resolutions_append node span scope s table)
        (resolve_to node s.declaration (names_of table))
unfolding st_resolutions_append
resolution-IsNamed node scope span s table = record {
  names_are =
      ap (λ k. record (names_of table) { resolved = k }) (map-append node_of table.resolutions _);
  same_scopes = refl;
  same_error = refl;
}

wildcard-IsNamed :
    (w : Option Symbol) (node scope : ℕ) (span : AstSourceSpan) (name : Bytes) (table : SymbolTable)
    → (after : SymbolTable) × (append_resolution node span scope
          (append_synthetic w name scope table)
        ≡ (true, after))
      × IsNamed table after (resolve_by_wildcard (entry_if w) node name (names_of table))
unfolding st_imports_append st_resolutions_append st_unresolved_append
wildcard-IsNamed none node scope span name table = (
  st_unresolved_append node span scope table,
  refl,
  record {
    names_are =
        ap (λ k. record (names_of table) { unresolved = k })
          (map-append node_of_unresolved table.unresolved_identifiers _);
    same_scopes = refl;
    same_error = refl;
  },
)
wildcard-IsNamed (some w) node scope span name table =
    let s = synthetic_symbol w name scope in
    (
      st_resolutions_append node span scope s (st_imports_append s table),
      refl,
      record {
        names_are =
            rw (map-append entry_of table.imports (s ∷ []), map-append node_of table.resolutions _)
              refl;
        same_scopes = refl;
        same_error = refl;
      },
    )

resolved-IsNamed :
    (o : Option Symbol) (node scope : ℕ) (span : AstSourceSpan) (name : Bytes) (table : SymbolTable)
    → (after : SymbolTable) × (append_resolution node span scope
          (resolved_symbol o name scope table)
        ≡ (true, after))
      × IsNamed table after (resolve_by (entry_if o) node name (names_of table))
unfolding st_try_wildcard_resolve
resolved-IsNamed (some s) node scope span name table = (
  st_resolutions_append node span scope s table,
  refl,
  resolution-IsNamed node scope span s table,
)
resolved-IsNamed none node scope span name table =
    rw (sym (find_wildcard-entry table.imports))
      (wildcard-IsNamed (find_wildcard table.imports) node scope span name table)

-- An identifier gets the declaration that the scoping rules give it.
pub analyze_identifier-IsNamed :
    (node scope : ℕ) (span : AstSourceSpan) (name : Bytes) (env : List Frame) (table : SymbolTable)
    → Chain (shapes table) (some scope) env
    → (after : SymbolTable) × (analyze_identifier node span name scope table ≡ (true, after))
      × IsNamed table after (resolve node name env (names_of table))
unfolding analyze_identifier
analyze_identifier-IsNamed node scope span name env table c =
    rw (sym (symbol_table_lookup-entry table scope env name c))
      (resolved-IsNamed (symbol_table_lookup table (some scope) name) node scope span name table)

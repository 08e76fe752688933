-- ===== src/Symbols/Shadows.antt =====
-- What the declaration of a local binding changes.
use calynda_for_wii.Base.{
  ℕ, zero, suc, ◌<◌, true, false, Option, none, some, List, [], ◌∷◌, ◌++◌, ◌==◌, if◌then◌else◌,
  length, get_or-set, length-set, Bytes, bytes_eq, ◌≡◌, ◌⊎◌, inl, inr, refl, ap, ◌∙◌, arith,
  Bool-cases, Option-cases,
}
use calynda_for_wii.Symbols.Ast.{AstSourceSpan, AstLocalBindingStatement}
use calynda_for_wii.Symbols.State.{ErrorText, Symbol, SymbolTable, Scope}
use calynda_for_wii.Symbols.Core.{st_set_error_at, scope_at, zero_scope, st_scope_append_symbol}
use calynda_for_wii.Symbols.Query.{
  is_named, find_named, or_else, scope_lookup_local, symbol_table_lookup, st_lookup_in_scopes,
  symbol_table_find_import,
}
use calynda_for_wii.Symbols.Locals.{local_symbol, st_add_local_symbol}
use calynda_for_wii.Symbols.Added.{set_error-has_error}

-- The symbol, if it has this name.
abbrev pub if_named : Symbol → Bytes → Option Symbol
if_named s name = if is_named s.name name then some s else none

find_named-snoc :
    (l : List Symbol) (s : Symbol) (name : Bytes)
    → find_named (l ++ s ∷ []) name ≡ or_else (find_named l name) (if_named s name)
find_named-snoc [] s name = refl
find_named-snoc (t ∷ l) s name = elim (Bool-cases (is_named t.name name)) [
  | inl here ↦ rw here refl
  | inr other ↦ rw other (find_named-snoc l s name)
]

or_else-none : (o : Option Symbol) → o ≡ or_else o none
or_else-none none = refl
or_else-none (some s) = refl

-- What a look-up in one scope gives once a symbol is added to a scope.
append_symbol-lookup :
    (scope i : ℕ) (symbol : Symbol) (table : SymbolTable) (name : Bytes)
    → scope < length table.scopes
    → scope_lookup_local (st_scope_append_symbol scope symbol table) i name
      ≡ or_else
          (scope_lookup_local table i name)
          (if i == scope then if_named symbol name else none)
unfolding scope_lookup_local st_scope_append_symbol
append_symbol-lookup scope i symbol table name h =
    let old = scope_at table scope in
    let new : Scope = record old { symbols = old.symbols ++ symbol ∷ [] } in
    ap (λ s. find_named s.symbols name) (get_or-set table.scopes scope i new zero_scope h)
    ∙ elim (Bool-cases (i == scope)) [
      | inl e ↦
          let here : i ≡ scope = ground (arith, e) in
          rw (e, here) (find_named-snoc old.symbols symbol name)
      | inr e ↦ rw e (or_else-none (find_named (scope_at table i).symbols name))
    ]

-- A symbol of the scope itself is what a look-up from there gives.
lookup_own :
    (fuel : ℕ) (table : SymbolTable) (scope : ℕ) (name : Bytes) (s : Symbol)
    → 0 < fuel
    → scope_lookup_local table scope name ≡ some s
    → or_else
        (st_lookup_in_scopes fuel table (some scope) name)
        (symbol_table_find_import table name)
      ≡ some s
unfolding st_lookup_in_scopes
lookup_own zero table scope name s h e = absurd (omega (arith, h))
lookup_own (suc fuel) table scope name s h e = rw e refl

symbol_table_lookup_own :
    (table : SymbolTable) (scope : ℕ) (name : Bytes) (s : Symbol)
    → 0 < length table.scopes
    → scope_lookup_local table scope name ≡ some s
    → symbol_table_lookup table (some scope) name ≡ some s
unfolding symbol_table_lookup
symbol_table_lookup_own table scope name s h e =
    lookup_own (length table.scopes) table scope name s h e

append_symbol_keeps :
    (scope : ℕ) (symbol : Symbol) (table : SymbolTable)
    → (length (st_scope_append_symbol scope symbol table).scopes ≡ length table.scopes)
      × ((st_scope_append_symbol scope symbol table).imports ≡ table.imports)
unfolding st_scope_append_symbol
append_symbol_keeps scope symbol table = (length-set table.scopes scope _, refl)

bytes_eq_self : (name : Bytes) → bytes_eq name name ≡ true
bytes_eq_self [] = refl
bytes_eq_self (b ∷ name) = ground (arith, bytes_eq_self name)

found_own :
    (binding : AstLocalBindingStatement) (scope : ℕ)
    → or_else none
        (if scope == scope then if_named (local_symbol binding scope) binding.name else none)
      ≡ some (local_symbol binding scope)
found_own binding scope =
    let self : (scope == scope) ≡ true = ground arith in rw (self, bytes_eq_self binding.name) refl

set_error-scopes :
    (primary related : AstSourceSpan) (text : ErrorText) (table : SymbolTable)
    → (st_set_error_at primary related text table).scopes ≡ table.scopes
unfolding st_set_error_at
set_error-scopes primary related text table = ground arith

-- The binding is declared: a look-up from its scope gives it, and the look-up of a name in one scope
-- is as before, but that it may find the binding in its scope where it found nothing.
pub record IsShadowed (binding : AstLocalBindingStatement) (scope : ℕ) (before after : SymbolTable)
    : Type 0 where
  pub lookup_is :
      symbol_table_lookup after (some scope) binding.name ≡ some (local_symbol binding scope)
  pub others :
      (i : ℕ) (name : Bytes)
      → scope_lookup_local after i name
        ≡ or_else
            (scope_lookup_local before i name)
            (if i == scope then if_named (local_symbol binding scope) name else none)
  pub imports_are : after.imports ≡ before.imports

-- A local binding is declared exactly where its scope has no symbol of its name. Then a look-up of the
-- name from the scope gives the binding, and in every scope every name that was found is found as
-- before; otherwise the scopes stay as they are, and there is an error.
pub st_add_local_symbol-IsShadowed :
    (binding : AstLocalBindingStatement) (scope : ℕ) (table : SymbolTable)
    → scope < length table.scopes
    → ((scope_lookup_local table scope binding.name ≡ none)
        × (after : SymbolTable) × (st_add_local_symbol binding scope table ≡ (true, after))
        × IsShadowed binding scope table after)
      ⊎ ((s : Symbol) × (scope_lookup_local table scope binding.name ≡ some s)
          × ((st_add_local_symbol binding scope table).0 ≡ false)
          × ((st_add_local_symbol binding scope table).1.has_error ≡ true)
          × ((st_add_local_symbol binding scope table).1.scopes ≡ table.scopes))
unfolding st_add_local_symbol
st_add_local_symbol-IsShadowed binding scope table h =
    elim (Option-cases (scope_lookup_local table scope binding.name)) [
      | inl free ↦
          let symbol = local_symbol binding scope in
          let after = st_scope_append_symbol scope symbol table in
          let keeps = append_symbol_keeps scope symbol table in
          let others = λ (i : ℕ) (name : Bytes). append_symbol-lookup scope i symbol table name h in
          inl (
            free,
            after,
            rw free refl,
            record {
              lookup_is =
                  symbol_table_lookup_own after scope binding.name symbol
                    (omega (arith, keeps.0, h))
                    (others scope binding.name ∙ rw free (found_own binding scope));
              others = others;
              imports_are = keeps.1;
            },
          )
      | inr (s, used) ↦ inr (
        s,
        used,
        rw used refl,
        rw used (set_error-has_error _ _ _ table),
        rw used (set_error-scopes _ _ _ table),
      )
    ]

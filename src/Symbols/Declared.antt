-- ===== src/Symbols/Declared.antt =====
-- What `symbol_table_build` has declared when it goes on to the bodies.
use calynda_for_wii.Base.{
  ℕ, Bool, true, false, not, ◌&&◌, ◌||◌, Option, none, some, List, [], ◌∷◌, ◌++◌, Bytes, append-nil,
  append_assoc, ◌≡◌, ◌⊎◌, inl, inr, refl, sym, ap, ◌∙◌, arith,
}
use calynda_for_wii.Symbols.Ast.{
  AstSourceSpan, AstTopLevelDecl, top_level_start, top_level_boot, top_level_binding,
  top_level_union, top_level_extern,
}
use calynda_for_wii.Symbols.State.{Symbol, SymbolKind, kind_extern, Scope, SymbolTable}
use calynda_for_wii.Symbols.Core.{st_scope_append_symbol}
use calynda_for_wii.Symbols.Query.{
  find_named, or_else, scope_lookup_local, symbol_table_find_import,
}
use calynda_for_wii.Symbols.Imports.{◌>>=◌}
use calynda_for_wii.Symbols.Predeclare.{
  binding_symbol, union_symbol, extern_symbol, declare, predeclare,
  st_predeclare_top_level_bindings,
}
use calynda_for_wii.Symbols.Names.{fresh, fresh-append, find_named-cases, named_in, repeats}
use calynda_for_wii.Symbols.Added.{set_error-has_error, stops}

-- The symbol of a declaration, if it has one.
abbrev pub top_symbol : ℕ → AstTopLevelDecl → List Symbol
top_symbol root (top_level_start decl) = []
top_symbol root (top_level_boot decl) = []
top_symbol root (top_level_binding decl) = binding_symbol decl root ∷ []
top_symbol root (top_level_union decl) = union_symbol decl root ∷ []
top_symbol root (top_level_extern decl) = extern_symbol decl root ∷ []

abbrev pub top_symbols : ℕ → List AstTopLevelDecl → List Symbol
top_symbols root [] = []
top_symbols root (decl ∷ decls) = top_symbol root decl ++ top_symbols root decls

abbrev is_extern : SymbolKind → Bool
is_extern kind_extern = true
is_extern _ = false

-- Only external declarations may have the name of an import.
abbrev pub allowed : List Symbol → List Symbol → Bool
allowed imports [] = true
allowed imports (s ∷ l) = (is_extern s.kind || not (repeats s.name imports)) && allowed imports l

-- The table whose only scope is the root, with these symbols.
abbrev pub rooted : SymbolTable → Scope → List Symbol → SymbolTable
rooted base root l = record base { scopes = record root { symbols = l } ∷ [] }

-- All of the symbols are declared after `l`, or one of them clashes and there is an error.
abbrev pub Declares : Bool × SymbolTable → SymbolTable → Scope → List Symbol → List Symbol → Type 0
Declares r base root l m =
    (((fresh l m && allowed base.imports m) ≡ true) × (r ≡ (true, rooted base root (l ++ m))))
    ⊎ (((fresh l m && allowed base.imports m) ≡ false) × (r.0 ≡ false) × (r.1.has_error ≡ true))

Declares-nothing :
    (base : SymbolTable) (root : Scope) (l : List Symbol)
    → Declares (true, rooted base root l) base root l []
Declares-nothing base root l = inl (refl, ap (λ k. (true, rooted base root k)) (sym (append-nil l)))

allowed-append :
    (imports l m : List Symbol)
    → allowed imports (l ++ m) ≡ (allowed imports l && allowed imports m)
allowed-append imports [] m = refl
allowed-append imports (s ∷ l) m = ground (arith, allowed-append imports l m)

four : (a b c d : Bool) → ((a && b) && (c && d)) ≡ ((a && c) && (b && d))
four a b c d = ground arith

clash-append :
    (imports l m n : List Symbol)
    → (fresh l (m ++ n) && allowed imports (m ++ n))
      ≡ ((fresh l m && allowed imports m) && (fresh (l ++ m) n && allowed imports n))
clash-append imports l m n =
    rw (fresh-append l m n, allowed-append imports m n)
      (four (fresh l m) (fresh (l ++ m) n) (allowed imports m) (allowed imports n))

Declares-then :
    (r : Bool × SymbolTable) (f : SymbolTable → Bool × SymbolTable) (base : SymbolTable)
    (root : Scope) (l m n : List Symbol)
    → Declares r base root l m
    → Declares (f (rooted base root (l ++ m))) base root (l ++ m) n
    → Declares (r >>= f) base root l (m ++ n)
Declares-then r f base root l m n first second = elim first [
  | inr (used, e, h) ↦
      let (stop, h') = stops r f e h in
      inr (clash-append base.imports l m n ∙ rw used refl, stop, h')
  | inl (new, e) ↦ elim second [
    | inl (new', e') ↦ inl (
      clash-append base.imports l m n ∙ rw (new, new') refl,
      ap (λ x. x >>= f) e ∙ e' ∙ ap (λ k. (true, rooted base root k)) (append_assoc l m n),
    )
    | inr (used, stop, h) ↦ inr (
      clash-append base.imports l m n ∙ rw (new, used) refl,
      ap (λ x. (x >>= f).0) e ∙ stop,
      ap (λ x. (x >>= f).1.has_error) e ∙ h,
    )
  ]
]

-- What conflicts with a name.
conflict-cases :
    (l imports : List Symbol) (name : Bytes)
    → (((not (named_in name l) && not (named_in name imports)) ≡ true)
        × (or_else (find_named l name) (find_named imports name) ≡ none))
      ⊎ (((not (named_in name l) && not (named_in name imports)) ≡ false)
          × (s : Symbol) × (or_else (find_named l name) (find_named imports name) ≡ some s))
conflict-cases l imports name = elim (find_named-cases l name) [
  | inr (there, s, e) ↦ inr (rw there refl, s, rw e refl)
  | inl (nowhere, e) ↦ elim (find_named-cases imports name) [
    | inr (there, s, e') ↦ inr (rw (nowhere, there) refl, s, rw (e, e') refl)
    | inl (nowhere', e') ↦ inl (rw (nowhere, nowhere') refl, rw (e, e') refl)
  ]
]

declare-Declares :
    (conflicting : Option Symbol) (name : Bytes) (span : AstSourceSpan) (symbol : Symbol)
    (base : SymbolTable) (root : Scope) (l : List Symbol)
    → ((((fresh l (symbol ∷ []) && allowed base.imports (symbol ∷ [])) ≡ true)
          × (conflicting ≡ none))
        ⊎ (((fresh l (symbol ∷ []) && allowed base.imports (symbol ∷ [])) ≡ false)
            × (s : Symbol) × (conflicting ≡ some s)))
    → Declares
        (declare conflicting name span 0 symbol (rooted base root l))
        base
        root
        l
        (symbol ∷ [])
unfolding st_scope_append_symbol
declare-Declares conflicting name span symbol base root l c = elim c [
  | inl (new, e) ↦ inl (new, rw e refl)
  | inr (used, s, e) ↦ inr (used, rw e refl, rw e (set_error-has_error _ _ _ (rooted base root l)))
]

three : (a b : Bool) → (((not a) && true) && ((not b) && true)) ≡ (not a && not b)
three a b = ground arith

unique-Declares :
    (name : Bytes) (span : AstSourceSpan) (symbol : Symbol) (base : SymbolTable) (root : Scope)
    (l : List Symbol)
    → (fresh l (symbol ∷ []) && allowed base.imports (symbol ∷ []))
      ≡ (not (named_in name l) && not (named_in name base.imports))
    → Declares
        (declare
          (or_else (find_named l name) (find_named base.imports name))
          name
          span
          0
          symbol
          (rooted base root l))
        base
        root
        l
        (symbol ∷ [])
unique-Declares name span symbol base root l same =
    declare-Declares _ name span symbol base root l (elim (conflict-cases l base.imports name) [
      | inl (new, e) ↦ inl (same ∙ new, e)
      | inr (used, s, e) ↦ inr (same ∙ used, s, e)
    ])

predeclare-Declares :
    (decl : AstTopLevelDecl) (base : SymbolTable) (root : Scope) (l : List Symbol)
    → Declares (predeclare 0 decl (rooted base root l)) base root l (top_symbol 0 decl)
unfolding predeclare scope_lookup_local symbol_table_find_import
predeclare-Declares (top_level_start decl) base root l = Declares-nothing base root l
predeclare-Declares (top_level_boot decl) base root l = Declares-nothing base root l
predeclare-Declares (top_level_binding decl) base root l =
    unique-Declares decl.name decl.name_span (binding_symbol decl 0) base root l
      (three (named_in decl.name l) (named_in decl.name base.imports))
predeclare-Declares (top_level_union decl) base root l =
    unique-Declares decl.name decl.name_span (union_symbol decl 0) base root l
      (three (named_in decl.name l) (named_in decl.name base.imports))
predeclare-Declares (top_level_extern decl) base root l =
    declare-Declares (find_named l decl.name) decl.name decl.name_span (extern_symbol decl 0) base
      root l
      (elim (find_named-cases l decl.name) [
        | inl (nowhere, e) ↦ inl (rw nowhere refl, e)
        | inr (there, s, e) ↦ inr (rw there refl, s, e)
      ])

pub st_predeclare-Declares :
    (decls : List AstTopLevelDecl) (base : SymbolTable) (root : Scope) (l : List Symbol)
    → Declares
        (st_predeclare_top_level_bindings 0 decls (rooted base root l))
        base
        root
        l
        (top_symbols 0 decls)
unfolding st_predeclare_top_level_bindings
st_predeclare-Declares [] base root l = Declares-nothing base root l
st_predeclare-Declares (decl ∷ decls) base root l =
    Declares-then (predeclare 0 decl (rooted base root l))
      (st_predeclare_top_level_bindings 0 decls) base root l (top_symbol 0 decl)
      (top_symbols 0 decls) (predeclare-Declares decl base root l)
      (st_predeclare-Declares decls base root (l ++ top_symbol 0 decl))

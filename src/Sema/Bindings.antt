-- ===== src/Sema/Bindings.antt =====
-- The scan ahead for local bindings (compiler/src/parser/parser_lookahead.c) at the heads that
-- compiler/src/parser/parser_stmt.c reads, and at the order of modifiers that
-- compiler/calynda_fork.ebnf gives.
use calynda_for_wii.Sema.Heads.{scan_type_pattern-Written, Reads-append, Reads}
use calynda_for_wii.Sema.PrimitiveToken.{is_primitive_type_token}
use calynda_for_wii.Sema.Lookahead.{
  is_lt, is_lbracket, is_assign, is_identifier, scan_type_pattern,
  looks_like_local_binding_statement, type_at, is_var, skip_if, is_final_token, Parser,
  is_internal_token,
}
use calynda_for_wii.Tokenizer.TokenType.{TokenType, tok_internal, tok_final, tok_var}
use calynda_for_wii.Sema.TypeText.{
  name_token, Written, TypeName, TypeTree, user_name, primitive_name, written_void, written_arr,
  written_plain, written_generic,
}
use mathlib.Core.Path.{subst}
use calynda_for_wii.Base.{
  ◌&&◌, length-append, ℕ, suc, ◌+◌, Bool, true, false, some, List, [], ◌∷◌, ◌++◌, append_assoc,
  length, ◌≡◌, ◌⊎◌, inl, inr, refl, sym, ap, ◌∙◌, arith, if◌then◌else◌,
}

-- The type of a local binding, or `var`.
abbrev pub IsBindingType : List TokenType → Type 0
IsBindingType l = (l ≡ tok_var ∷ []) ⊎ ((t : TypeTree) × Written t l)

abbrev pub if_given : Bool → TokenType → List TokenType
if_given true t = t ∷ []
if_given false t = []

-- The modifiers of a binding: `internal` and `final` if they are given, in the order in which the
-- statement parser takes them, or both in the order of the grammar file.
pub data Modifiers : Type 0 where
  in_order : Bool → Bool → Modifiers
  final_internal : Modifiers

abbrev pub are_taken : Modifiers → Bool
are_taken (in_order internal final) = true
are_taken final_internal = false

-- The modifiers, the type, and the two tokens behind it, which in a binding are a name and `=`.
abbrev pub binding_head : Modifiers → List TokenType → TokenType → TokenType → List TokenType
binding_head final_internal l next after = tok_final ∷ tok_internal ∷ (l ++ next ∷ after ∷ [])
binding_head (in_order internal final) l next after =
    if_given internal tok_internal ++ (if_given final tok_final ++ (l ++ next ∷ after ∷ []))

-- The first token of a type is no modifier.
abbrev is_modifier : TokenType → Bool
is_modifier tok_internal = true
is_modifier tok_final = true
is_modifier tok_var = true
is_modifier _ = false

primitive-is_modifier : (t : TokenType) → is_primitive_type_token t ≡ true → is_modifier t ≡ false
unfolding is_primitive_type_token
primitive-is_modifier tok_internal h = cc
primitive-is_modifier tok_final h = cc
primitive-is_modifier tok_var h = cc
primitive-is_modifier _ h = refl

name-is_modifier : (name : TypeName) → is_modifier (name_token name) ≡ false
name-is_modifier user_name = refl
name-is_modifier (primitive_name t h) = primitive-is_modifier t h

Written-starts :
    (t : TypeTree) (l : List TokenType)
    → Written t l
    → (u : TokenType) × (m : List TokenType) × (l ≡ u ∷ m) × (is_modifier u ≡ false)
Written-starts _ l written_void = (_, _, refl, refl)
Written-starts _ l (written_arr g) = (_, _, refl, refl)
Written-starts _ l (written_plain {name}) = (_, _, refl, name-is_modifier name)
Written-starts _ l (written_generic {name} g) = (_, _, refl, name-is_modifier name)

no_modifier :
    (t : TokenType)
    → is_modifier t ≡ false
    → (is_internal_token t ≡ false) × (is_final_token t ≡ false) × (is_var t ≡ false)
no_modifier tok_internal h = cc
no_modifier tok_final h = cc
no_modifier tok_var h = cc
no_modifier _ h = (refl, refl, refl)

-- An optional token is skipped.
skip_if-Reads :
    (test : TokenType → Bool) (given : Bool) (t : TokenType) (l : List TokenType) (parser : Parser)
    (i : ℕ) (u : TokenType)
    → test t ≡ true
    → test u ≡ false
    → Reads parser i (if_given given t ++ u ∷ l)
    → (skip_if test parser i ≡ i + length (if_given given t))
      × Reads parser (i + length (if_given given t)) (u ∷ l)
skip_if-Reads test true t l parser i u takes fails (e, b, h) =
    let same : i + 1 ≡ suc i = omega arith in (rw (ap test e ∙ takes, same) refl, rw same h)
skip_if-Reads test false t l parser i u takes fails (e, b, h) =
    let same : i + 0 ≡ i = omega arith in (rw (ap test e ∙ fails, same) refl, rw same (e, b, h))

-- The type of a binding ends in front of its name.
type-Reads :
    (parser : Parser) (i : ℕ) (u next after : TokenType) (m : List TokenType)
    → is_lbracket next ≡ false
    → is_lt next ≡ false
    → IsBindingType (u ∷ m)
    → Reads parser i (u ∷ m ++ next ∷ after ∷ [])
    → (if is_var (type_at parser i) then some (true, suc i) else scan_type_pattern parser i)
      ≡ some (true, i + length (u ∷ m))
type-Reads parser i u next after m plain_next no_args (inl var) (e, b, h) =
    let one : suc (length m) ≡ 1 = ap length var in
    let same : i + suc (length m) ≡ suc i = omega (arith, one) in
    let here : u ≡ tok_var = cc var in
    let is_here : is_var (type_at parser i) ≡ true = ap is_var (e ∙ here) in rw (is_here, same) refl
type-Reads parser i u next after m plain_next no_args (inr (t, w)) (e, b, h) =
    let (u', m', first, plain) = Written-starts t (u ∷ m) w in
    let same : u ≡ u' = cc first in
    let plain' : is_modifier u ≡ false = rw same plain in
    let (_, _, not_var) = no_modifier u plain' in
    let apart = append_assoc (u ∷ m) (next ∷ []) (after ∷ []) in
    let split : Reads parser i ((u ∷ m ++ next ∷ []) ++ after ∷ []) =
      subst (λ x. Reads parser i x) {y = (u ∷ m ++ next ∷ []) ++ after ∷ []} (sym apart)
        (e, b, h) in
    let front = (Reads-append parser i (u ∷ m ++ next ∷ []) (after ∷ []) split).0 in
    rw (ap is_var e ∙ not_var)
      (scan_type_pattern-Written t (u ∷ m) i next parser w front plain_next no_args)

-- The first token of a binding's type is no modifier but `var`.
type-first :
    (l : List TokenType)
    → IsBindingType l
    → (u : TokenType) × (m : List TokenType) × (l ≡ u ∷ m)
      × (is_internal_token u ≡ false)
      × (is_final_token u ≡ false)
type-first l (inl var) = (tok_var, [], var, refl, refl)
type-first l (inr (t, w)) =
    let (u, m, first, plain) = Written-starts t l w in
    let (a, b, _) = no_modifier u plain in (u, m, first, a, b)

-- The modifiers are skipped to the type.
modifiers-Reads :
    (parser : Parser) (internal final : Bool) (u next after : TokenType) (m : List TokenType)
    → is_internal_token u ≡ false
    → is_final_token u ≡ false
    → Reads parser parser.current (binding_head (in_order internal final) (u ∷ m) next after)
    → let first = parser.current + length (if_given internal tok_internal) in
      let second = first + length (if_given final tok_final) in
      (skip_if is_internal_token parser parser.current ≡ first)
      × (skip_if is_final_token parser first ≡ second)
      × Reads parser second (u ∷ m ++ next ∷ after ∷ [])
modifiers-Reads parser internal true u next after m not_internal not_final h =
    let tail = m ++ next ∷ after ∷ [] in
    let (at1, h1) =
      skip_if-Reads is_internal_token internal tok_internal (u ∷ tail) parser parser.current
        tok_final refl refl h in
    let (at2, h2) = skip_if-Reads is_final_token true tok_final tail parser _ u refl not_final h1 in
    (at1, at2, h2)
modifiers-Reads parser internal false u next after m not_internal not_final h =
    let tail = m ++ next ∷ after ∷ [] in
    let (at1, h1) =
      skip_if-Reads is_internal_token internal tok_internal tail parser parser.current u refl
        not_internal h in
    let (at2, h2) =
      skip_if-Reads is_final_token false tok_final tail parser _ u refl not_final h1 in
    (at1, at2, h2)

head-Reads :
    (parser : Parser) (internal final : Bool) (u next after : TokenType) (m : List TokenType)
    → is_lbracket next ≡ false
    → is_lt next ≡ false
    → IsBindingType (u ∷ m)
    → is_internal_token u ≡ false
    → is_final_token u ≡ false
    → Reads parser parser.current (binding_head (in_order internal final) (u ∷ m) next after)
    → (behind : ℕ) × (looks_like_local_binding_statement parser
        ≡ some (is_identifier next && is_assign after, behind))
      × (suc (suc behind)
          ≡ parser.current + length (binding_head (in_order internal final) (u ∷ m) next after))
unfolding looks_like_local_binding_statement
head-Reads parser internal final u next after m plain_next no_args k not_internal not_final h =
    let (at1, at2, h2) =
      modifiers-Reads parser internal final u next after m not_internal not_final h in
    let i =
      parser.current
      + length (if_given internal tok_internal)
      + length (if_given final tok_final) in
    let scanned = type-Reads parser i u next after m plain_next no_args k h2 in
    let (e, b, (e', b', _)) = (Reads-append parser i (u ∷ m) (next ∷ after ∷ []) h2).1 in
    let tail = u ∷ m ++ next ∷ after ∷ [] in
    let size1 = length-append (if_given internal tok_internal) (if_given final tok_final ++ tail) in
    let size2 = length-append (if_given final tok_final) tail in
    let size3 = length-append (u ∷ m) (next ∷ after ∷ []) in
    (
      i + length (u ∷ m),
      rw (at1, at2, scanned, ap is_identifier e, ap is_assign e') refl,
      omega (arith, size1, size2, size3),
    )

-- `internal` starts no type.
scan_internal :
    (parser : Parser) (i : ℕ)
    → type_at parser i ≡ tok_internal
    → scan_type_pattern parser i ≡ some (false, i)
unfolding scan_type_pattern is_primitive_type_token
scan_internal parser i e = rw (scan_type_pattern, e) refl

-- `internal` behind `final` is taken for the start of a type.
swapped-Reads :
    (parser : Parser) (l : List TokenType)
    → Reads parser parser.current (tok_final ∷ tok_internal ∷ l)
    → looks_like_local_binding_statement parser ≡ some (false, suc parser.current)
unfolding looks_like_local_binding_statement
swapped-Reads parser l (e, _, (e', _, _)) =
    rw
      (
        ap is_internal_token e,
        ap is_final_token e,
        ap is_var e',
        scan_internal parser (suc parser.current) e',
      )
      refl

-- Where the tokens from the current one on are the modifiers of a local binding, `var` or a type that
-- the parser's functions for types read, with its closing brackets joined or not, and two more tokens,
-- of which the first is neither `<` nor `[`: if the modifiers are `internal`, `final`, both in this
-- order, or none, the scan ahead stops behind the type, and recognises a binding just when the two
-- tokens are a name and `=`; behind `final internal`, the order of the grammar file, it recognises
-- none and stops at `internal`.
pub looks_like_local_binding_statement-Reads :
    (parser : Parser) (m : Modifiers) (l : List TokenType) (next after : TokenType)
    → is_lbracket next ≡ false
    → is_lt next ≡ false
    → IsBindingType l
    → Reads parser parser.current (binding_head m l next after)
    → (behind : ℕ) × (looks_like_local_binding_statement parser
        ≡ some (are_taken m && (is_identifier next && is_assign after), behind))
      × (suc (suc behind)
          ≡ parser.current + (if are_taken m then length (binding_head m l next after) else 3))
looks_like_local_binding_statement-Reads parser final_internal l next after plain_next no_args k h =
    (_, swapped-Reads parser (l ++ next ∷ after ∷ []) h, omega arith)
looks_like_local_binding_statement-Reads parser (in_order internal final) l next after plain_next
      no_args k h =
    let (u, m, first, not_internal, not_final) = type-first l k in
    let (behind, found, place) =
      head-Reads parser internal final u next after m plain_next no_args
        (subst IsBindingType {y = u ∷ m} first k) not_internal not_final
        (subst
          (λ x. Reads parser parser.current (binding_head (in_order internal final) x next after))
          {y = u ∷ m} first h) in
    (behind, found, rw first place)

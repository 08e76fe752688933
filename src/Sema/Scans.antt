-- ===== src/Sema/Scans.antt =====
-- The scans ahead end, in a list of tokens that ends with that of the end of the file.
use calynda_for_wii.Sema.PrimitiveToken.{is_primitive_type_token}
use calynda_for_wii.Tokenizer.Position.{Token}
use calynda_for_wii.Sema.Lookahead.{
  is_assign, is_identifier, is_var, is_internal_token, is_final_token, skip_if, scan_type_pattern,
  looks_like_local_binding_statement, is_rbracket, is_lbracket, is_int_lit, is_lt, type_at,
  last_token, scan_generic_args_pattern, generic_args, dimensions, ◌⇒◌, behind_name, Parser,
}
use calynda_for_wii.Tokenizer.TokenType.{
  TokenType, tok_void, tok_arr, tok_identifier, tok_eof, tok_lt, tok_gt, tok_rshift,
}
use calynda_for_wii.Base.{
  ◌&&◌, ℕ, zero, suc, ◌+◌, ◌-◌, ◌≤◌, ◌<◌, Bool, true, false, Option, some, List, [], ◌∷◌, length,
  get_or, ltb, leb, ◌≡◌, inl, inr, refl, ap, arith, Bool-cases, if◌then◌else◌,
}

-- A scan gives a result.
abbrev pub Ends : Option (Bool × ℕ) → Type 0
Ends o = (r : Bool × ℕ) × (o ≡ some r)

Ends-then :
    (o : Option (Bool × ℕ)) (f : ℕ → Option (Bool × ℕ))
    → Ends o
    → ((i : ℕ) → Ends (f i))
    → Ends (o ⇒ f)
Ends-then o f ((true, i), e) rest = let (r, e') = rest i in (r, rw e e')
Ends-then o f ((false, i), e) rest = ((false, i), rw e refl)

get_or-behind : (l : List Token) (i : ℕ) (d : Token) → length l ≤ i → get_or l i d ≡ d
get_or-behind [] i d h = refl
get_or-behind (t ∷ l) zero d h = absurd (omega (arith, h))
get_or-behind (t ∷ l) (suc i) d h = get_or-behind l i d (omega (arith, h))

-- Behind the end stands the token of the end of the file, so another one stands inside.
stands_inside :
    (parser : Parser) (i : ℕ) (test : TokenType → Bool)
    → (last_token parser.tokens).type ≡ tok_eof
    → test tok_eof ≡ false
    → test (type_at parser i) ≡ true
    → i < length parser.tokens
stands_inside parser i test last fails takes = elim (Bool-cases (leb (length parser.tokens) i)) [
  | inr inside ↦ ground (arith, inside)
  | inl behind ↦
      let same =
        ap (λ (t : Token). test t.type)
          (get_or-behind parser.tokens i (last_token parser.tokens) (ground (arith, behind))) in
      absurd (cc (same, ap test last, fails, takes))
]

abbrev is_no_eof : TokenType → Bool
is_no_eof tok_eof = false
is_no_eof _ = true

round-Ends :
    (t : TokenType) (fuel depth i : ℕ) (parser : Parser)
    → type_at parser i ≡ t
    → (is_no_eof t ≡ true → (d : ℕ) → Ends (generic_args fuel parser d (suc i)))
    → Ends (generic_args (suc fuel) parser (suc depth) i)
unfolding generic_args
round-Ends tok_eof fuel depth i parser e rest = ((false, i), rw (e, generic_args) refl)
round-Ends tok_lt fuel depth i parser e rest =
    let (r, e') = rest refl (suc (suc depth)) in (r, rw (e, generic_args) e')
round-Ends tok_gt fuel depth i parser e rest =
    let (r, e') = rest refl depth in (r, rw (e, generic_args) e')
round-Ends tok_rshift fuel depth i parser e rest = elim (Bool-cases (ltb (suc depth) 2)) [
  | inl few ↦ ((false, i), rw (e, generic_args, few) refl)
  | inr two ↦ let (r, e') = rest refl (suc depth - 2) in (r, rw (e, generic_args, two) e')
]
round-Ends _ fuel depth i parser e rest =
    let (r, e') = rest refl (suc depth) in (r, rw (e, generic_args) e')

generic_args-Ends :
    (fuel depth i : ℕ) (parser : Parser)
    → (last_token parser.tokens).type ≡ tok_eof
    → length parser.tokens < i + fuel
    → 0 < fuel
    → Ends (generic_args fuel parser depth i)
unfolding generic_args
generic_args-Ends zero depth i parser last room some_fuel = absurd (omega (arith, some_fuel))
generic_args-Ends (suc fuel) zero i parser last room some_fuel = ((true, i), refl)
generic_args-Ends (suc fuel) (suc depth) i parser last room some_fuel =
    round-Ends (type_at parser i) fuel depth i parser refl (λ no_eof d.
      let inside = stands_inside parser i is_no_eof last refl no_eof in
      generic_args-Ends fuel d (suc i) parser last (omega (arith, room))
        (omega (arith, room, inside)))

dimensions-Ends :
    (fuel i : ℕ) (parser : Parser)
    → (last_token parser.tokens).type ≡ tok_eof
    → length parser.tokens < i + fuel
    → 0 < fuel
    → Ends (dimensions fuel parser i)
unfolding dimensions
dimensions-Ends zero i parser last room some_fuel = absurd (omega (arith, some_fuel))
dimensions-Ends (suc fuel) i parser last room some_fuel =
    let inner = if is_int_lit (type_at parser (suc i)) then suc (suc i) else suc i in
    let further : i < inner = ground arith in
    elim (Bool-cases (is_lbracket (type_at parser i))) [
      | inr e ↦ ((true, i), rw (e, dimensions) refl)
      | inl e ↦ elim (Bool-cases (is_rbracket (type_at parser inner))) [
        | inr e' ↦ ((false, inner), rw (e, dimensions, e') refl)
        | inl e' ↦
            let inside = stands_inside parser inner is_rbracket last refl e' in
            let (r, rest) =
              dimensions-Ends fuel (suc inner) parser last (omega (arith, room, further))
                (omega (arith, room, inside, further)) in
            (r, rw (e, dimensions, e') rest)
      ]
    ]

arguments-Ends :
    (i : ℕ) (parser : Parser)
    → (last_token parser.tokens).type ≡ tok_eof
    → Ends (scan_generic_args_pattern parser i)
unfolding scan_generic_args_pattern
arguments-Ends i parser last =
    generic_args-Ends (suc (length parser.tokens)) 1 (suc i) parser last (omega arith) (omega arith)

behind_name-Ends :
    (i : ℕ) (parser : Parser)
    → (last_token parser.tokens).type ≡ tok_eof
    → Ends (behind_name parser i)
unfolding behind_name
behind_name-Ends i parser last =
    Ends-then _ (dimensions (suc (length parser.tokens)) parser)
      (elim (Bool-cases (is_lt (type_at parser i))) [
        | inl e ↦ let (r, e') = arguments-Ends i parser last in (r, rw e e')
        | inr e ↦ ((true, i), rw e refl)
      ])
      (λ j. dimensions-Ends (suc (length parser.tokens)) j parser last (omega arith) (omega arith))

type-Ends :
    (t : TokenType) (i : ℕ) (parser : Parser)
    → type_at parser i ≡ t
    → (last_token parser.tokens).type ≡ tok_eof
    → Ends (scan_type_pattern parser i)
unfolding scan_type_pattern
type-Ends tok_void i parser e last = ((true, suc i), rw (e, scan_type_pattern) refl)
type-Ends tok_arr i parser e last = elim (Bool-cases (is_lt (type_at parser (suc i)))) [
  | inl lt ↦
      let (r, e') = arguments-Ends (suc i) parser last in (r, rw (e, scan_type_pattern, lt) e')
  | inr other ↦ ((false, suc i), rw (e, scan_type_pattern, other) refl)
]
type-Ends tok_identifier i parser e last =
    let (r, e') = behind_name-Ends (suc i) parser last in (r, rw (e, scan_type_pattern) e')
type-Ends t i parser e last = elim (Bool-cases (is_primitive_type_token t)) [
  | inl primitive ↦
      let (r, e') = behind_name-Ends (suc i) parser last in
      (r, rw (e, scan_type_pattern, primitive) e')
  | inr other ↦ ((false, i), rw (e, scan_type_pattern, other) refl)
]

-- In a list of tokens that ends with that of the end of the file, the scan ahead for a local binding
-- gives a result.
looks_like_local_binding_statement-Ends :
    (parser : Parser)
    → (last_token parser.tokens).type ≡ tok_eof
    → Ends (looks_like_local_binding_statement parser)
unfolding looks_like_local_binding_statement
looks_like_local_binding_statement-Ends parser last =
    let i = skip_if is_final_token parser (skip_if is_internal_token parser parser.current) in
    Ends-then (if is_var (type_at parser i) then some (true, suc i) else scan_type_pattern parser i)
      (λ behind.
        some (
          is_identifier (type_at parser behind) && is_assign (type_at parser (suc behind)),
          behind,
        ))
      (elim (Bool-cases (is_var (type_at parser i))) [
        | inl e ↦ ((true, suc i), rw e refl)
        | inr e ↦ let (r, e') = type-Ends (type_at parser i) i parser refl last in (r, rw e e')
      ])
      (λ j. (_, refl))

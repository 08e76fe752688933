-- ===== src/Sema/Heads.antt =====
-- The scans ahead take the types that TypeText states.
use calynda_for_wii.Sema.PrimitiveToken.{is_primitive_type_token}
use calynda_for_wii.Sema.Levels.{closed-level, Glued-level, level}
use calynda_for_wii.Sema.Lookahead.{
  is_rbracket, is_int_lit, scan_generic_args_pattern, is_lt, behind_name, is_lbracket, dimensions,
  scan_type_pattern, type_at, generic_args, Parser,
}
use calynda_for_wii.Tokenizer.TokenType.{
  TokenType, tok_eof, tok_lt, tok_gt, tok_rshift, tok_identifier, tok_void, tok_arr,
}
use calynda_for_wii.Sema.TypeText.{
  generic_type, argument_tokens, arr_type, Glued, Written, Arguments, TypeTree, name_token,
  TypeName, dimension_tokens, user_name, primitive_name, plain_type, written_void, written_arr,
  written_plain, written_generic,
}
use calynda_for_wii.Base.{
  append_assoc, ◌-◌, ltb, ℕ, zero, suc, ◌+◌, ◌≤◌, ◌<◌, Bool, true, false, Option, some, List, [],
  ◌∷◌, ◌++◌, length, length-append, if◌then◌else◌, ◌≡◌, refl, ap, ◌∙◌, arith,
}

-- The tokens of the parser from an index on, with none of them behind the end.
abbrev pub Reads : Parser → ℕ → List TokenType → Type 0
Reads parser i [] = Unit
Reads parser i (t ∷ l) =
    (type_at parser i ≡ t) × (i < length parser.tokens) × Reads parser (suc i) l

pub Reads-append :
    (parser : Parser) (i : ℕ) (l r : List TokenType)
    → Reads parser i (l ++ r)
    → Reads parser i l × Reads parser (i + length l) r
Reads-append parser i [] r h = let same : i + 0 ≡ i = omega arith in (tt, rw same h)
Reads-append parser i (t ∷ l) r (e, b, h) =
    let (first, second) = Reads-append parser (suc i) l r h in
    let same : i + suc (length l) ≡ suc i + length l = omega arith in
    ((e, b, first), rw same second)

-- So many tokens have been read.
Reads-fits :
    (parser : Parser) (i : ℕ) (l : List TokenType)
    → Reads parser i l
    → length l ≤ length parser.tokens
Reads-fits parser i [] h = omega arith
Reads-fits parser i (t ∷ l) h = let last = go parser i t l h in omega (arith, last)
  where
    go :
        (parser : Parser) (i : ℕ) (t : TokenType) (l : List TokenType)
        → Reads parser i (t ∷ l)
        → i + suc (length l) ≤ length parser.tokens
    go parser i t [] (e, b, h) = omega (arith, b)
    go parser i t (u ∷ l) (e, b, h) = let last = go parser (suc i) u l h in omega (arith, last)

-- The brackets of arguments are scanned to the one that closes them.
generic_args-level :
    (l : List TokenType) (fuel depth i : ℕ) (parser : Parser)
    → Reads parser i l
    → level depth l ≡ some 0
    → length l ≤ fuel
    → generic_args fuel parser depth i ≡ some (true, i + length l)
unfolding generic_args
generic_args-level [] fuel zero i parser h e enough =
    let same : i + 0 ≡ i = omega arith in rw same refl
generic_args-level [] fuel (suc depth) i parser h e enough = absurd (ground (arith, e))
generic_args-level (t ∷ l) fuel zero i parser h e enough = cc
generic_args-level (t ∷ l) zero (suc depth) i parser h e enough = absurd (omega (arith, enough))
generic_args-level (tok_eof ∷ l) (suc fuel) (suc depth) i parser h e enough = cc
generic_args-level (tok_lt ∷ l) (suc fuel) (suc depth) i parser (here, b, h) e enough =
    let same : i + suc (length l) ≡ suc i + length l = omega arith in
    rw (here, generic_args, same)
      (generic_args-level l fuel (suc (suc depth)) (suc i) parser h e (omega (arith, enough)))
generic_args-level (tok_gt ∷ l) (suc fuel) (suc depth) i parser (here, b, h) e enough =
    let same : i + suc (length l) ≡ suc i + length l = omega arith in
    rw (here, generic_args, same)
      (generic_args-level l fuel depth (suc i) parser h e (omega (arith, enough)))
generic_args-level (tok_rshift ∷ l) (suc fuel) (suc zero) i parser (here, b, h) e enough = cc
generic_args-level (tok_rshift ∷ l) (suc fuel) (suc (suc depth)) i parser (here, b, h) e enough =
    let same : i + suc (length l) ≡ suc i + length l = omega arith in
    let two : ltb (suc (suc depth)) 2 ≡ false = ground arith in
    let left : suc (suc depth) - 2 ≡ depth = omega arith in
    rw (here, generic_args, two, left, same)
      (generic_args-level l fuel depth (suc i) parser h e (omega (arith, enough)))
generic_args-level (_ ∷ l) (suc fuel) (suc depth) i parser (here, b, h) e enough =
    let same : i + suc (length l) ≡ suc i + length l = omega arith in
    rw (here, generic_args, same)
      (generic_args-level l fuel (suc depth) (suc i) parser h e (omega (arith, enough)))

-- The dimensions are scanned to a token that opens no other one.
dimensions-Reads :
    (dims : List Bool) (fuel i : ℕ) (u : TokenType) (parser : Parser)
    → Reads parser i (dimension_tokens dims ++ u ∷ [])
    → is_lbracket u ≡ false
    → length dims < fuel
    → dimensions fuel parser i ≡ some (true, i + length (dimension_tokens dims))
unfolding dimensions
dimensions-Reads dims zero i u parser h stop enough = absurd (omega (arith, enough))
dimensions-Reads [] (suc fuel) i u parser (here, b, h) stop enough =
    let same : i + 0 ≡ i = omega arith in rw (here, dimensions, stop, same) refl
dimensions-Reads (true ∷ dims) (suc fuel) i u parser (e, b, (e', b', (e'', b'', h))) stop enough =
    let rest =
      dimensions-Reads dims fuel (suc (suc (suc i))) u parser h stop (omega (arith, enough)) in
    let same : i + suc (suc (suc (length (dimension_tokens dims))))
        ≡ suc (suc (suc i)) + length (dimension_tokens dims) =
      omega arith in
    let lit = ap is_int_lit e' in
    let close = ap is_rbracket e'' in rw (e, dimensions, lit, close, lit, same) rest
dimensions-Reads (false ∷ dims) (suc fuel) i u parser (e, b, (e', b', h)) stop enough =
    let rest = dimensions-Reads dims fuel (suc (suc i)) u parser h stop (omega (arith, enough)) in
    let same : i + suc (suc (length (dimension_tokens dims)))
        ≡ suc (suc i) + length (dimension_tokens dims) =
      omega arith in
    let lit = ap is_int_lit e' in
    let close = ap is_rbracket e' in rw (e, dimensions, lit, close, lit, same) rest

void_lem : (is_primitive_type_token tok_void ≡ false) × (is_primitive_type_token tok_arr ≡ false)
unfolding is_primitive_type_token
void_lem = (refl, refl)

name-scan :
    (name : TypeName) (i : ℕ) (parser : Parser)
    → type_at parser i ≡ name_token name
    → scan_type_pattern parser i ≡ behind_name parser (suc i)
unfolding scan_type_pattern
name-scan user_name i parser here = rw (here, scan_type_pattern) refl
name-scan (primitive_name t h) i parser here = rw (here, scan_type_pattern) (go t h i parser)
  where
    go :
        (t : TokenType)
        → is_primitive_type_token t ≡ true
        → (i : ℕ) (parser : Parser)
        → (elim t as (λ _. Option (Bool × ℕ)) [
          | tok_void ↦ some (true, suc i)
          | tok_arr ↦
              if is_lt (type_at parser (suc i))
              then scan_generic_args_pattern parser (suc i)
              else some (false, suc i)
          | tok_identifier ↦ behind_name parser (suc i)
          | u ↦ if is_primitive_type_token u then behind_name parser (suc i) else some (false, i)
        ])
          ≡ behind_name parser (suc i)
    go tok_void h i parser = absurd (cc (h, void_lem.0))
    go tok_arr h i parser = absurd (cc (h, void_lem.1))
    go tok_identifier h i parser = refl
    go _ h i parser = rw h refl

arguments-scan :
    (args : Arguments) (l : List TokenType) (i : ℕ) (parser : Parser)
    → Glued (argument_tokens args ++ tok_gt ∷ []) l
    → Reads parser (suc i) l
    → scan_generic_args_pattern parser i ≡ some (true, suc i + length l)
unfolding scan_generic_args_pattern
arguments-scan args l i parser g h =
    let fits = Reads-fits parser (suc i) l h in
    generic_args-level l (suc (length parser.tokens)) 1 (suc i) parser h
      (Glued-level 1 g (closed-level args)) (omega (arith, fits))

few-dimensions : (dims : List Bool) → length dims ≤ length (dimension_tokens dims)
few-dimensions [] = omega arith
few-dimensions (true ∷ dims) = let few = few-dimensions dims in omega (arith, few)
few-dimensions (false ∷ dims) = let few = few-dimensions dims in omega (arith, few)

dimensions-scan :
    (dims : List Bool) (i : ℕ) (u : TokenType) (parser : Parser)
    → Reads parser i (dimension_tokens dims ++ u ∷ [])
    → is_lbracket u ≡ false
    → dimensions (suc (length parser.tokens)) parser i
      ≡ some (true, i + length (dimension_tokens dims))
dimensions-scan dims i u parser h stop =
    let fits = Reads-fits parser i (dimension_tokens dims ++ u ∷ []) h in
    let size = length-append (dimension_tokens dims) (u ∷ []) in
    let few = few-dimensions dims in
    dimensions-Reads dims (suc (length parser.tokens)) i u parser h stop
      (omega (arith, fits, size, few))

-- Behind a name without arguments stands no opening bracket of arguments.
no_arguments :
    (dims : List Bool) (i : ℕ) (u : TokenType) (parser : Parser)
    → Reads parser i (dimension_tokens dims ++ u ∷ [])
    → is_lt u ≡ false
    → is_lt (type_at parser i) ≡ false
no_arguments [] i u parser (e, b, h) other = ap is_lt e ∙ other
no_arguments (true ∷ dims) i u parser (e, b, h) other = ap is_lt e
no_arguments (false ∷ dims) i u parser (e, b, h) other = ap is_lt e

-- A type is scanned to its end, where no bracket stands behind it.
pub scan_type_pattern-Written :
    (t : TypeTree) (l : List TokenType) (i : ℕ) (u : TokenType) (parser : Parser)
    → Written t l
    → Reads parser i (l ++ u ∷ [])
    → is_lbracket u ≡ false
    → is_lt u ≡ false
    → scan_type_pattern parser i ≡ some (true, i + length l)
unfolding behind_name scan_type_pattern
scan_type_pattern-Written _ l i u parser written_void (e, b, h) stop other =
    let same : i + 1 ≡ suc i = omega arith in rw (e, scan_type_pattern, same) refl
scan_type_pattern-Written (arr_type args) l i u parser (written_arr {l = m} g) (e, b, (e', b', h))
      stop other =
    let inner =
      arguments-scan args m (suc i) parser g (Reads-append parser (suc (suc i)) m (u ∷ []) h).0 in
    let same : i + suc (suc (length m)) ≡ suc (suc i) + length m = omega arith in
    rw (e, scan_type_pattern, e', same) inner
scan_type_pattern-Written (plain_type name dims) l i u parser written_plain (e, b, h) stop other =
    let same : i + suc (length (dimension_tokens dims)) ≡ suc i + length (dimension_tokens dims) =
      omega arith in
    name-scan name i parser e
    ∙ rw (no_arguments dims (suc i) u parser h other, behind_name, same)
        (dimensions-scan dims (suc i) u parser h stop)
scan_type_pattern-Written (generic_type name args dims) l i u parser (written_generic {l = m} g)
      (e, b, (e', b', h)) stop other =
    let rest = rw (append_assoc m (dimension_tokens dims) (u ∷ [])) at h in
    let (first, second) =
      Reads-append parser (suc (suc i)) m (dimension_tokens dims ++ u ∷ []) rest in
    let inner = arguments-scan args m (suc i) parser g first in
    let outer = dimensions-scan dims (suc (suc i) + length m) u parser second stop in
    let size = length-append m (dimension_tokens dims) in
    let same : i + suc (suc (length (m ++ dimension_tokens dims)))
        ≡ suc (suc i) + length m + length (dimension_tokens dims) =
      omega (arith, size) in
    name-scan name i parser e ∙ rw (e', behind_name, inner, same) outer

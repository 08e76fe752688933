-- ===== src/Tokenizer/Words.antt =====
-- Identifiers and keywords as whole words.
use calynda_for_wii.Base.{
  some, codes, tail, ℕ, suc, ◌+◌, ◌-◌, Bool, true, false, ◌&&◌, ◌||◌, List, [], ◌∷◌, ◌++◌, ◌≡◌,
  refl, ◌∙◌, ap, arith, ◌==◌, if◌then◌else◌, Bytes, length, take_append, bytes_eq, All,
}
use calynda_for_wii.Tokenizer.Keywords.{
  keywords, check_keyword_in, check_keyword, is_identifier_byte, scan_identifier,
}
use native.Mathlib.Numerals.{add-one}
use calynda_for_wii.Tokenizer.Next.{
  skip_whitespace, skip_loop, is_space, scan_token, tokenizer_next, resumes_template,
  advance_tokenizer,
}
use calynda_for_wii.Tokenizer.Punctuation.{with_position}
use calynda_for_wii.Tokenizer.Position.{
  Tokenizer, peek, is_at_end, is_digit, is_alpha, Position, Token, first_byte, advance_char,
  advance_run, make_token, is_alnum,
}
use calynda_for_wii.Tokenizer.TokenType.{TokenType, tok_identifier, tok_underscore}

-- The type of a word: the row of the table with that text, else an identifier.
unfoldable pub word_type_in : List (Bytes × TokenType) → Bytes → TokenType
word_type_in [] w = tok_identifier
word_type_in ((text, type) ∷ table) w = if bytes_eq text w then type else word_type_in table w

bytes_eq-length : (a b : Bytes) → bytes_eq a b ≡ true → length a ≡ length b
bytes_eq-length [] [] h = refl
bytes_eq-length [] (y ∷ b) h = cc
bytes_eq-length (x ∷ a) [] h = cc
bytes_eq-length (x ∷ a) (y ∷ b) h = ground (arith, bytes_eq-length a b)

check_keyword-word_type :
    (table : List (Bytes × TokenType)) (w rest : Bytes)
    → check_keyword_in table (w ++ rest) (length w) ≡ word_type_in table w
unfolding check_keyword_in word_type_in
check_keyword-word_type [] w rest = refl
check_keyword-word_type ((text, type) ∷ table) w rest =
    rw take_append (ground (arith, bytes_eq-length text w, check_keyword-word_type table w rest))

-- A run takes all of `w`, and stops in front of a byte that does not belong to it.
run_word :
    (w rest : Bytes) (p : Position)
    → p.bytes ≡ w ++ rest
    → All (λ c. is_identifier_byte c ≡ true) w
    → is_identifier_byte (first_byte rest) ≡ false
    → (q : Position) × (advance_run is_identifier_byte (w ++ rest) p ≡ q)
      × (q.bytes ≡ rest)
      × (q.offset ≡ p.offset + length w)
unfolding advance_run advance_char is_identifier_byte is_alnum is_alpha is_digit
run_word [] [] p e all stop = (p, refl, e, omega arith)
run_word [] (c ∷ rest) p e all stop = (p, ground arith, e, omega arith)
run_word (c ∷ w) rest p e all stop =
    let (q, r, b, o) = run_word w rest (advance_char p) (ap tail e) all.1 stop in
    (q, ground arith, b, omega arith)

pub skip_bare :
    (p : Position)
    → is_space (peek p) ≡ false
    → (peek p == b'/') ≡ false
    → skip_whitespace p ≡ some p
unfolding skip_whitespace skip_loop
skip_bare p h k = rw add-one (ground arith)

-- A word as the lexer sees it: a letter or "_", then letters, digits and "_", then another byte.
pub record IsWord (c : ℕ) (w rest : Bytes) : Type 0 where
  pub first_ok : (is_alpha c || c == b'_') ≡ true
  pub all_ok : All (λ d. is_identifier_byte d ≡ true) w
  pub stops : is_identifier_byte (first_byte rest) ≡ false

-- The type of the token for a whole word.
unfoldable pub word_type : Bytes → TokenType
word_type w = if bytes_eq w (codes "_") then tok_underscore else word_type_in keywords w

underscore_iff :
    (c : ℕ) (w rest : Bytes) → (suc (length w) == 1 && c == b'_') ≡ bytes_eq (c ∷ w) (codes "_")
underscore_iff c [] rest = ground arith
underscore_iff c (d ∷ w) rest = ground arith

one_token :
    (b : Bool) (q start : Position) (x y : TokenType)
    → ◌≡◌ {A = Position × Token}
        (if b then (q, make_token q x start) else (q, make_token q y start))
        (q, make_token q (if b then x else y) start)
one_token true q start x y = refl
one_token false q start x y = refl

-- The word between two positions gets its type.
classify :
    (c : ℕ) (w rest : Bytes) (start q : Position)
    → start.bytes ≡ c ∷ (w ++ rest)
    → q.offset - start.offset ≡ suc (length w)
    → (if q.offset - start.offset == 1 && first_byte start.bytes == b'_'
        then tok_underscore
        else check_keyword start.bytes (q.offset - start.offset))
      ≡ word_type (c ∷ w)
unfolding word_type check_keyword
classify c w rest start q e n =
    rw (n, e, underscore_iff c w rest, check_keyword-word_type keywords (c ∷ w) rest)

pub behind_first :
    (c : ℕ) (w rest : Bytes) (p : Position)
    → p.bytes ≡ c ∷ (w ++ rest)
    → ((advance_char p).bytes ≡ w ++ rest) × ((advance_char p).offset ≡ p.offset + 1)
unfolding advance_char
behind_first c w rest p e = (ap tail e, refl)

record WordRead (c : ℕ) (w rest : Bytes) (p : Position) : Type 0 where
  end : Position
  read : scan_identifier p (advance_char p) ≡ (end, make_token end (word_type (c ∷ w)) p)
  rest_is : end.bytes ≡ rest
  end_offset : end.offset ≡ p.offset + suc (length w)

scan_identifier_word :
    (c : ℕ) (w rest : Bytes) (p : Position)
    → p.bytes ≡ c ∷ (w ++ rest)
    → IsWord c w rest
    → WordRead c w rest p
unfolding scan_identifier
scan_identifier_word c w rest p e h =
    let b = behind_first c w rest p e in
    let (q, run, rest_is, o) = run_word w rest (advance_char p) b.0 h.all_ok h.stops in
    let r = ap (λ bs. advance_run is_identifier_byte bs (advance_char p)) b.0 ∙ run in
    let o' : q.offset ≡ p.offset + suc (length w) = omega (arith, b.1) in
    record {
      end = q;
      read = rw r (one_token _ q p _ _ ∙ rw (classify c w rest p q e (omega arith)) refl);
      rest_is = rest_is;
      end_offset = o';
    }

word_first :
    (c : ℕ) → (is_alpha c || c == b'_') ≡ true → (is_space c ≡ false) × ((c == b'/') ≡ false)
unfolding is_alpha is_space
word_first c h = (ground arith, ground arith)

scan_token_word :
    (t : Tokenizer)
    → (is_alpha (peek t.position) || peek t.position == b'_') ≡ true
    → scan_token t
      ≡ some (
          with_position
            (advance_tokenizer t)
            (scan_identifier t.position (advance_char t.position)))
unfolding scan_token resumes_template is_at_end peek is_alpha
scan_token_word t h = ground arith

-- A word in front of another byte is read as one token: the lexer takes the whole of it, and gives
-- it the type of its row in the keyword table, or of "_", or of an identifier.
pub tokenizer_next_word :
    (t : Tokenizer) (c : ℕ) (w rest : Bytes)
    → t.position.bytes ≡ c ∷ (w ++ rest)
    → IsWord c w rest
    → (u : Tokenizer) × (tokenizer_next t
        ≡ some (u, make_token u.position (word_type (c ∷ w)) t.position))
      × (u.position.bytes ≡ rest)
      × (u.position.offset ≡ t.position.offset + suc (length w))
unfolding tokenizer_next
tokenizer_next_word t c w rest e h =
    let p = t.position in
    let r = scan_identifier_word c w rest p e h in
    let first : peek p ≡ c = unfold peek in ap first_byte e in
    (
      record t { position = r.end },
      rw
          (skip_bare p (word_first (peek p) (rw first h.first_ok)).0
            (word_first (peek p) (rw first h.first_ok)).1)
          (scan_token_word t (rw first h.first_ok) ∙ rw r.read refl),
      r.rest_is,
      r.end_offset,
    )

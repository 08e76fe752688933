-- ===== src/Cfg/Order.antt =====
-- The sorted array of leaders: in order, without repetition, and with the elements it had.
use calynda_for_wii.Cfg.Leaders.{shift_in, sort_from, rev_onto, sort, dedupe_from, dedupe}
use calynda_for_wii.Base.{
  inr, inl, Bool-cases, mem, ℕ, Bool, true, ◌&&◌, ◌||◌, List, [], ◌∷◌, ltb, leb, ◌==◌, ◌≡◌, refl,
  arith,
}

-- The first element, if there is one, stands in this relation to `x`.
abbrev pub next_to : (ℕ → ℕ → Bool) → ℕ → List ℕ → Bool
next_to r x [] = true
next_to r x (y ∷ l) = r x y

abbrev pub chain : (ℕ → ℕ → Bool) → List ℕ → Bool
chain r [] = true
chain r (x ∷ l) = next_to r x l && chain r l

-- The relations read from right to left.
abbrev geb : ℕ → ℕ → Bool
geb a b = leb b a

abbrev gtb : ℕ → ℕ → Bool
gtb a b = ltb b a

shift_in-next_to :
    (key x : ℕ) (l : List ℕ)
    → next_to geb x l ≡ true
    → leb key x ≡ true
    → next_to geb x (shift_in key l) ≡ true
unfolding shift_in
shift_in-next_to key x [] h k = k
shift_in-next_to key x (y ∷ l) h k = ground arith

shift_in-chain : (key : ℕ) (l : List ℕ) → chain geb l ≡ true → chain geb (shift_in key l) ≡ true
unfolding shift_in
shift_in-chain key [] h = refl
shift_in-chain key (x ∷ l) h = ground (arith, shift_in-chain key l, shift_in-next_to key x l)

shift_in-mem : (key x : ℕ) (l : List ℕ) → mem x (shift_in key l) ≡ (x == key || mem x l)
unfolding shift_in
shift_in-mem key x [] = refl
shift_in-mem key x (y ∷ l) = ground (arith, shift_in-mem key x l)

sort_from-chain :
    (before rest : List ℕ) → chain geb before ≡ true → chain geb (sort_from before rest) ≡ true
unfolding sort_from
sort_from-chain before [] h = h
sort_from-chain before (key ∷ rest) h =
    sort_from-chain (shift_in key before) rest (shift_in-chain key before h)

sort_from-mem :
    (x : ℕ) (before rest : List ℕ) → mem x (sort_from before rest) ≡ (mem x before || mem x rest)
unfolding sort_from
sort_from-mem x before [] = ground arith
sort_from-mem x before (key ∷ rest) =
    ground (arith, sort_from-mem x (shift_in key before) rest, shift_in-mem key x before)

rev_onto-mem : (x : ℕ) (l acc : List ℕ) → mem x (rev_onto l acc) ≡ (mem x l || mem x acc)
rev_onto-mem x [] acc = refl
rev_onto-mem x (y ∷ l) acc = ground (arith, rev_onto-mem x l (y ∷ acc))

-- The first element, if there is one, stands before this list.
abbrev joined : (ℕ → ℕ → Bool) → List ℕ → List ℕ → Bool
joined r [] acc = true
joined r (x ∷ l) acc = next_to r x acc

-- A chain in one direction, turned round, is a chain in the other.
rev_onto-chain :
    (r q : ℕ → ℕ → Bool) (l acc : List ℕ)
    → ((x y : ℕ) → q x y ≡ r y x)
    → chain q l ≡ true
    → chain r acc ≡ true
    → joined r l acc ≡ true
    → chain r (rev_onto l acc) ≡ true
rev_onto-chain r q [] acc f h k j = k
rev_onto-chain r q (x ∷ []) acc f h k j = ground arith
rev_onto-chain r q (x ∷ y ∷ l) acc f h k j =
    rev_onto-chain r q (y ∷ l) (x ∷ acc) f (ground arith) (ground arith) (ground (arith, f x y))

joined_nothing : (r : ℕ → ℕ → Bool) (l : List ℕ) → joined r l [] ≡ true
joined_nothing r [] = refl
joined_nothing r (x ∷ l) = refl

sort-chain : (arr : List ℕ) → chain leb (sort arr) ≡ true
unfolding sort
sort-chain arr =
    rev_onto-chain leb geb (sort_from [] arr) [] (λ x y. refl) (sort_from-chain [] arr refl) refl
      (joined_nothing leb (sort_from [] arr))

sort-mem : (x : ℕ) (arr : List ℕ) → mem x (sort arr) ≡ mem x arr
unfolding sort
sort-mem x arr = ground (arith, rev_onto-mem x (sort_from [] arr) [], sort_from-mem x [] arr)

-- What is kept, from its end, goes down and stands before the rest.
abbrev fits_before : List ℕ → List ℕ → Bool
fits_before [] rest = true
fits_before (y ∷ kept) rest = next_to leb y rest

dedupe_from-chain :
    (kept rest : List ℕ)
    → chain gtb kept ≡ true
    → chain leb rest ≡ true
    → fits_before kept rest ≡ true
    → chain gtb (dedupe_from kept rest) ≡ true
unfolding dedupe_from
dedupe_from-chain kept [] h k f = h
dedupe_from-chain [] (x ∷ rest) h k f =
    dedupe_from-chain (x ∷ []) rest refl (ground arith) (ground arith)
dedupe_from-chain (y ∷ kept) (x ∷ rest) h k f = elim (Bool-cases (y == x)) [
  | inl same ↦ rw same (dedupe_from-chain (y ∷ kept) rest h (ground arith) (skip rest k))
  | inr other ↦
      rw other (dedupe_from-chain (x ∷ y ∷ kept) rest (ground arith) (ground arith) (ground arith))
]
  where
    skip : (rest : List ℕ) → chain leb (x ∷ rest) ≡ true → next_to leb y rest ≡ true
    skip [] k = refl
    skip (z ∷ rest) k = ground arith

dedupe_from-mem :
    (x : ℕ) (kept rest : List ℕ) → mem x (dedupe_from kept rest) ≡ (mem x kept || mem x rest)
unfolding dedupe_from
dedupe_from-mem x kept [] = ground arith
dedupe_from-mem x [] (y ∷ rest) = ground (arith, dedupe_from-mem x (y ∷ []) rest)
dedupe_from-mem x (z ∷ kept) (y ∷ rest) =
    ground (arith, dedupe_from-mem x (z ∷ kept) rest, dedupe_from-mem x (y ∷ z ∷ kept) rest)

-- The sorted array without repetitions goes strictly up, and has the elements of the array.
pub leaders-chain : (arr : List ℕ) → chain ltb (dedupe (sort arr)) ≡ true
unfolding dedupe
leaders-chain arr =
    let kept = dedupe_from [] (sort arr) in
    rev_onto-chain ltb gtb kept [] (λ x y. refl)
      (dedupe_from-chain [] (sort arr) refl (sort-chain arr) refl) refl (joined_nothing ltb kept)

pub leaders-mem : (x : ℕ) (arr : List ℕ) → mem x (dedupe (sort arr)) ≡ mem x arr
unfolding dedupe
leaders-mem x arr = ground (
  arith,
  rev_onto-mem x (dedupe_from [] (sort arr)) [],
  dedupe_from-mem x [] (sort arr),
  sort-mem x arr,
)

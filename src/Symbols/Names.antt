-- ===== src/Symbols/Names.antt =====
-- Lists of symbols in which no name stands twice.
use calynda_for_wii.Base.{
  Bool, true, false, not, ◌&&◌, ◌||◌, Option, none, some, List, [], ◌∷◌, ◌++◌, Bytes, bytes_eq,
  append-nil, append_assoc, ◌≡◌, ◌⊎◌, inl, inr, refl, ap, arith, Bool-cases,
}
use calynda_for_wii.Symbols.State.{Symbol}
use calynda_for_wii.Symbols.Query.{is_named, find_named}

abbrev pub named_in : Bytes → List Symbol → Bool
named_in name [] = false
named_in name (s ∷ l) = is_named s.name name || named_in name l

-- The list has a symbol of this name, if it is a name.
abbrev pub repeats : Option Bytes → List Symbol → Bool
repeats none l = false
repeats (some name) l = named_in name l

abbrev pub distinct_names : List Symbol → Bool
distinct_names [] = true
distinct_names (s ∷ l) = not (repeats s.name l) && distinct_names l

-- None of the symbols has a name of `before`.
abbrev pub apart : List Symbol → List Symbol → Bool
apart before [] = true
apart before (s ∷ l) = not (repeats s.name before) && apart before l

-- The symbols can be added to `before` one by one.
abbrev pub fresh : List Symbol → List Symbol → Bool
fresh before [] = true
fresh before (s ∷ l) = not (repeats s.name before) && fresh (before ++ s ∷ []) l

bytes_eq-sym : (a b : Bytes) → bytes_eq a b ≡ bytes_eq b a
bytes_eq-sym [] [] = refl
bytes_eq-sym [] (y ∷ b) = refl
bytes_eq-sym (x ∷ a) [] = refl
bytes_eq-sym (x ∷ a) (y ∷ b) = ground (arith, bytes_eq-sym a b)

named_in-append :
    (name : Bytes) (l r : List Symbol)
    → named_in name (l ++ r) ≡ (named_in name l || named_in name r)
named_in-append name [] r = refl
named_in-append name (s ∷ l) r = ground (arith, named_in-append name l r)

pub repeats-append :
    (name : Option Bytes) (l r : List Symbol)
    → repeats name (l ++ r) ≡ (repeats name l || repeats name r)
repeats-append none l r = refl
repeats-append (some name) l r = named_in-append name l r

repeats-sym : (s t : Symbol) → repeats s.name (t ∷ []) ≡ repeats t.name (s ∷ [])
repeats-sym s t = go s.name t.name
  where
    go :
        (a b : Option Bytes)
        → repeats a (record t { name = b } ∷ []) ≡ repeats b (record s { name = a } ∷ [])
    go none none = refl
    go none (some b) = refl
    go (some a) none = refl
    go (some a) (some b) = ap (λ x. x || false) (bytes_eq-sym b a)

apart-append :
    (before : List Symbol) (s : Symbol) (l : List Symbol)
    → apart (before ++ s ∷ []) l ≡ (apart before l && not (repeats s.name l))
apart-append before s [] = go s.name
  where
    go : (a : Option Bytes) → true ≡ (true && not (repeats a []))
    go none = refl
    go (some a) = refl
apart-append before s (t ∷ l) =
    let split = repeats-append t.name before (s ∷ []) in
    let turned = repeats-sym t s in
    let rest = apart-append before s l in
    let first = repeats-append s.name (t ∷ []) l in ground (arith, split, turned, rest, first)

pub fresh-distinct :
    (before l : List Symbol) → fresh before l ≡ (apart before l && distinct_names l)
fresh-distinct before [] = refl
fresh-distinct before (s ∷ l) =
    ground (arith, fresh-distinct (before ++ s ∷ []) l, apart-append before s l)

pub fresh-append :
    (before l r : List Symbol) → fresh before (l ++ r) ≡ (fresh before l && fresh (before ++ l) r)
fresh-append before [] r = rw append-nil refl
fresh-append before (s ∷ l) r =
    let place : (before ++ s ∷ []) ++ l ≡ before ++ s ∷ l = append_assoc before (s ∷ []) l in
    let rest = rw place at (fresh-append (before ++ s ∷ []) l r) in ground (arith, rest)

-- The first symbol of a name is found where there is one.
pub find_named-cases :
    (l : List Symbol) (name : Bytes)
    → ((named_in name l ≡ false) × (find_named l name ≡ none))
      ⊎ ((named_in name l ≡ true) × (s : Symbol) × (find_named l name ≡ some s))
find_named-cases [] name = inl (refl, refl)
find_named-cases (s ∷ l) name = elim (Bool-cases (is_named s.name name)) [
  | inl here ↦ inr (rw here refl, s, rw here refl)
  | inr other ↦ elim (find_named-cases l name) [
    | inl (nowhere, e) ↦ inl (rw other nowhere, rw other e)
    | inr (there, t, e) ↦ inr (rw other there, t, rw other e)
  ]
]

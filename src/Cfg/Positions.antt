-- ===== src/Cfg/Positions.antt =====
-- Lists of numbers in which none stands twice: a number and its position determine each other.
use calynda_for_wii.Cfg.Search.{distinct}
use calynda_for_wii.Cfg.Dominance.{fill_pos}
use calynda_for_wii.Base.{
  ℕ, zero, suc, ◌+◌, ◌<◌, true, false, List, [], ◌∷◌, length, get_or, set, get_or-set, length-set,
  mem, ◌==◌, ◌≡◌, inl, inr, refl, sym, ap, ◌∙◌, arith, Bool-cases,
}

pub mem-get_or : (l : List ℕ) (k : ℕ) → k < length l → mem (get_or l k 0) l ≡ true
mem-get_or [] k h = absurd (omega (arith, h))
mem-get_or (x ∷ l) zero h = ground arith
mem-get_or (x ∷ l) (suc k) h = ground (arith, mem-get_or l k (omega (arith, h)))

pub position : (x : ℕ) (l : List ℕ) → mem x l ≡ true → (k : ℕ) × (k < length l) × (get_or l k 0 ≡ x)
position x [] m = cc
position x (y ∷ l) m = elim (Bool-cases (x == y)) [
  | inl e ↦ (0, omega arith, ground (arith, e))
  | inr e ↦
      let (k, h, there) = position x l (ground (arith, m, e)) in (suc k, omega (arith, h), there)
]

-- Different positions hold different numbers.
abbrev pub IsInjective : List ℕ → Type 0
IsInjective l = (j k : ℕ) → j < length l → k < length l → get_or l j 0 ≡ get_or l k 0 → j ≡ k

pub distinct-IsInjective : (l : List ℕ) → distinct l ≡ true → IsInjective l
distinct-IsInjective [] d j k h h' e = absurd (omega (arith, h))
distinct-IsInjective (x ∷ l) d zero zero h h' e = refl
distinct-IsInjective (x ∷ l) d zero (suc k) h h' e =
    let m : mem (get_or l k 0) l ≡ true = mem-get_or l k (omega (arith, h')) in
    let m' : mem x l ≡ true = rw (← e) at m in absurd (ground (arith, d, m'))
distinct-IsInjective (x ∷ l) d (suc j) zero h h' e =
    let m : mem (get_or l j 0) l ≡ true = mem-get_or l j (omega (arith, h)) in
    let m' : mem x l ≡ true = rw e at m in absurd (ground (arith, d, m'))
distinct-IsInjective (x ∷ l) d (suc j) (suc k) h h' e =
    ap suc (distinct-IsInjective l (ground (arith, d)) j k (omega (arith, h)) (omega (arith, h')) e)

pub IsInjective-distinct : (l : List ℕ) → IsInjective l → distinct l ≡ true
IsInjective-distinct [] i = refl
IsInjective-distinct (x ∷ l) i =
    let rest = IsInjective-distinct l (λ j k h h' e.
      let same = i (suc j) (suc k) (omega (arith, h)) (omega (arith, h')) e in
      omega (arith, same)) in
    elim (Bool-cases (mem x l)) [
      | inr new ↦ rw (new, rest) refl
      | inl old ↦
          let (k, h, there) = position x l old in
          let same = i 0 (suc k) (omega arith) (omega (arith, h)) (sym there) in
          absurd (omega (arith, same))
    ]

-- The table of positions.
pub fill_pos-other :
    (l : List ℕ) (i b d : ℕ) (pos : List ℕ)
    → mem b l ≡ false
    → get_or (fill_pos l i pos) b d ≡ get_or pos b d
unfolding fill_pos
fill_pos-other [] i b d pos m = refl
fill_pos-other (x ∷ l) i b d pos m =
    fill_pos-other l (suc i) b d (set pos x i) (ground (arith, m))
    ∙ set-other pos x b i d (ground (arith, m))
  where
    set-other :
        (pos : List ℕ) (x b i d : ℕ) → (b == x) ≡ false → get_or (set pos x i) b d ≡ get_or pos b d
    set-other [] x b i d e = refl
    set-other (p ∷ pos) zero zero i d e = absurd (ground (arith, e))
    set-other (p ∷ pos) zero (suc b) i d e = refl
    set-other (p ∷ pos) (suc x) zero i d e = refl
    set-other (p ∷ pos) (suc x) (suc b) i d e = set-other pos x b i d (ground (arith, e))

pub fill_pos-position :
    (l : List ℕ) (i k d : ℕ) (pos : List ℕ)
    → distinct l ≡ true
    → ((x : ℕ) → mem x l ≡ true → x < length pos)
    → k < length l
    → get_or (fill_pos l i pos) (get_or l k 0) d ≡ i + k
unfolding fill_pos
fill_pos-position [] i k d pos once inside h = absurd (omega (arith, h))
fill_pos-position (x ∷ l) i zero d pos once inside h =
    let h' : x < length pos = inside x (ground arith) in
    fill_pos-other l (suc i) x d (set pos x i) (ground (arith, once))
    ∙ get_or-set pos x x i d h'
    ∙ ground arith
fill_pos-position (x ∷ l) i (suc k) d pos once inside h =
    let rest =
      fill_pos-position l (suc i) k d (set pos x i) (ground (arith, once))
        (λ y m.
          let h' : y < length pos = inside y (ground (arith, m)) in
          omega (arith, h', length-set pos x i))
        (omega (arith, h)) in
    omega (arith, rest)

-- ===== src/Cfg/Turned.antt =====
-- The order turned round, and the positions of its blocks.
use calynda_for_wii.Cfg.Dominance.{turn_round, swap}
use calynda_for_wii.Base.{
  ℕ, zero, suc, ◌+◌, ◌-◌, ◌*◌, ◌/◌, ◌≤◌, ◌<◌, Bool, ◌&&◌, ◌||◌, List, length, get_or, set,
  get_or-set, length-set, ltb, leb, ◌==◌, ◌≡◌, inl, inr, refl, ap, ◌∙◌, arith, Bool-cases,
  if◌then◌else◌,
}

length-swap : (l : List ℕ) (i j : ℕ) → length (swap l i j) ≡ length l
length-swap l i j =
    length-set (set l i (get_or l j 0)) j (get_or l i 0) ∙ length-set l i (get_or l j 0)

get_or-swap :
    (l : List ℕ) (i j k : ℕ)
    → i < length l
    → j < length l
    → get_or (swap l i j) k 0
      ≡ (if k == j then get_or l i 0 else if k == i then get_or l j 0 else get_or l k 0)
get_or-swap l i j k h h' =
    let first = get_or-set l i k (get_or l j 0) 0 h in
    let size = length-set l i (get_or l j 0) in
    get_or-set (set l i (get_or l j 0)) j k (get_or l i 0) 0 (omega (arith, h', size))
    ∙ rw first refl

pub length-turn_round : (rounds i : ℕ) (l : List ℕ) → length (turn_round rounds i l) ≡ length l
unfolding turn_round
length-turn_round zero i l = refl
length-turn_round (suc rounds) i l =
    length-turn_round rounds (suc i) (swap l i (length l - 1 - i))
    ∙ length-swap l i (length l - 1 - i)

-- The rounds that are left exchange these positions.
abbrev in_turn : ℕ → ℕ → ℕ → ℕ → Bool
in_turn n i rounds k =
    (leb i k && ltb k (i + rounds)) || (leb (n - (i + rounds)) k && ltb k (n - i))

one_turn :
    (g : ℕ → ℕ) (n i rounds k : ℕ)
    → (i + suc rounds) * 2 ≤ n
    → k < n
    → (if in_turn n (suc i) rounds k
        then (if n - 1 - k == n - 1 - i
            then g i
            else if n - 1 - k == i
            then g (n - 1 - i)
            else g (n - 1 - k))
        else (if k == n - 1 - i then g i else if k == i then g (n - 1 - i) else g k))
      ≡ (if in_turn n i (suc rounds) k then g (n - 1 - k) else g k)
one_turn g n i rounds k h below = elim (Bool-cases (k == i)) [
  | inl e ↦ let same : k ≡ i = ground (arith, e) in rw same (ground (arith, h))
  | inr first ↦ elim (Bool-cases (k == n - 1 - i)) [
    | inl e ↦
        let same : k ≡ n - 1 - i = ground (arith, e) in
        let back : n - 1 - (n - 1 - i) ≡ i = omega (arith, h) in rw (same, back) (ground (arith, h))
    | inr last ↦ ground (arith, h, below, first, last)
  ]
]

get_or-turn_round :
    (rounds i k : ℕ) (l : List ℕ)
    → (i + rounds) * 2 ≤ length l
    → k < length l
    → get_or (turn_round rounds i l) k 0
      ≡ (if in_turn (length l) i rounds k then get_or l (length l - 1 - k) 0 else get_or l k 0)
unfolding turn_round
get_or-turn_round zero i k l h below = ground (arith, h, below)
get_or-turn_round (suc rounds) i k l h below =
    let n = length l in
    let next = swap l i (n - 1 - i) in
    let size : length next ≡ n = length-swap l i (n - 1 - i) in
    let rest =
      get_or-turn_round rounds (suc i) k next (omega (arith, h, size))
        (omega (arith, below, size)) in
    let here = get_or-swap l i (n - 1 - i) k (omega (arith, h)) (omega (arith, h)) in
    let there = get_or-swap l i (n - 1 - i) (n - 1 - k) (omega (arith, h)) (omega (arith, h)) in
    rest ∙ rw (size, here, there) (one_turn (λ j. get_or l j 0) n i rounds k h below)

-- Half as many rounds as there are positions exchange the first position with the last, and so on.
pub get_or-turned :
    (l : List ℕ) (k : ℕ)
    → k < length l
    → get_or (turn_round (length l / 2) 0 l) k 0 ≡ get_or l (length l - 1 - k) 0
get_or-turned l k below =
    get_or-turn_round (length l / 2) 0 k l (omega arith) below
    ∙ all_turned (λ j. get_or l j 0) (length l) k below
  where
    all_turned :
        (g : ℕ → ℕ) (n k : ℕ)
        → k < n
        → (if in_turn n 0 (n / 2) k then g (n - 1 - k) else g k) ≡ g (n - 1 - k)
    all_turned g n k below = elim (Bool-cases (in_turn n 0 (n / 2) k)) [
      | inl e ↦ rw e refl
      | inr e ↦ let middle : k ≡ n - 1 - k = ground (arith, e, below) in rw e (ap g middle)
    ]

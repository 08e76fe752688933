-- ===== src/Cfg/Places.antt =====
-- The positions of an order that is turned round.
use calynda_for_wii.Cfg.Turned.{get_or-turned, length-turn_round}
use calynda_for_wii.Cfg.Positions.{
  IsInjective-distinct, mem-get_or, fill_pos-position, distinct-IsInjective, fill_pos-other,
  position, IsInjective,
}
use calynda_for_wii.Cfg.Parents.{Before}
use calynda_for_wii.Cfg.Graph.{cfg_invalid}
use calynda_for_wii.Cfg.Dominance.{turn_round, fill_pos}
use calynda_for_wii.Cfg.Search.{distinct}
use calynda_for_wii.Base.{
  ℕ, suc, ◌+◌, ◌-◌, ◌/◌, ◌<◌, true, false, List, [], ◌∷◌, ◌++◌, length, length-append,
  length-replicate, get_or, get_or-replicate, replicate, mem, ◌≡◌, inl, inr, sym, ap, ◌∙◌, arith,
  Bool-cases,
}

pub get_or-append : (l r : List ℕ) (j : ℕ) → get_or (l ++ r) (length l + j) 0 ≡ get_or r j 0
get_or-append [] r j = ap (λ k. get_or r k 0) (omega arith)
get_or-append (x ∷ l) r j =
    let index : suc (length l) + j ≡ suc (length l + j) = omega arith in
    rw index (get_or-append l r j)

abbrev pub turned : List ℕ → List ℕ
turned order = turn_round (length order / 2) 0 order

abbrev pub positions : List ℕ → ℕ → List ℕ
positions order n = fill_pos (turned order) 0 (replicate n cfg_invalid)

-- An order without repetition, and the positions in the order turned round.
module _ (order : List ℕ) (n : ℕ) (once : distinct order ≡ true)
    (inside : (b : ℕ) → mem b order ≡ true → b < n) where
  pub size : length (turned order) ≡ length order
  size = length-turn_round (length order / 2) 0 order

  turned-IsInjective : IsInjective (turned order)
  turned-IsInjective j k h h' e =
      let below : j < length order = omega (arith, h, size) in
      let below' : k < length order = omega (arith, h', size) in
      let same =
        distinct-IsInjective order once (length order - 1 - j) (length order - 1 - k)
          (omega (arith, below)) (omega (arith, below'))
          (sym (get_or-turned order j below) ∙ e ∙ get_or-turned order k below') in
      omega (arith, same, below, below')

  pub mem-turned : (b : ℕ) → mem b (turned order) ≡ true → mem b order ≡ true
  mem-turned b m =
      let (k, h, e) = position b (turned order) m in
      let below : k < length order = omega (arith, h, size) in
      let there = mem-get_or order (length order - 1 - k) (omega (arith, below)) in
      rw (sym (get_or-turned order k below) ∙ e) at there

  pub position-turned :
      (k : ℕ)
      → k < length order
      → get_or (positions order n) (get_or (turned order) k 0) cfg_invalid ≡ k
  position-turned k h =
      fill_pos-position (turned order) 0 k cfg_invalid (replicate n cfg_invalid)
        (IsInjective-distinct (turned order) turned-IsInjective)
        (λ b m.
          let below = inside b (mem-turned b m) in
          omega (arith, below, length-replicate n cfg_invalid))
        (omega (arith, h, size))
      ∙ omega arith

  -- The position of a block counts from the end of the order.
  pub position_lem :
      (k b : ℕ)
      → k < length order
      → get_or order k 0 ≡ b
      → (get_or (turned order) (length order - 1 - k) 0 ≡ b)
        × (get_or (positions order n) b cfg_invalid ≡ length order - 1 - k)
  position_lem k b h e =
      let j = length order - 1 - k in
      let back : length order - 1 - j ≡ k = omega (arith, h) in
      let here : get_or (turned order) j 0 ≡ b =
        get_or-turned order j (omega (arith, h)) ∙ ap (λ i. get_or order i 0) back ∙ e in
      (
        here,
        ap (λ c. get_or (positions order n) c cfg_invalid) (sym here)
            ∙ position-turned j (omega (arith, h)),
      )

  pub position_elsewhere :
      (b : ℕ) → mem b order ≡ false → get_or (positions order n) b cfg_invalid ≡ cfg_invalid
  position_elsewhere b m = elim (Bool-cases (mem b (turned order))) [
    | inl there ↦ absurd (cc (mem-turned b there, m))
    | inr missing ↦
        fill_pos-other (turned order) 0 b cfg_invalid (replicate n cfg_invalid) missing
        ∙ get_or-replicate n b cfg_invalid
  ]

  -- What stands before in the order has the higher position.
  pub position-Before :
      (b p : ℕ)
      → Before b p order
      → get_or (positions order n) p cfg_invalid < get_or (positions order n) b cfg_invalid
  position-Before b p (u, q, split, m) =
      let (j, h, there) = position p q m in
      let whole = ap length split ∙ length-append u (b ∷ q) in
      let here : get_or order (length u + 0) 0 ≡ b = rw split (get_or-append u (b ∷ q) 0) in
      let later : get_or order (length u + suc j) 0 ≡ p =
        rw split (get_or-append u (b ∷ q) (suc j) ∙ there) in
      let (_, at_b) = position_lem (length u + 0) b (omega (arith, whole)) here in
      let (_, at_p) = position_lem (length u + suc j) p (omega (arith, whole, h)) later in
      omega (arith, at_b, at_p, whole, h)

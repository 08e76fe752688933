-- ===== src/Cfg/Parents.antt =====
-- The depth-first search puts a block into the order before the one that it was found from.
use calynda_for_wii.Cfg.Dominance.{finish, mark, Search}
use calynda_for_wii.Cfg.Search.{snoc-cases, Edge, mem-snoc}
use calynda_for_wii.Cfg.Graph.{Cfg}
use calynda_for_wii.Base.{
  ℕ, true, ◌||◌, List, [], ◌∷◌, ◌++◌, mem, ◌==◌, append_assoc, ◌≡◌, ◌⊎◌, inl, inr, refl, sym, ap,
  ◌∙◌, arith, Bool-cases,
}

-- The first number stands before the second.
abbrev pub Before : ℕ → ℕ → List ℕ → Type 0
Before x y l = (p : List ℕ) × (q : List ℕ) × (l ≡ p ++ x ∷ q) × (mem y q ≡ true)

mem-append : (x : ℕ) (l r : List ℕ) → mem x (l ++ r) ≡ (mem x l || mem x r)
mem-append x [] r = refl
mem-append x (y ∷ l) r = ground (arith, mem-append x l r)

Before-more : (x y : ℕ) (l r : List ℕ) → Before x y l → Before x y (l ++ r)
Before-more x y l r (p, q, e, m) =
    (p, q ++ r, ap (λ k. k ++ r) e ∙ append_assoc p (x ∷ q) r, mem-append y q r ∙ rw m refl)

Before-last : (x y : ℕ) (l : List ℕ) → mem x l ≡ true → Before x y (l ++ y ∷ [])
Before-last x y [] m = cc
Before-last x y (z ∷ l) m = elim (Bool-cases (x == z)) [
  | inl e ↦
      let same : z ≡ x = ground (arith, e) in
      ([], l ++ y ∷ [], rw same refl, mem-snoc y y l ∙ ground arith)
  | inr e ↦
      let (p, q, split, k) = Before-last x y l (ground (arith, m, e)) in
      (z ∷ p, q, ap (◌∷◌ z) split, k)
]

-- A predecessor stands behind the block.
abbrev pub HasParent : Cfg → ℕ → List ℕ → Type 0
HasParent cfg x l = (y : ℕ) × Edge cfg y x × Before x y l

-- What is new in the order is at the top, or has a predecessor behind it.
abbrev pub Led : Cfg → (ℕ → Type 0) → Search → Search → Type 0
Led cfg Top s after =
    (x : ℕ)
    → mem x after.order ≡ true
    → (mem x s.order ≡ true) ⊎ (Top x ⊎ HasParent cfg x after.order)

pub Led-refl : (cfg : Cfg) (Top : ℕ → Type 0) (s : Search) → Led cfg Top s s
Led-refl cfg Top s x m = inl m

pub Led-trans :
    (cfg : Cfg) (Top : ℕ → Type 0) (a b c : Search) (new : List ℕ)
    → c.order ≡ b.order ++ new
    → Led cfg Top a b
    → Led cfg Top b c
    → Led cfg Top a c
Led-trans cfg Top a b c new e first second x m = elim (second x m) [
  | inr led ↦ inr led
  | inl old ↦ elim (first x old) [
    | inl older ↦ inl older
    | inr (inl top) ↦ inr (inl top)
    | inr (inr (y, edge, before)) ↦ inr (inr (y, edge, rw e (Before-more x y b.order new before)))
  ]
]

pub Led-Edge :
    (cfg : Cfg) (x y : ℕ) (s after : Search)
    → Edge cfg x y
    → Led cfg (λ z. z ≡ y) s after
    → Led cfg (Edge cfg x) s after
Led-Edge cfg x y s after e led z m = elim (led z m) [
  | inl old ↦ inl old
  | inr (inl same) ↦ inr (inl (rw same e))
  | inr (inr parent) ↦ inr (inr parent)
]

pub Led-finish :
    (cfg : Cfg) (x : ℕ) (s after : Search)
    → Led cfg (Edge cfg x) (mark x s) after
    → Led cfg (λ z. z ≡ x) s (finish x after)
Led-finish cfg x s after led z m = elim (snoc-cases z x after.order m) [
  | inr same ↦ inr (inl (sym same))
  | inl k ↦ elim (led z k) [
    | inl old ↦ inl old
    | inr (inl edge) ↦ inr (inr (x, edge, Before-last z x after.order k))
    | inr (inr (y, edge, before)) ↦ inr (inr (y, edge, Before-more z y after.order (x ∷ []) before))
  ]
]

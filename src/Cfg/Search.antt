-- ===== src/Cfg/Search.antt =====
-- The depth-first search reaches what can be reached, and puts each block into the order once.
use calynda_for_wii.Cfg.Dominance.{Search}
use calynda_for_wii.Cfg.Graph.{cfg_invalid, CfgEdge, Cfg}
use calynda_for_wii.Base.{
  ℕ, zero, suc, ◌≤◌, ◌<◌, Bool, true, false, not, ◌&&◌, ◌||◌, List, [], ◌∷◌, ◌++◌, append-nil,
  append_assoc, length, get_or, set, mem, ◌==◌, Memᴰ, ◌≡◌, ◌⊎◌, inl, inr, refl, sym, ap, ◌∙◌, arith,
  Bool-cases,
}

-- A transfer of control from one block to another.
abbrev pub Edge : Cfg → ℕ → ℕ → Type 0
Edge cfg x y =
    (e : CfgEdge) × Memᴰ e cfg.edges × (e.from ≡ x) × (e.to ≡ y) × ((e.to == cfg_invalid) ≡ false)

pub data Reaches (cfg : Cfg) (x : ℕ) : ℕ → Type 0 where
  stay : Reaches cfg x x
  onward : {y z : ℕ} → Reaches cfg x y → Edge cfg y z → Reaches cfg x z

Reaches-behind : (cfg : Cfg) (x y z : ℕ) → Edge cfg x y → Reaches cfg y z → Reaches cfg x z
Reaches-behind cfg x y _ e stay = onward stay e
Reaches-behind cfg x y z e (onward path last) = onward (Reaches-behind cfg x y _ e path) last

abbrev pub distinct : List ℕ → Bool
distinct [] = true
distinct (x ∷ l) = not (mem x l) && distinct l

pub mem-snoc : (x y : ℕ) (l : List ℕ) → mem x (l ++ y ∷ []) ≡ (mem x l || x == y)
mem-snoc x y [] = ground arith
mem-snoc x y (z ∷ l) = ground (arith, mem-snoc x y l)

pub snoc-cases : (y x : ℕ) (l : List ℕ) → mem y (l ++ x ∷ []) ≡ true → (mem y l ≡ true) ⊎ (x ≡ y)
snoc-cases y x l m = elim (Bool-cases (mem y l)) [
  | inl k ↦ inl k
  | inr k ↦ inr (ground (arith, mem-snoc y x l, m, k))
]

pub distinct-snoc : (y : ℕ) (l : List ℕ) → distinct (l ++ y ∷ []) ≡ (distinct l && not (mem y l))
distinct-snoc y [] = refl
distinct-snoc y (z ∷ l) = ground (arith, distinct-snoc y l, mem-snoc z y l)

abbrev pub is_seen : Search → ℕ → Bool
is_seen s x = get_or s.seen x false

abbrev pub unseen : List Bool → ℕ
unseen [] = 0
unseen (true ∷ l) = unseen l
unseen (false ∷ l) = suc (unseen l)

pub unseen-set :
    (l : List Bool) (i : ℕ)
    → i < length l
    → get_or l i false ≡ false
    → suc (unseen (set l i true)) ≡ unseen l
unseen-set [] i h e = absurd (omega (arith, h))
unseen-set (true ∷ l) zero h e = cc
unseen-set (false ∷ l) zero h e = refl
unseen-set (true ∷ l) (suc i) h e = unseen-set l i (omega (arith, h)) e
unseen-set (false ∷ l) (suc i) h e = ap suc (unseen-set l i (omega (arith, h)) e)

-- The blocks in the order have been seen, and none stands there twice.
pub record IsSearch (cfg : Cfg) (s : Search) : Type 0 where
  pub size : length s.seen ≡ length cfg.blocks
  pub are_seen : (x : ℕ) → mem x s.order ≡ true → is_seen s x ≡ true
  pub once : distinct s.order ≡ true

-- What a search from a block has done: every block that it has seen for the first time can be reached
-- from there, is in the order, and so were not all of its successors missed.
pub record IsVisited (cfg : Cfg) (start : ℕ) (s after : Search) : Type 0 where
  pub keeps : (x : ℕ) → is_seen s x ≡ true → is_seen after x ≡ true
  pub extends : (new : List ℕ) × (after.order ≡ s.order ++ new)
  pub keeps_order : (x : ℕ) → mem x s.order ≡ true → mem x after.order ≡ true
  pub fresh : (x : ℕ) → mem x after.order ≡ true → (mem x s.order ≡ true) ⊎ (is_seen s x ≡ false)
  pub finished :
      (x : ℕ) → is_seen after x ≡ true → (is_seen s x ≡ true) ⊎ (mem x after.order ≡ true)
  pub reached : (x : ℕ) → is_seen after x ≡ true → (is_seen s x ≡ true) ⊎ Reaches cfg start x
  pub closed :
      (x y : ℕ)
      → mem x after.order ≡ true
      → Edge cfg x y
      → (mem x s.order ≡ true) ⊎ (is_seen after y ≡ true)
  pub fewer : unseen after.seen ≤ unseen s.seen
  pub whole : IsSearch cfg after

pub IsVisited-refl : (cfg : Cfg) (start : ℕ) (s : Search) → IsSearch cfg s → IsVisited cfg start s s
IsVisited-refl cfg start s w = record {
  keeps = λ x h. h;
  extends = ([], sym (append-nil s.order));
  keeps_order = λ x h. h;
  fresh = λ x h. inl h;
  finished = λ x h. inl h;
  reached = λ x h. inl h;
  closed = λ x y h e. inl h;
  fewer = omega arith;
  whole = w;
}

pub IsVisited-trans :
    (cfg : Cfg) (start : ℕ) (a b c : Search)
    → IsVisited cfg start a b
    → IsVisited cfg start b c
    → IsVisited cfg start a c
IsVisited-trans cfg start a b c v w = record {
  keeps = λ x h. w.keeps x (v.keeps x h);
  extends = (
    v.extends.0 ++ w.extends.0,
    w.extends.1
        ∙ ap (λ k. k ++ w.extends.0) v.extends.1
        ∙ append_assoc a.order v.extends.0 w.extends.0,
  );
  keeps_order = λ x h. w.keeps_order x (v.keeps_order x h);
  fresh = λ x h. elim (w.fresh x h) [
    | inl before ↦ v.fresh x before
    | inr new ↦ elim (Bool-cases (is_seen a x)) [
      | inl old ↦ absurd (cc (v.keeps x old))
      | inr new' ↦ inr new'
    ]
  ];
  finished = λ x h. elim (w.finished x h) [
    | inr there ↦ inr there
    | inl before ↦ elim (v.finished x before) [
      | inl old ↦ inl old
      | inr there ↦ inr (w.keeps_order x there)
    ]
  ];
  reached = λ x h. elim (w.reached x h) [ inr path ↦ inr path | inl before ↦ v.reached x before ];
  closed = λ x y h e. elim (w.closed x y h e) [
    | inr next ↦ inr next
    | inl before ↦ elim (v.closed x y before e) [
      | inl old ↦ inl old
      | inr next ↦ inr (w.keeps y next)
    ]
  ];
  fewer = omega (arith, v.fewer, w.fewer);
  whole = w.whole;
}

pub IsVisited-Edge :
    (cfg : Cfg) (x y : ℕ) (s after : Search)
    → Edge cfg x y
    → IsVisited cfg y s after
    → IsVisited cfg x s after
IsVisited-Edge cfg x y s after e v = record {
  keeps = v.keeps;
  extends = v.extends;
  keeps_order = v.keeps_order;
  fresh = v.fresh;
  finished = v.finished;
  closed = v.closed;
  fewer = v.fewer;
  whole = v.whole;
  reached = λ z h. elim (v.reached z h) [
    | inl old ↦ inl old
    | inr path ↦ inr (Reaches-behind cfg x y z e path)
  ];
}

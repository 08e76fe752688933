-- ===== src/Cfg/Depth.antt =====
-- The depth-first search ends, with as much fuel as there are blocks, and visits what it should.
use calynda_for_wii.Cfg.Parents.{Led-trans, Led-Edge, Led-finish, Led, Led-refl}
use calynda_for_wii.Cfg.Search.{
  Edge, snoc-cases, distinct-snoc, unseen-set, stay, IsVisited-Edge, IsVisited-trans, mem-snoc,
  IsVisited-refl, IsVisited, unseen, is_seen, IsSearch,
}
use calynda_for_wii.Cfg.Dominance.{dfs_post, visit, finish, mark, Search}
use calynda_for_wii.Cfg.Graph.{cfg_invalid, CfgEdge, Cfg}
use calynda_for_wii.Base.{
  ℕ, zero, suc, ◌<◌, Bool, true, false, ◌&&◌, ◌||◌, Option, some, List, [], ◌∷◌, ◌++◌, append_assoc,
  length, get_or-set, length-set, mem, ltb, ◌==◌, Memᴰ, ◌≡◌, inl, inr, refl, sym, ap, ◌∙◌, arith,
  Bool-cases, if◌then◌else◌,
}
use mathlib.Core.List.Memᴰ

-- A search from any block, with at most so many unseen blocks, ends.
abbrev pub Searches : Cfg → ℕ → (ℕ → Search → Option Search) → Type 0
Searches cfg fuel search =
    (x : ℕ) (s : Search)
    → x < length cfg.blocks
    → IsSearch cfg s
    → unseen s.seen < fuel
    → (after : Search) × (search x s ≡ some after)
      × IsVisited cfg x s after
      × (is_seen after x ≡ true)
      × Led cfg (λ z. z ≡ x) s after

-- The edges lead to blocks.
abbrev pub leads_inside : ℕ → List CfgEdge → Bool
leads_inside n [] = true
leads_inside n (e ∷ edges) = (e.to == cfg_invalid || ltb e.to n) && leads_inside n edges

-- The successors of a block among these edges have been seen.
abbrev pub Followed : ℕ → List CfgEdge → Search → Type 0
Followed x edges s =
    (e : CfgEdge)
    → Memᴰ e edges
    → e.from ≡ x
    → (e.to == cfg_invalid) ≡ false
    → is_seen s e.to ≡ true

inside_at :
    (n : ℕ) (edges : List CfgEdge) (e : CfgEdge)
    → leads_inside n edges ≡ true
    → Memᴰ e edges
    → (e.to == cfg_invalid) ≡ false
    → e.to < n
inside_at n [] e h m valid = absurd (Memᴰ.not-nil m)
inside_at n (d ∷ edges) e h (Memᴰ.head same) valid =
    let valid' : (d.to == cfg_invalid) ≡ false = rw same at valid in
    rw same (ground (arith, h, valid'))
inside_at n (d ∷ edges) e h (Memᴰ.tail m) valid = inside_at n edges e (ground (arith, h)) m valid

-- The part of the loop that is about one edge.
Edge-IsVisited :
    (cfg : Cfg) (fuel x : ℕ) (search : ℕ → Search → Option Search) (e : CfgEdge) (s : Search)
    → Searches cfg fuel search
    → leads_inside (length cfg.blocks) cfg.edges ≡ true
    → Memᴰ e cfg.edges
    → IsSearch cfg s
    → unseen s.seen < fuel
    → (after : Search) × ((if e.from == x
          then if e.to == cfg_invalid then some s else search e.to s
          else some s)
        ≡ some after)
      × IsVisited cfg x s after
      × Led cfg (Edge cfg x) s after
      × (e.from ≡ x → (e.to == cfg_invalid) ≡ false → is_seen after e.to ≡ true)
Edge-IsVisited cfg fuel x search e s searches inside m w room = elim (Bool-cases (e.from == x)) [
  | inr other ↦ (
    s,
    rw other refl,
    IsVisited-refl cfg x s w,
    Led-refl cfg (Edge cfg x) s,
    λ here valid. absurd (ground (arith, other, here)),
  )
  | inl here ↦ elim (Bool-cases (e.to == cfg_invalid)) [
    | inl leaves ↦ (
      s,
      rw (here, leaves) refl,
      IsVisited-refl cfg x s w,
      Led-refl cfg (Edge cfg x) s,
      λ same valid. absurd (cc (leaves, valid)),
    )
    | inr valid ↦
        let (after, found, v, seen, led) =
          searches e.to s (inside_at (length cfg.blocks) cfg.edges e inside m valid) w room in
        let same : e.from ≡ x = ground (arith, here) in
        (
          after,
          rw (here, valid) found,
          IsVisited-Edge cfg x e.to s after (e, m, same, refl, valid) v,
          Led-Edge cfg x e.to s after (e, m, same, refl, valid) led,
          λ same' valid'. seen,
        )
  ]
]

visit-IsVisited :
    (cfg : Cfg) (fuel x : ℕ) (search : ℕ → Search → Option Search) (edges : List CfgEdge)
    (s : Search)
    → Searches cfg fuel search
    → leads_inside (length cfg.blocks) cfg.edges ≡ true
    → ((e : CfgEdge) → Memᴰ e edges → Memᴰ e cfg.edges)
    → IsSearch cfg s
    → unseen s.seen < fuel
    → (after : Search) × (visit search x edges s ≡ some after)
      × IsVisited cfg x s after
      × Led cfg (Edge cfg x) s after
      × Followed x edges after
visit-IsVisited cfg fuel x search [] s searches inside part w room =
    (s, refl, IsVisited-refl cfg x s w, Led-refl cfg (Edge cfg x) s, λ e m. absurd (Memᴰ.not-nil m))
visit-IsVisited cfg fuel x search (d ∷ edges) s searches inside part w room =
    let (next, first, v, led, seen) =
      Edge-IsVisited cfg fuel x search d s searches inside (part d (Memᴰ.head refl)) w room in
    let (after, rest, v', led', followed) =
      visit-IsVisited cfg fuel x search edges next searches inside (λ e m. part e (Memᴰ.tail m))
        v.whole (omega (arith, v.fewer, room)) in
    (
      after,
      rw first rest,
      IsVisited-trans cfg x s next after v v',
      Led-trans cfg (Edge cfg x) s next after v'.extends.0 v'.extends.1 led led',
      followed_both x d edges next after seen v'.keeps followed,
    )
  where
    followed_both :
        (x : ℕ) (d : CfgEdge) (edges : List CfgEdge) (next after : Search)
        → (d.from ≡ x → (d.to == cfg_invalid) ≡ false → is_seen next d.to ≡ true)
        → ((y : ℕ) → is_seen next y ≡ true → is_seen after y ≡ true)
        → Followed x edges after
        → Followed x (d ∷ edges) after
    followed_both x d edges next after seen keeps followed e (Memᴰ.head same) here valid =
        rw same (keeps d.to (seen (rw same at here) (rw same at valid)))
    followed_both x d edges next after seen keeps followed e (Memᴰ.tail m) here valid =
        followed e m here valid

is_seen-mark :
    (x y : ℕ) (s : Search) → x < length s.seen → is_seen (mark x s) y ≡ (y == x || is_seen s y)
is_seen-mark x y s h = get_or-set s.seen x y true false h ∙ ground arith

mark-IsSearch :
    (cfg : Cfg) (x : ℕ) (s : Search)
    → x < length cfg.blocks
    → IsSearch cfg s
    → IsSearch cfg (mark x s)
mark-IsSearch cfg x s h w = record {
  size = length-set s.seen x true ∙ w.size;
  are_seen =
      λ y m. is_seen-mark x y s (omega (arith, h, w.size)) ∙ rw (w.are_seen y m) (ground arith);
  once = w.once;
}

-- A block that is marked, has its successors visited and is put into the order, is visited.
finish-IsVisited :
    (cfg : Cfg) (x : ℕ) (s after : Search)
    → x < length cfg.blocks
    → IsSearch cfg s
    → is_seen s x ≡ false
    → IsVisited cfg x (mark x s) after
    → Followed x cfg.edges after
    → IsVisited cfg x s (finish x after)
finish-IsVisited cfg x s after h w new v followed =
    let marked = λ (y : ℕ). is_seen-mark x y s (omega (arith, h, w.size)) in
    let missing : mem x after.order ≡ false = elim (Bool-cases (mem x after.order)) [
      | inr e ↦ e
      | inl e ↦ elim (v.fresh x e) [
        | inl old ↦ absurd (cc (w.are_seen x old, new))
        | inr unmarked ↦ absurd (ground (arith, marked x, unmarked))
      ]
    ] in
    let seen : is_seen after x ≡ true = v.keeps x (ground (arith, marked x)) in
    record {
      keeps = λ y k. v.keeps y (ground (arith, marked y, k));
      extends = (
        v.extends.0 ++ x ∷ [],
        ap (λ k. k ++ x ∷ []) v.extends.1 ∙ append_assoc s.order v.extends.0 (x ∷ []),
      );
      keeps_order = λ y m. ground (arith, mem-snoc y x after.order, v.keeps_order y m);
      fresh = λ y m. elim (snoc-cases y x after.order m) [
        | inr same ↦ inr (rw (← same) new)
        | inl k ↦ elim (v.fresh y k) [
          | inl old ↦ inl old
          | inr unmarked ↦ inr (ground (arith, marked y, unmarked))
        ]
      ];
      finished = λ y k. elim (v.finished y k) [
        | inr m ↦ inr (ground (arith, mem-snoc y x after.order, m))
        | inl k' ↦ ground (arith, marked y, k', mem-snoc y x after.order)
      ];
      reached = λ y k. elim (v.reached y k) [
        | inr path ↦ inr path
        | inl k' ↦ elim (Bool-cases (y == x)) [
          | inl e ↦ let same : x ≡ y = ground (arith, e) in inr (rw (← same) stay)
          | inr e ↦ inl (ground (arith, marked y, k', e))
        ]
      ];
      closed = λ y z m (e, listed, from, to, valid). elim (snoc-cases y x after.order m) [
        | inr same ↦ inr (rw to at (followed e listed (from ∙ sym same) valid))
        | inl k ↦ v.closed y z k (e, listed, from, to, valid)
      ];
      fewer = omega (arith, v.fewer, unseen-set s.seen x (omega (arith, h, w.size)) new);
      whole = record {
        size = v.whole.size;
        are_seen = λ y m. elim (snoc-cases y x after.order m) [
          | inr same ↦ rw (← same) seen
          | inl k ↦ v.whole.are_seen y k
        ];
        once = distinct-snoc x after.order ∙ rw (v.whole.once, missing) refl;
      };
    }

-- The search ends, with more fuel than there are unseen blocks.
pub dfs_post-Searches :
    (fuel : ℕ) (cfg : Cfg)
    → leads_inside (length cfg.blocks) cfg.edges ≡ true
    → Searches cfg fuel (dfs_post fuel cfg)
unfolding dfs_post
dfs_post-Searches zero cfg inside x s h w room = absurd (omega (arith, room))
dfs_post-Searches (suc fuel) cfg inside x s h w room = elim (Bool-cases (is_seen s x)) [
  | inl old ↦
      (s, rw (old, dfs_post) refl, IsVisited-refl cfg x s w, old, Led-refl cfg (λ z. z ≡ x) s)
  | inr new ↦
      let fewer = unseen-set s.seen x (omega (arith, h, w.size)) new in
      let (after, walked, v, led, followed) =
        visit-IsVisited cfg fuel x (dfs_post fuel cfg) cfg.edges (mark x s)
          (dfs_post-Searches fuel cfg inside) inside (λ e m. m) (mark-IsSearch cfg x s h w)
          (omega (arith, fewer, room)) in
      (
        finish x after,
        rw (new, walked, dfs_post) refl,
        finish-IsVisited cfg x s after h w new v followed,
        v.keeps x (ground (arith, is_seen-mark x x s (omega (arith, h, w.size)))),
        Led-finish cfg x s after led,
      )
]

-- ===== src/Cfg/PostOrder.antt =====
-- What the search from the entry block leaves in the order.
use calynda_for_wii.Cfg.Parents.{HasParent}
use calynda_for_wii.Cfg.Depth.{dfs_post-Searches, leads_inside}
use calynda_for_wii.Cfg.Graph.{Cfg}
use calynda_for_wii.Cfg.Dominance.{finish, mark, visit, dfs_post, Search}
use calynda_for_wii.Cfg.Search.{onward, Reaches, is_seen, Edge, distinct, unseen, stay}
use calynda_for_wii.Base.{
  ℕ, zero, suc, ◌<◌, Bool, true, false, ◌&&◌, some, List, [], ◌∷◌, ◌++◌, length, length-replicate,
  get_or, get_or-replicate, replicate, mem, ltb, ◌≡◌, ◌⊎◌, inl, inr, refl, sym, ap, ◌∙◌, arith,
  Option-cases, ◌>>=◌,
}

-- The entry is a block, and so is the target of every edge that has one.
abbrev pub is_wired : Cfg → Bool
is_wired cfg = ltb cfg.entry_block (length cfg.blocks) && leads_inside (length cfg.blocks) cfg.edges

abbrev pub no_search : ℕ → Search
no_search n = record { seen = replicate n false; order = [] }

unseen-replicate : (n : ℕ) → unseen (replicate n false) ≡ n
unseen-replicate zero = refl
unseen-replicate (suc n) = ap suc (unseen-replicate n)

-- The order of a search from the entry, before it is turned round.
pub record IsPostOrder (cfg : Cfg) (order : List ℕ) : Type 0 where
  pub once : distinct order ≡ true
  pub all : (b : ℕ) → Reaches cfg cfg.entry_block b → mem b order ≡ true
  pub only : (b : ℕ) → mem b order ≡ true → Reaches cfg cfg.entry_block b
  pub inside : (b : ℕ) → mem b order ≡ true → b < length cfg.blocks
  pub entry_last : (l : List ℕ) × (order ≡ l ++ cfg.entry_block ∷ [])
  pub led : (b : ℕ) → mem b order ≡ true → (b ≡ cfg.entry_block) ⊎ HasParent cfg b order

seen_inside : (l : List Bool) (x : ℕ) → get_or l x false ≡ true → x < length l
seen_inside [] x e = cc
seen_inside (b ∷ l) zero e = omega arith
seen_inside (b ∷ l) (suc x) e = let below = seen_inside l x e in omega (arith, below)

dfs_step :
    (fuel : ℕ) (cfg : Cfg) (x : ℕ) (s : Search)
    → is_seen s x ≡ false
    → dfs_post (suc fuel) cfg x s
      ≡ (visit (dfs_post fuel cfg) x cfg.edges (mark x s) >>= λ after. some (finish x after))
unfolding dfs_post
dfs_step fuel cfg x s new = rw (new, dfs_post) refl

reached-mem :
    (cfg : Cfg) (x b : ℕ) (order : List ℕ)
    → ((y z : ℕ) → mem y order ≡ true → Edge cfg y z → mem z order ≡ true)
    → mem x order ≡ true
    → Reaches cfg x b
    → mem b order ≡ true
reached-mem cfg x b order closed m stay = m
reached-mem cfg x b order closed m (onward {y} path e) =
    closed y b (reached-mem cfg x y order closed m path) e

-- A search that goes on ends with its block.
dfs_post-last :
    (fuel : ℕ) (cfg : Cfg) (x : ℕ) (s after : Search)
    → is_seen s x ≡ false
    → dfs_post (suc fuel) cfg x s ≡ some after
    → (l : List ℕ) × (after.order ≡ l ++ x ∷ [])
dfs_post-last fuel cfg x s after new e =
    let walked = sym (dfs_step fuel cfg x s new) ∙ e in
    elim (Option-cases (visit (dfs_post fuel cfg) x cfg.edges (mark x s))) [
      | inl stuck ↦ let impossible = rw stuck at walked in absurd (cc impossible)
      | inr (last, done) ↦
          let same : some (finish x last) ≡ some after = rw done at walked in
          let same' : finish x last ≡ after = cc same in (last.order, ap (λ k. k.order) (sym same'))
    ]

-- The search from the entry ends.
pub search-IsPostOrder :
    (cfg : Cfg)
    → is_wired cfg ≡ true
    → (s : Search) × (dfs_post
          (suc (length cfg.blocks))
          cfg
          cfg.entry_block
          (no_search (length cfg.blocks))
        ≡ some s)
      × IsPostOrder cfg s.order
search-IsPostOrder cfg wired =
    let n = length cfg.blocks in
    let entry = cfg.entry_block in
    let s = no_search n in
    let nothing = λ (x : ℕ). get_or-replicate n x false in
    let room = unseen-replicate n in
    let (after, found, v, seen, led) =
      dfs_post-Searches (suc n) cfg (ground (arith, wired)) entry s (ground (arith, wired))
        (record { size = length-replicate n false; are_seen = λ x m. cc; once = refl })
        (omega (arith, room)) in
    let ordered : (x : ℕ) → is_seen after x ≡ true → mem x after.order ≡ true =
      λ x k. elim (v.finished x k) [ inl old ↦ absurd (cc (nothing x, old)) | inr m ↦ m ] in
    (
      after,
      found,
      record {
        once = v.whole.once;
        all = λ b path.
            reached-mem cfg entry b after.order
              (λ y z m e. elim (v.closed y z m e) [
                | inl old ↦ absurd (cc old)
                | inr next ↦ ordered z next
              ])
              (ordered entry seen) path;
        only = λ b m. elim (v.reached b (v.whole.are_seen b m)) [
          | inl old ↦ absurd (cc (nothing b, old))
          | inr path ↦ path
        ];
        inside = λ b m.
            let below = seen_inside after.seen b (v.whole.are_seen b m) in
            omega (arith, below, v.whole.size);
        entry_last = dfs_post-last n cfg entry s after (nothing entry) found;
        led = λ b m. elim (led b m) [ inl old ↦ absurd (cc old) | inr top ↦ top ];
      },
    )

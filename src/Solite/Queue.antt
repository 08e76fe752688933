-- ===== src/Solite/Queue.antt =====
-- The queue of pending effects and their flags, in every state that calls of the runtime reach.
use calynda_for_wii.Base.{
  mem, inl, inr, Bool-cases, if_elim, ap, length-append, ℕ, zero, suc, ◌≤◌, Bool, true, false, ◌||◌,
  ◌&&◌, not, Option, none, some, List, [], ◌∷◌, ◌++◌, ltb, ◌==◌, if◌then◌else◌, length, ◌>>=◌, ◌≡◌,
  refl, arith,
}
use calynda_for_wii.Solite.State.{
  solid_observer_stack_max, SoliteState, SoliteEffectFn, user_fn, memo_recompute_fn, Callbacks,
  set_effect, set_memo, solid_pending_max, solid_observer_push, solid_observer_pop,
}
use calynda_for_wii.Solite.Effect.{
  solite_effect_schedule, memo_recompute_cb, call_fn, effect_run, run_snapshot, drain_pending,
  solite_effect_flush_pending,
}

abbrev pub distinct : List ℕ → Bool
distinct [] = true
distinct (x ∷ l) = not (mem x l) && distinct l

mem_middle : (e x : ℕ) (l r : List ℕ) → mem x (l ++ e ∷ r) ≡ (x == e || mem x (l ++ r))
mem_middle e x [] r = refl
mem_middle e x (y ∷ l) r = ground (arith, mem_middle e x l r)

distinct_middle :
    (e : ℕ) (l r : List ℕ) → distinct (l ++ e ∷ r) ≡ (not (mem e (l ++ r)) && distinct (l ++ r))
distinct_middle e [] r = refl
distinct_middle e (y ∷ l) r = ground (arith, distinct_middle e l r, mem_middle e y l r)

-- The queue fits its array, no effect stands twice in it or among those that a round has still to run
-- (`held`), and the flag of an effect says whether it stands there.
pub record IsQueue (held : List ℕ) (s : SoliteState) : Type 0 where
  pub fits : length s.pending_queue ≤ solid_pending_max
  pub once : distinct (s.pending_queue ++ held) ≡ true
  pub flags : (e : ℕ) → (s.effects e).pending ≡ mem e (s.pending_queue ++ held)

append-enqueue : (e : ℕ) (queue held : List ℕ) → (queue ++ e ∷ []) ++ held ≡ queue ++ e ∷ held
append-enqueue e [] held = refl
append-enqueue e (x ∷ queue) held = ap (◌∷◌ x) (append-enqueue e queue held)

enqueue-IsQueue :
    (held : List ℕ) (e : ℕ) (s : SoliteState)
    → IsQueue held s
    → (s.effects e).pending ≡ false
    → ltb (length s.pending_queue) solid_pending_max ≡ true
    → IsQueue held (record (set_effect e (record (s.effects e) { pending = true }) s) {
      pending_queue = s.pending_queue ++ e ∷ [];
    })
enqueue-IsQueue held e s h free room = record {
  fits = ground (arith, length-append s.pending_queue (e ∷ []));
  once =
      rw append-enqueue (ground (arith, h.once, h.flags e, distinct_middle e s.pending_queue held));
  flags = λ x. rw append-enqueue (ground (arith, h.flags x, mem_middle e x s.pending_queue held));
}

pub schedule-IsQueue :
    (held : List ℕ) (e : ℕ) (s : SoliteState)
    → IsQueue held s
    → IsQueue held (solite_effect_schedule e s)
unfolding solite_effect_schedule
schedule-IsQueue held e s h = elim (Bool-cases ((s.effects e).disposed || (s.effects e).pending)) [
  | inl skip ↦ rw skip h
  | inr free ↦ elim (Bool-cases (ltb (length s.pending_queue) solid_pending_max)) [
    | inl room ↦ rw (free, room) (enqueue-IsQueue held e s h (ground arith) room)
    | inr full ↦ rw (free, full) h
  ]
]

-- An effect that is held is taken.
take-IsQueue :
    (held : List ℕ) (e : ℕ) (s : SoliteState)
    → IsQueue (e ∷ held) s
    → IsQueue held (set_effect e (record (s.effects e) { pending = false }) s)
take-IsQueue held e s h = record {
  fits = h.fits;
  once = ground (arith, h.once, distinct_middle e s.pending_queue held);
  flags = λ x. ground (
    arith,
    h.flags x,
    h.once,
    distinct_middle e s.pending_queue held,
    mem_middle e x s.pending_queue held,
  );
}

-- Callbacks that keep the invariant, whatever is held.
pub record KeepsQueue (callbacks : Callbacks) : Type 0 where
  pub call_keeps :
      (held : List ℕ) (f context : ℕ) (s t : SoliteState)
      → IsQueue held s
      → callbacks.call f context s ≡ some t
      → IsQueue held t
  pub call_memo_keeps :
      (held : List ℕ) (f context : ℕ) (s : SoliteState) (r : SoliteState × ℕ)
      → IsQueue held s
      → callbacks.call_memo f context s ≡ some r
      → IsQueue held r.0

-- A run that ends leaves the queue in order.
abbrev pub Leaves : List ℕ → Option SoliteState → Type 0
Leaves held none = Unit
Leaves held (some t) = IsQueue held t

Leaves-of :
    (held : List ℕ) (o : Option SoliteState)
    → ((t : SoliteState) → o ≡ some t → IsQueue held t)
    → Leaves held o
Leaves-of held none h = tt
Leaves-of held (some t) h = h t refl

Leaves-bind :
    (before after : List ℕ) (o : Option SoliteState) (f : SoliteState → Option SoliteState)
    → Leaves before o
    → ((t : SoliteState) → IsQueue before t → Leaves after (f t))
    → Leaves after (o >>= f)
Leaves-bind before after none f h k = tt
Leaves-bind before after (some t) f h k = k t h

memo_recompute-Leaves :
    (callbacks : Callbacks) (held : List ℕ) (memo : ℕ) (s : SoliteState)
    → KeepsQueue callbacks
    → IsQueue held s
    → Leaves held (memo_recompute_cb callbacks memo s)
unfolding memo_recompute_cb
memo_recompute-Leaves callbacks held memo s k h =
    go (callbacks.call_memo (s.memos memo).fn (s.memos memo).context s)
      (λ r. k.call_memo_keeps held (s.memos memo).fn (s.memos memo).context s r h)
  where
    go :
        (o : Option (SoliteState × ℕ))
        → ((r : SoliteState × ℕ) → o ≡ some r → IsQueue held r.0)
        → Leaves held (
            o >>= λ (t, value).
            some (set_memo memo (record (t.memos memo) { cached_value = value; dirty = false }) t))
    go none f = tt
    go (some (t, value)) f =
        let q = f (t, value) refl in record { fits = q.fits; once = q.once; flags = q.flags }

call_fn-Leaves :
    (callbacks : Callbacks) (held : List ℕ) (fn : SoliteEffectFn) (context : ℕ) (s : SoliteState)
    → KeepsQueue callbacks
    → IsQueue held s
    → Leaves held (call_fn callbacks fn context s)
call_fn-Leaves callbacks held (user_fn f) context s k h =
    Leaves-of held _ (λ t. k.call_keeps held f context s t h)
call_fn-Leaves callbacks held memo_recompute_fn context s k h =
    memo_recompute-Leaves callbacks held context s k h

push-IsQueue :
    (held : List ℕ) (e : ℕ) (s : SoliteState)
    → IsQueue held s
    → IsQueue held (solid_observer_push e s)
unfolding solid_observer_push
push-IsQueue held e s h =
    elim (Bool-cases (ltb (length s.observer_stack) solid_observer_stack_max)) [
      | inl room ↦ rw room (record { fits = h.fits; once = h.once; flags = h.flags })
      | inr full ↦ rw full h
    ]

pub effect_run-Leaves :
    (callbacks : Callbacks) (held : List ℕ) (e : ℕ) (s : SoliteState)
    → KeepsQueue callbacks
    → IsQueue held s
    → Leaves held (effect_run callbacks e s)
unfolding effect_run solid_observer_pop
effect_run-Leaves callbacks held e s k h = elim (Bool-cases (s.effects e).disposed) [
  | inl gone ↦ rw gone h
  | inr live ↦ rw live (
      Leaves-bind held held _ _
        (call_fn-Leaves callbacks held (s.effects e).fn (s.effects e).context
          (solid_observer_push e s) k (push-IsQueue held e s h))
        (λ t q. record { fits = q.fits; once = q.once; flags = q.flags }))
]

run_snapshot-Leaves :
    (callbacks : Callbacks) (snapshot held : List ℕ) (s : SoliteState)
    → KeepsQueue callbacks
    → IsQueue (snapshot ++ held) s
    → Leaves held (run_snapshot callbacks snapshot s)
unfolding run_snapshot
run_snapshot-Leaves callbacks [] held s k h = h
run_snapshot-Leaves callbacks (e ∷ snapshot) held s k h =
    let t = set_effect e (record (s.effects e) { pending = false }) s in
    let q = take-IsQueue (snapshot ++ held) e s h in
    Leaves-bind (snapshot ++ held) held
      (if (t.effects e).disposed then some t else effect_run callbacks e t)
      (run_snapshot callbacks snapshot)
      (if_elim (Leaves (snapshot ++ held)) (t.effects e).disposed {x = some t}
        {y = effect_run callbacks e t} (λ c. q)
        (λ c. effect_run-Leaves callbacks (snapshot ++ held) e t k q))
      (λ u r. run_snapshot-Leaves callbacks snapshot held u k r)

drain_pending-Leaves :
    (fuel : ℕ) (callbacks : Callbacks) (held : List ℕ) (s : SoliteState)
    → KeepsQueue callbacks
    → IsQueue held s
    → Leaves held (drain_pending fuel callbacks s)
unfolding drain_pending
drain_pending-Leaves zero callbacks held s k h = tt
drain_pending-Leaves (suc fuel) callbacks held s k h =
    if_elim (Leaves held) (length s.pending_queue == 0) {x = some s} (λ c. h)
      (λ c.
        Leaves-bind held held
          (run_snapshot callbacks s.pending_queue (record s { pending_queue = [] }))
          (drain_pending fuel callbacks)
          (run_snapshot-Leaves callbacks s.pending_queue held (record s { pending_queue = [] }) k
            (record { fits = omega arith; once = h.once; flags = h.flags }))
          (λ t q. drain_pending-Leaves fuel callbacks held t k q))

pub flush-Leaves :
    (fuel : ℕ) (callbacks : Callbacks) (held : List ℕ) (s : SoliteState)
    → KeepsQueue callbacks
    → IsQueue held s
    → Leaves held (solite_effect_flush_pending fuel callbacks s)
unfolding solite_effect_flush_pending
flush-Leaves fuel callbacks held s k h =
    if_elim (Leaves held) (ltb 0 s.batch_depth) {x = some s} (λ c. h)
      (λ c. drain_pending-Leaves fuel callbacks held s k h)

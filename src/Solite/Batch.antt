-- ===== src/Solite/Batch.antt =====
-- Writes in a batch, and the flush of the queue.
use calynda_for_wii.Solite.Signal.{write_and_notify, schedule_all, solite_signal_set}
use calynda_for_wii.Base.{
  mem, not, ltb, ◌&&◌, ◌||◌, ◌∙◌, inr, inl, ◌==◌, Bool-cases, ◌+◌, length-append, length, ℕ, suc,
  ◌≤◌, ◌<◌, true, false, some, List, [], ◌∷◌, ◌≡◌, refl, arith,
}
use calynda_for_wii.Solite.State.{
  set_memo, memo_recompute_fn, user_fn, solid_observer_push, SoliteEffectFn, solid_observer_pop,
  set_effect, set_signal, Callbacks, solid_pending_max, SoliteState,
}
use calynda_for_wii.Solite.Effect.{
  call_fn, effect_run, memo_recompute_cb, run_snapshot, drain_pending, solite_effect_flush_pending,
  solite_effect_schedule,
}

schedule_lem :
    (e : ℕ) (s : SoliteState)
    → (length (solite_effect_schedule e s).pending_queue ≤ suc (length s.pending_queue))
      × ((solite_effect_schedule e s).batch_depth ≡ s.batch_depth)
      × ((solite_effect_schedule e s).signals ≡ s.signals)
unfolding solite_effect_schedule
schedule_lem e s =
    (ground (arith, length-append s.pending_queue (e ∷ [])), ground arith, ground arith)

-- With room in the queue, the flag of the effect is set if it is not disposed, and no other.
schedule_pending :
    (e x : ℕ) (s : SoliteState)
    → length s.pending_queue < 256
    → (((solite_effect_schedule e s).effects x).disposed ≡ (s.effects x).disposed)
      × (((solite_effect_schedule e s).effects x).pending
          ≡ ((s.effects x).pending || (x == e && not (s.effects x).disposed)))
unfolding solite_effect_schedule
schedule_pending e x s room = (ground arith, ground arith)

schedule_all_lem :
    (l : List ℕ) (s : SoliteState)
    → ((schedule_all l s).batch_depth ≡ s.batch_depth) × ((schedule_all l s).signals ≡ s.signals)
unfolding schedule_all
schedule_all_lem [] s = (refl, refl)
schedule_all_lem (e ∷ l) s =
    ground (arith, schedule_all_lem l (solite_effect_schedule e s), schedule_lem e s)

schedule_all_pending :
    (l : List ℕ) (x : ℕ) (s : SoliteState)
    → length s.pending_queue + length l ≤ 256
    → ((schedule_all l s).effects x).pending
      ≡ ((s.effects x).pending || (mem x l && not (s.effects x).disposed))
unfolding schedule_all
schedule_all_pending [] x s room = ground arith
schedule_all_pending (e ∷ l) x s room =
    let (disposed, pending) = schedule_pending e x s (omega (arith, room)) in
    let rest =
      schedule_all_pending l x (solite_effect_schedule e s)
        (omega (arith, (schedule_lem e s).0, room)) in
    ground (arith, disposed, pending, rest)

-- A write of another value inside a batch, when the queue of 256 entries has room for an entry for each
-- subscriber of the signal, runs no callback, whatever the callbacks are: it returns at once, in the
-- batch and with the new value, and the effects that are pending then are those pending before and the
-- subscribers that are not disposed.
pub solite_signal_set_batched :
    (sig value : ℕ) (s : SoliteState)
    → 0 < s.batch_depth
    → ((s.signals sig).value == value) ≡ false
    → length s.pending_queue + length (s.signals sig).subscribers ≤ solid_pending_max
    → (t : SoliteState) × ((fuel : ℕ) (callbacks : Callbacks)
        → solite_signal_set fuel callbacks sig value s ≡ some t)
      × (t.batch_depth ≡ s.batch_depth)
      × ((t.signals sig).value ≡ value)
      × ((e : ℕ)
          → (t.effects e).pending ≡ (
              (s.effects e).pending
              || (mem e (s.signals sig).subscribers && not (s.effects e).disposed)))
unfolding solite_signal_set write_and_notify solite_effect_flush_pending
solite_signal_set_batched sig value s batch other room =
    let l = (s.signals sig).subscribers in
    let written = set_signal sig (record (s.signals sig) { value = value }) s in
    let (depth, signals) = schedule_all_lem l written in
    let inside : ltb 0 (schedule_all l written).batch_depth ≡ true = rw depth (ground arith) in
    (
      schedule_all l written,
      λ fuel callbacks. rw (other, inside) refl,
      depth,
      rw signals (ground arith),
      λ e. schedule_all_pending l e written room,
    )

-- Callbacks that return and schedule nothing.
pub record IsQuiet (callbacks : Callbacks) : Type 0 where
  pub call_quiet :
      (f context : ℕ) (s : SoliteState)
      → (t : SoliteState) × (callbacks.call f context s ≡ some t)
        × (t.pending_queue ≡ s.pending_queue)
  pub call_memo_quiet :
      (f context : ℕ) (s : SoliteState)
      → (r : SoliteState × ℕ) × (callbacks.call_memo f context s ≡ some r)
        × (r.0.pending_queue ≡ s.pending_queue)

call_fn_quiet :
    (callbacks : Callbacks) (fn : SoliteEffectFn) (context : ℕ) (s : SoliteState)
    → IsQuiet callbacks
    → (t : SoliteState) × (call_fn callbacks fn context s ≡ some t)
      × (t.pending_queue ≡ s.pending_queue)
unfolding memo_recompute_cb
call_fn_quiet callbacks (user_fn f) context s q = q.call_quiet f context s
call_fn_quiet callbacks memo_recompute_fn context s q =
    let ((t, value), e, same) =
      q.call_memo_quiet (s.memos context).fn (s.memos context).context s in
    (
      set_memo context (record (t.memos context) { cached_value = value; dirty = false }) t,
      rw e refl,
      same,
    )

effect_run_quiet :
    (callbacks : Callbacks) (e : ℕ) (s : SoliteState)
    → IsQuiet callbacks
    → (t : SoliteState) × (effect_run callbacks e s ≡ some t) × (t.pending_queue ≡ s.pending_queue)
unfolding effect_run solid_observer_pop solid_observer_push
effect_run_quiet callbacks e s q = elim (Bool-cases (s.effects e).disposed) [
  | inl gone ↦ (s, rw gone refl, refl)
  | inr live ↦
      let (t, c, same) =
        call_fn_quiet callbacks (s.effects e).fn (s.effects e).context (solid_observer_push e s)
          q in
      (solid_observer_pop t, rw (live, c) refl, ground (arith, same))
]

run_snapshot_quiet :
    (callbacks : Callbacks) (snapshot : List ℕ) (s : SoliteState)
    → IsQuiet callbacks
    → (t : SoliteState) × (run_snapshot callbacks snapshot s ≡ some t)
      × (t.pending_queue ≡ s.pending_queue)
unfolding run_snapshot
run_snapshot_quiet callbacks [] s q = (s, refl, refl)
run_snapshot_quiet callbacks (e ∷ snapshot) s q =
    let u = set_effect e (record (s.effects e) { pending = false }) s in
    elim (Bool-cases (u.effects e).disposed) [
      | inl gone ↦
          let (t, c, same) = run_snapshot_quiet callbacks snapshot u q in (t, rw gone c, same)
      | inr live ↦
          let (v, c, same) = effect_run_quiet callbacks e u q in
          let (t, d, same') = run_snapshot_quiet callbacks snapshot v q in
          (t, rw (live, c) d, same' ∙ same)
    ]

no_length : (l : List ℕ) → (length l == 0) ≡ true → l ≡ []
no_length [] e = refl
no_length (x ∷ l) e = ground arith

-- Outside a batch, with callbacks that return and schedule nothing, the flush ends after one round,
-- and no effect is left in the queue.
pub solite_effect_flush_pending_quiet :
    (callbacks : Callbacks) (s : SoliteState)
    → IsQuiet callbacks
    → s.batch_depth ≡ 0
    → (t : SoliteState) × (solite_effect_flush_pending 2 callbacks s ≡ some t)
      × (t.pending_queue ≡ [])
unfolding solite_effect_flush_pending drain_pending
solite_effect_flush_pending_quiet callbacks s q b =
    let (t, c, same) =
      run_snapshot_quiet callbacks s.pending_queue (record s { pending_queue = [] }) q in
    let outside : ltb 0 s.batch_depth ≡ false = ground arith in
    elim (Bool-cases (length s.pending_queue == 0)) [
      | inl empty ↦ (s, rw (outside, empty) refl, no_length s.pending_queue empty)
      | inr full ↦ (t, rw (outside, full, c, same) refl, same)
    ]

-- ===== src/Solite/Effect.antt =====
-- solite_runtime/src/solite_effect.c: the queue of pending effects, batches, and effects.
-- The loop that drains the queue runs on fuel, one unit for a round; `none` says that the fuel ran out
-- or that a callback did not return.
use calynda_for_wii.Base.{
  ℕ, zero, suc, ◌-◌, Bool, true, false, ◌||◌, Option, none, some, List, [], ◌∷◌, ◌++◌, ltb, ◌==◌,
  if◌then◌else◌, length, ◌>>=◌,
}
use calynda_for_wii.Solite.State.{
  SoliteState, SoliteEffectFn, user_fn, memo_recompute_fn, Callbacks, set_effect, set_memo,
  solid_pending_max, solid_observer_push, solid_observer_pop,
}

unfoldable pub solite_batch_start : SoliteState → SoliteState
solite_batch_start s = record s { batch_depth = suc s.batch_depth }

unfoldable pub solite_is_batching : SoliteState → Bool
solite_is_batching s = ltb 0 s.batch_depth

unfoldable pub solite_effect_schedule : ℕ → SoliteState → SoliteState
solite_effect_schedule e s =
    if (s.effects e).disposed || (s.effects e).pending
    then s
    else if ltb (length s.pending_queue) solid_pending_max
    then record (set_effect e (record (s.effects e) { pending = true }) s) {
      pending_queue = s.pending_queue ++ e ∷ [];
    }
    else s

-- The function that recomputes a memo, called with the memo as its context.
unfoldable pub memo_recompute_cb : Callbacks → ℕ → SoliteState → Option SoliteState
memo_recompute_cb callbacks memo s =
    callbacks.call_memo (s.memos memo).fn (s.memos memo).context s >>= λ (t, value).
    some (set_memo memo (record (t.memos memo) { cached_value = value; dirty = false }) t)

-- `effect->fn(effect->context)`.
abbrev pub call_fn : Callbacks → SoliteEffectFn → ℕ → SoliteState → Option SoliteState
call_fn callbacks (user_fn f) context s = callbacks.call f context s
call_fn callbacks memo_recompute_fn context s = memo_recompute_cb callbacks context s

unfoldable pub effect_run : Callbacks → ℕ → SoliteState → Option SoliteState
effect_run callbacks e s =
    if (s.effects e).disposed
    then some s
    else call_fn callbacks (s.effects e).fn (s.effects e).context (solid_observer_push e s) >>= λ t.
        some (solid_observer_pop t)

-- One round: the effects of the snapshot, in order.
unfoldable pub run_snapshot : Callbacks → List ℕ → SoliteState → Option SoliteState
run_snapshot callbacks [] s = some s
run_snapshot callbacks (e ∷ snapshot) s =
    let t = set_effect e (record (s.effects e) { pending = false }) s in
    (if (t.effects e).disposed then some t else effect_run callbacks e t) >>= λ u.
    run_snapshot callbacks snapshot u

unfoldable pub drain_pending : ℕ → Callbacks → SoliteState → Option SoliteState
drain_pending zero callbacks s = none
drain_pending (suc fuel) callbacks s =
    if length s.pending_queue == 0
    then some s
    else run_snapshot callbacks s.pending_queue (record s { pending_queue = [] }) >>= λ t.
        drain_pending fuel callbacks t

unfoldable pub solite_effect_flush_pending : ℕ → Callbacks → SoliteState → Option SoliteState
solite_effect_flush_pending fuel callbacks s =
    if ltb 0 s.batch_depth then some s else drain_pending fuel callbacks s

unfoldable pub solite_batch_end : ℕ → Callbacks → SoliteState → Option SoliteState
solite_batch_end fuel callbacks s =
    let t = record s { batch_depth = s.batch_depth - 1 } in
    if t.batch_depth == 0 then solite_effect_flush_pending fuel callbacks t else some t

-- `address` is what the allocator returned, and the result says which effect it is.
unfoldable pub solite_create_effect :
    Callbacks → Option ℕ → SoliteEffectFn → ℕ → SoliteState → Option (SoliteState × Option ℕ)
solite_create_effect callbacks none fn context s = some (s, none)
solite_create_effect callbacks (some e) fn context s =
    effect_run callbacks e
      (set_effect e (record { fn = fn; context = context; pending = false; disposed = false }) s)
    >>= λ t. some (t, some e)

unfoldable pub solite_effect_dispose : ℕ → SoliteState → SoliteState
solite_effect_dispose e s = set_effect e (record (s.effects e) { disposed = true }) s

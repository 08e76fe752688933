-- ===== src/Solite/Tests.antt =====
-- An effect that reads a signal, and the theorems at it.
use mathlib.Core.Path.{subst}
use calynda_for_wii.Base.{
  mem, ap, sym, ℕ, ◌||◌, ◌&&◌, not, true, false, Option, none, some, [], ◌∷◌, ◌≡◌, refl, arith,
}
use calynda_for_wii.Solite.State.{
  SoliteState, SoliteEffect, SoliteSignal, SoliteMemo, Callbacks, user_fn, solid_observer_current,
  solid_observer_push, solid_observer_pop,
}
use calynda_for_wii.Solite.Effect.{
  effect_run, solite_create_effect, solite_batch_start, solite_effect_schedule,
  solite_effect_flush_pending,
}
use calynda_for_wii.Solite.Signal.{
  is_subscribed, schedule_all, signal_subscribe, solite_signal_get, solite_signal_set,
  write_and_notify,
}
use calynda_for_wii.Solite.Queue.{IsQueue, KeepsQueue}
use calynda_for_wii.Solite.Reach.{
  Reach, at_start, then_step, signal_read, effect_created, batch_started, signal_written,
  Reach-IsQueue, OnlyCalls-KeepsQueue,
}
use calynda_for_wii.Solite.Observers.{effect_run-observers}
use calynda_for_wii.Solite.Tracking.{Tracked, IsSignal, solite_signal_get-Tracked}
use calynda_for_wii.Solite.Batch.{
  IsQuiet, solite_signal_set_batched, solite_effect_flush_pending_quiet,
}

abbrev blank_effect : SoliteEffect
blank_effect = record { fn = user_fn 0; context = 0; pending = false; disposed = false }

abbrev blank_signal : SoliteSignal
blank_signal = record { value = 0; subscribers = []; subscriber_cap = 4 }

abbrev blank_memo : SoliteMemo
blank_memo = record { fn = 0; context = 0; cached_value = 0; tracking_effect = none; dirty = false }

abbrev start : SoliteState
start = record {
  observer_stack = [];
  pending_queue = [];
  batch_depth = 0;
  effects = λ e. blank_effect;
  signals = λ sig. blank_signal;
  memos = λ m. blank_memo;
}

start-IsQueue : IsQueue [] start
start-IsQueue = record { fits = omega arith; once = refl; flags = λ e. refl }

abbrev idle : Callbacks
idle = record { call = λ f context s. some s; call_memo = λ f context s. some (s, 0) }

some_inj : {A : Type 0} {x y : A} → some x ≡ some y → x ≡ y
some_inj e = cc

idle-KeepsQueue : KeepsQueue idle
idle-KeepsQueue = record {
  call_keeps = λ held f context s t h e. subst (IsQueue held) (some_inj e) h;
  call_memo_keeps = λ held f context s r h e. subst (λ r. IsQueue held r.0) (some_inj e) h;
}

-- An effect reads the signal that its context names.
abbrev reader : Callbacks
reader = record {
  call = λ f context s. some (solite_signal_get true context s).0;
  call_memo = λ f context s. some (s, 0);
}

reader-KeepsQueue : KeepsQueue reader
reader-KeepsQueue = OnlyCalls-KeepsQueue idle reader idle-KeepsQueue (record {
  call_reaches = λ f context s t e.
      subst (Reach idle s) (some_inj e) (then_step at_start (signal_read true context));
  call_memo_reaches = λ f context s r e. subst (λ r. Reach idle s r.0) (some_inj e) at_start;
})

abbrev state_of : Option SoliteState → SoliteState
state_of none = start
state_of (some s) = s

abbrev first_of : Option (SoliteState × Option ℕ) → SoliteState
first_of none = start
first_of (some (s, e)) = s

-- Effect 1 reads signal 2; then a batch is open, in which the signal is written.
abbrev subscribed : SoliteState
subscribed = first_of (solite_create_effect reader (some 1) (user_fn 5) 2 start)

abbrev batched : SoliteState
batched = solite_batch_start subscribed

abbrev written : SoliteState
written = state_of (solite_signal_set 0 reader 2 9 batched)

Reach-IsQueue_example : IsQueue [] written
unfolding solite_create_effect solite_batch_start solite_signal_set effect_run solid_observer_push
    solid_observer_pop solid_observer_current solite_signal_get signal_subscribe is_subscribed
    write_and_notify schedule_all solite_effect_schedule solite_effect_flush_pending
Reach-IsQueue_example =
    Reach-IsQueue {held = []} {callbacks = reader} {s = start} {t = written} reader-KeepsQueue
      start-IsQueue
      (then_step
        (then_step
          (then_step {t = start} {u = subscribed} at_start
            (effect_created {result = some 1} 1 (user_fn 5) 2 refl refl))
          batch_started)
        (signal_written {t = written} 0 2 9 refl))

written_pending : written.pending_queue ≡ 1 ∷ []
unfolding solite_create_effect solite_batch_start solite_signal_set effect_run solid_observer_push
    solid_observer_pop solid_observer_current solite_signal_get signal_subscribe is_subscribed
    write_and_notify schedule_all solite_effect_schedule solite_effect_flush_pending
written_pending = refl

-- A callback that runs effect 2, which calls a callback that does nothing.
abbrev nested : Callbacks
nested = record idle { call = λ f context s. effect_run idle 2 s }

abbrev watched : SoliteState
watched = record start { observer_stack = 7 ∷ [] }

effect_run-observers_example : (state_of (effect_run nested 1 watched)).observer_stack ≡ 7 ∷ []
unfolding effect_run solid_observer_push solid_observer_pop
effect_run-observers_example =
    effect_run-observers nested 1 watched (state_of (effect_run nested 1 watched))
      (λ u e. ap (λ s. s.observer_stack) (sym (some_inj e))) refl refl

blank-IsSignal : IsSignal blank_signal
blank-IsSignal = record { fits = omega arith; has_room = omega arith; once = refl }

solite_signal_get-Tracked_example :
    Tracked 7 [] ((solite_signal_get true 2 watched).0.signals 2)
    × ((solite_signal_get true 2 watched).1 ≡ 0)
unfolding solid_observer_current
solite_signal_get-Tracked_example = solite_signal_get-Tracked 2 7 watched refl blank-IsSignal

abbrev in_batch : SoliteState
in_batch = record start {
  batch_depth = 1;
  signals = λ sig. record blank_signal { subscribers = 1 ∷ 3 ∷ [] };
}

solite_signal_set_batched_example :
    (t : SoliteState) × ((fuel : ℕ) (callbacks : Callbacks)
      → solite_signal_set fuel callbacks 2 9 in_batch ≡ some t)
    × (t.batch_depth ≡ 1)
    × ((t.signals 2).value ≡ 9)
    × ((e : ℕ) → (t.effects e).pending ≡ (false || (mem e (1 ∷ 3 ∷ []) && not false)))
solite_signal_set_batched_example =
    solite_signal_set_batched 2 9 in_batch (omega arith) refl (omega arith)

idle-IsQuiet : IsQuiet idle
idle-IsQuiet = record {
  call_quiet = λ f context s. (s, refl, refl);
  call_memo_quiet = λ f context s. ((s, 0), refl, refl);
}

abbrev waiting : SoliteState
waiting = record start { pending_queue = 1 ∷ 3 ∷ [] }

solite_effect_flush_pending_quiet_example :
    (t : SoliteState) × (solite_effect_flush_pending 2 idle waiting ≡ some t)
    × (t.pending_queue ≡ [])
solite_effect_flush_pending_quiet_example =
    solite_effect_flush_pending_quiet idle waiting idle-IsQuiet refl

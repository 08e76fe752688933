-- ===== src/Solite/Reach.antt =====
-- The calls of the runtime as steps, and the states that they reach.
use calynda_for_wii.Solite.Calls.{
  same-IsQueue, dispose-IsQueue, memo_dispose-IsQueue, create_signal-IsQueue, get-IsQueue,
  set-Leaves, batch_end-Leaves, create_effect-IsQueue, create_memo-IsQueue,
}
use calynda_for_wii.Solite.Memo.{solid_create_memo, solite_memo_dispose}
use calynda_for_wii.Solite.Signal.{solite_signal_set, solite_create_signal, solite_signal_get}
use mathlib.Core.Path.{subst}
use calynda_for_wii.Base.{ℕ, Bool, false, Option, none, some, List, ◌≡◌, refl}
use calynda_for_wii.Solite.State.{SoliteState, SoliteEffectFn, Callbacks}
use calynda_for_wii.Solite.Effect.{
  solite_create_effect, solite_effect_flush_pending, solite_effect_schedule, solite_effect_dispose,
  solite_batch_end, solite_batch_start,
}
use calynda_for_wii.Solite.Queue.{schedule-IsQueue, flush-Leaves, Leaves, IsQueue, KeepsQueue}

-- A call of the runtime from outside. An effect is created at an address where no effect is pending:
-- the allocator does not return memory that is in use, and clears it.
pub data Step (callbacks : Callbacks) (s : SoliteState) : SoliteState → Type 0 where
  batch_started : Step callbacks s (solite_batch_start s)
  batch_ended :
      {t : SoliteState} (fuel : ℕ) → solite_batch_end fuel callbacks s ≡ some t → Step callbacks s t
  scheduled : (e : ℕ) → Step callbacks s (solite_effect_schedule e s)
  flushed :
      {t : SoliteState} (fuel : ℕ)
      → solite_effect_flush_pending fuel callbacks s ≡ some t
      → Step callbacks s t
  effect_created :
      {t : SoliteState} {result : Option ℕ} (e : ℕ) (fn : SoliteEffectFn) (context : ℕ)
      → (s.effects e).pending ≡ false
      → solite_create_effect callbacks (some e) fn context s ≡ some (t, result)
      → Step callbacks s t
  effect_disposed : (e : ℕ) → Step callbacks s (solite_effect_dispose e s)
  signal_created :
      (address : Option ℕ) (room : Bool) (value : ℕ)
      → Step callbacks s (solite_create_signal address room value s).0
  signal_read : (room : Bool) (sig : ℕ) → Step callbacks s (solite_signal_get room sig s).0
  signal_written :
      {t : SoliteState} (fuel sig value : ℕ)
      → solite_signal_set fuel callbacks sig value s ≡ some t
      → Step callbacks s t
  memo_created :
      {t : SoliteState} {result : Option ℕ} (m e fn context : ℕ)
      → (s.effects e).pending ≡ false
      → solid_create_memo callbacks (some m) (some e) fn context s ≡ some (t, result)
      → Step callbacks s t
  memo_disposed : (m : ℕ) → Step callbacks s (solite_memo_dispose m s)

pub data Reach (callbacks : Callbacks) (s : SoliteState) : SoliteState → Type 0 where
  at_start : Reach callbacks s s
  then_step : {t u : SoliteState} → Reach callbacks s t → Step callbacks t u → Reach callbacks s u

ended :
    (held : List ℕ) (o : Option SoliteState) (t : SoliteState)
    → Leaves held o
    → o ≡ some t
    → IsQueue held t
ended held none t h c = cc
ended held (some u) t h c = let same : u ≡ t = cc in subst (IsQueue held) same h

pub Step-IsQueue :
    {held : List ℕ} {callbacks : Callbacks} {s t : SoliteState}
    → KeepsQueue callbacks
    → IsQueue held s
    → Step callbacks s t
    → IsQueue held t
unfolding solite_batch_start
Step-IsQueue {held} {callbacks} {s} k h batch_started = same-IsQueue held s _ h refl (λ e. refl)
Step-IsQueue {held} {callbacks} {s} k h (batch_ended {t} fuel c) =
    ended held _ t (batch_end-Leaves held fuel callbacks s k h) c
Step-IsQueue {held} {callbacks} {s} k h (scheduled e) = schedule-IsQueue held e s h
Step-IsQueue {held} {callbacks} {s} k h (flushed {t} fuel c) =
    ended held _ t (flush-Leaves fuel callbacks held s k h) c
Step-IsQueue {held} {callbacks} {s} k h (effect_created {t} {result} e fn context free c) =
    create_effect-IsQueue held callbacks e fn context s t result k free h c
Step-IsQueue {held} {callbacks} {s} k h (effect_disposed e) = dispose-IsQueue held e s h
Step-IsQueue {held} {callbacks} {s} k h (signal_created address room value) =
    create_signal-IsQueue held address room value s h
Step-IsQueue {held} {callbacks} {s} k h (signal_read room sig) = get-IsQueue held room sig s h
Step-IsQueue {held} {callbacks} {s} k h (signal_written {t} fuel sig value c) =
    ended held _ t (set-Leaves held fuel callbacks sig value s k h) c
Step-IsQueue {held} {callbacks} {s} k h (memo_created {t} {result} m e fn context free c) =
    create_memo-IsQueue held callbacks m e fn context s t result k free h c
Step-IsQueue {held} {callbacks} {s} k h (memo_disposed m) = memo_dispose-IsQueue held m s h

-- In every state that calls of the runtime reach from a state in order, with callbacks that keep the
-- queue in order themselves, the queue fits its array, no effect stands in it twice, and the pending
-- flag of an effect says whether it stands there.
pub Reach-IsQueue :
    {held : List ℕ} {callbacks : Callbacks} {s t : SoliteState}
    → KeepsQueue callbacks
    → IsQueue held s
    → Reach callbacks s t
    → IsQueue held t
Reach-IsQueue k h at_start = h
Reach-IsQueue k h (then_step r st) = Step-IsQueue k (Reach-IsQueue k h r) st

-- Callbacks that do nothing but call the runtime, whose callbacks in turn keep the queue in order,
-- keep it in order as well.
pub record OnlyCalls (inner outer : Callbacks) : Type 0 where
  pub call_reaches :
      (f context : ℕ) (s t : SoliteState) → outer.call f context s ≡ some t → Reach inner s t
  pub call_memo_reaches :
      (f context : ℕ) (s : SoliteState) (r : SoliteState × ℕ)
      → outer.call_memo f context s ≡ some r
      → Reach inner s r.0

pub OnlyCalls-KeepsQueue :
    (inner outer : Callbacks) → KeepsQueue inner → OnlyCalls inner outer → KeepsQueue outer
OnlyCalls-KeepsQueue inner outer k o = record {
  call_keeps = λ held f context s t h e. Reach-IsQueue k h (o.call_reaches f context s t e);
  call_memo_keeps =
      λ held f context s r h e. Reach-IsQueue k h (o.call_memo_reaches f context s r e);
}

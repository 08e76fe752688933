-- ===== src/Solite/Calls.antt =====
-- Each call of the runtime leaves the queue in order.
use calynda_for_wii.Solite.Memo.{dispose_tracking, solid_create_memo, solite_memo_dispose}
use calynda_for_wii.Solite.Signal.{
  write_and_notify, is_subscribed, track, solite_signal_set, solite_create_signal, signal_subscribe,
  solite_signal_get, schedule_all,
}
use mathlib.Core.Path.{subst}
use calynda_for_wii.Base.{
  not, ◌&&◌, length, ◌>>=◌, ◌>>=◌, leb, inr, inl, Bool-cases, ◌==◌, if_elim, ◌-◌, ℕ, Bool, true,
  false, Option, none, some, List, [], ◌∷◌, ◌≡◌, refl, arith,
}
use calynda_for_wii.Solite.State.{
  set_memo, memo_recompute_fn, set_signal, solid_observer_current, set_effect, SoliteState,
  SoliteEffectFn, Callbacks,
}
use calynda_for_wii.Solite.Effect.{
  solite_create_effect, effect_run, solite_effect_schedule, solite_effect_dispose, solite_batch_end,
}
use calynda_for_wii.Solite.Queue.{
  schedule-IsQueue, flush-Leaves, effect_run-Leaves, Leaves, IsQueue, KeepsQueue,
}

pub same-IsQueue :
    (held : List ℕ) (s t : SoliteState)
    → IsQueue held s
    → t.pending_queue ≡ s.pending_queue
    → ((e : ℕ) → (t.effects e).pending ≡ (s.effects e).pending)
    → IsQueue held t
same-IsQueue held s t h q f = record {
  fits = rw q h.fits;
  once = rw q h.once;
  flags = λ e. rw (q, f e) (h.flags e);
}

pub dispose-IsQueue :
    (held : List ℕ) (e : ℕ) (s : SoliteState)
    → IsQueue held s
    → IsQueue held (solite_effect_dispose e s)
unfolding solite_effect_dispose
dispose-IsQueue held e s h = same-IsQueue held s _ h refl (λ x. ground arith)

pub memo_dispose-IsQueue :
    (held : List ℕ) (m : ℕ) (s : SoliteState)
    → IsQueue held s
    → IsQueue held (solite_memo_dispose m s)
unfolding solite_memo_dispose
memo_dispose-IsQueue held m s h = go (s.memos m).tracking_effect
  where
    go : (o : Option ℕ) → IsQueue held (dispose_tracking o s)
    go none = h
    go (some e) = dispose-IsQueue held e s h

pub create_signal-IsQueue :
    (held : List ℕ) (address : Option ℕ) (room : Bool) (value : ℕ) (s : SoliteState)
    → IsQueue held s
    → IsQueue held (solite_create_signal address room value s).0
unfolding solite_create_signal
create_signal-IsQueue held none room value s h = h
create_signal-IsQueue held (some sig) true value s h = same-IsQueue held s _ h refl (λ e. refl)
create_signal-IsQueue held (some sig) false value s h = same-IsQueue held s _ h refl (λ e. refl)

subscribe-IsQueue :
    (held : List ℕ) (room : Bool) (sig effect : ℕ) (s : SoliteState)
    → IsQueue held s
    → IsQueue held (signal_subscribe room sig effect s)
unfolding signal_subscribe
subscribe-IsQueue held room sig effect s h =
    let full = leb (s.signals sig).subscriber_cap (length (s.signals sig).subscribers) in
    elim (Bool-cases (is_subscribed effect (s.signals sig).subscribers)) [
      | inl twice ↦ rw twice h
      | inr new ↦ elim (Bool-cases (full && not room)) [
        | inl no_room ↦ rw (new, no_room) h
        | inr grown ↦ rw (new, grown) (same-IsQueue held s _ h refl (λ e. refl))
      ]
    ]

pub get-IsQueue :
    (held : List ℕ) (room : Bool) (sig : ℕ) (s : SoliteState)
    → IsQueue held s
    → IsQueue held (solite_signal_get room sig s).0
unfolding solite_signal_get
get-IsQueue held room sig s h = go (solid_observer_current s)
  where
    go : (o : Option ℕ) → IsQueue held (track room sig o s)
    go none = h
    go (some e) = subscribe-IsQueue held room sig e s h

schedule_all-IsQueue :
    (held : List ℕ) (subscribers : List ℕ) (s : SoliteState)
    → IsQueue held s
    → IsQueue held (schedule_all subscribers s)
unfolding schedule_all
schedule_all-IsQueue held [] s h = h
schedule_all-IsQueue held (e ∷ subscribers) s h =
    schedule_all-IsQueue held subscribers (solite_effect_schedule e s) (schedule-IsQueue held e s h)

pub set-Leaves :
    (held : List ℕ) (fuel : ℕ) (callbacks : Callbacks) (sig value : ℕ) (s : SoliteState)
    → KeepsQueue callbacks
    → IsQueue held s
    → Leaves held (solite_signal_set fuel callbacks sig value s)
unfolding solite_signal_set write_and_notify
set-Leaves held fuel callbacks sig value s k h =
    elim (Bool-cases ((s.signals sig).value == value)) [
      | inl same ↦ rw same h
      | inr other ↦ rw other (
          flush-Leaves fuel callbacks held _ k (
            schedule_all-IsQueue held (s.signals sig).subscribers
              (set_signal sig (record (s.signals sig) { value = value }) s)
              (same-IsQueue held s _ h refl (λ e. refl))))
    ]

pub batch_end-Leaves :
    (held : List ℕ) (fuel : ℕ) (callbacks : Callbacks) (s : SoliteState)
    → KeepsQueue callbacks
    → IsQueue held s
    → Leaves held (solite_batch_end fuel callbacks s)
unfolding solite_batch_end
batch_end-Leaves held fuel callbacks s k h =
    let t = record s { batch_depth = s.batch_depth - 1 } in
    let q = same-IsQueue held s t h refl (λ e. refl) in
    if_elim (Leaves held) (t.batch_depth == 0) {y = some t}
      (λ c. flush-Leaves fuel callbacks held t k q) (λ c. q)

start_effect-Leaves :
    (held : List ℕ) (callbacks : Callbacks) (e : ℕ) (fn : SoliteEffectFn) (context : ℕ)
    (s : SoliteState)
    → KeepsQueue callbacks
    → (s.effects e).pending ≡ false
    → IsQueue held s
    → Leaves held (
        effect_run callbacks e (
          set_effect e
            (record { fn = fn; context = context; pending = false; disposed = false })
            s))
start_effect-Leaves held callbacks e fn context s k free h =
    effect_run-Leaves callbacks held e _ k (same-IsQueue held s _ h refl (λ x. ground arith))

created-IsQueue :
    (held : List ℕ) (result : Option ℕ) (o : Option SoliteState) (t : SoliteState) (e : ℕ)
    → Leaves held o
    → ◌>>=◌ {B = SoliteState × Option ℕ} o (λ (u : SoliteState). some (u, some e))
      ≡ some (t, result)
    → IsQueue held t
created-IsQueue held result none t e h c = cc
created-IsQueue held result (some u) t e h c = let same : u ≡ t = cc in subst (IsQueue held) same h

pub create_effect-IsQueue :
    (held : List ℕ) (callbacks : Callbacks) (e : ℕ) (fn : SoliteEffectFn) (context : ℕ)
    (s t : SoliteState) (result : Option ℕ)
    → KeepsQueue callbacks
    → (s.effects e).pending ≡ false
    → IsQueue held s
    → solite_create_effect callbacks (some e) fn context s ≡ some (t, result)
    → IsQueue held t
unfolding solite_create_effect
create_effect-IsQueue held callbacks e fn context s t result k free h c =
    created-IsQueue held result _ t e (start_effect-Leaves held callbacks e fn context s k free h) c

memo_tracked-IsQueue :
    (held : List ℕ) (m : ℕ) (o : Option (SoliteState × Option ℕ)) (t : SoliteState)
    (result : Option ℕ)
    → ((u : SoliteState) (effect : Option ℕ) → o ≡ some (u, effect) → IsQueue held u)
    → ◌>>=◌ {B = SoliteState × Option ℕ} o (λ (u, effect).
      some (set_memo m (record (u.memos m) { tracking_effect = effect }) u, some m))
      ≡ some (t, result)
    → IsQueue held t
memo_tracked-IsQueue held m none t result f c = cc
memo_tracked-IsQueue held m (some (u, effect)) t result f c =
    let same : set_memo m (record (u.memos m) { tracking_effect = effect }) u ≡ t = cc in
    subst (IsQueue held) same (same-IsQueue held u _ (f u effect refl) refl (λ e. refl))

pub create_memo-IsQueue :
    (held : List ℕ) (callbacks : Callbacks) (m e fn context : ℕ) (s t : SoliteState)
    (result : Option ℕ)
    → KeepsQueue callbacks
    → (s.effects e).pending ≡ false
    → IsQueue held s
    → solid_create_memo callbacks (some m) (some e) fn context s ≡ some (t, result)
    → IsQueue held t
unfolding solid_create_memo
create_memo-IsQueue held callbacks m e fn context s t result k free h c =
    memo_tracked-IsQueue held m _ t result
      (λ u effect.
        create_effect-IsQueue held callbacks e memo_recompute_fn m _ u effect k free
          (same-IsQueue held s _ h refl (λ x. refl)))
      c

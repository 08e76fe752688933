-- ===== src/Solite/Signal.antt =====
-- solite_runtime/src/solite_signal.c: signals.
use calynda_for_wii.Base.{
  ◌&&◌, ℕ, ◌*◌, Bool, true, false, ◌||◌, Option, none, some, List, [], ◌∷◌, ◌++◌, leb, not, ◌==◌,
  if◌then◌else◌, length,
}
use calynda_for_wii.Solite.State.{
  SoliteState, Callbacks, set_signal, solid_signal_initial_subs, solid_observer_current,
}
use calynda_for_wii.Solite.Effect.{solite_effect_schedule, solite_effect_flush_pending}

-- `address` is what the allocator returned for the signal, and `room` whether it had room for the
-- subscribers; without it the signal is released.
unfoldable pub solite_create_signal : Option ℕ → Bool → ℕ → SoliteState → SoliteState × Option ℕ
solite_create_signal none room initial_value s = (s, none)
solite_create_signal (some sig) room initial_value s =
    let t =
      set_signal sig
        (record {
          value = initial_value;
          subscribers = [];
          subscriber_cap = solid_signal_initial_subs;
        })
        s in
    if room then (t, some sig) else (t, none)

-- Whether the effect is among the subscribers.
unfoldable pub is_subscribed : ℕ → List ℕ → Bool
is_subscribed effect [] = false
is_subscribed effect (x ∷ subscribers) = x == effect || is_subscribed effect subscribers

-- `room` says whether the allocator has room for a larger array.
unfoldable pub signal_subscribe : Bool → ℕ → ℕ → SoliteState → SoliteState
signal_subscribe room sig effect s =
    let signal = s.signals sig in
    let full = leb signal.subscriber_cap (length signal.subscribers) in
    if is_subscribed effect signal.subscribers
    then s
    else if full && not room
    then s
    else set_signal sig
        (record signal {
          subscribers = signal.subscribers ++ effect ∷ [];
          subscriber_cap = if full then signal.subscriber_cap * 2 else signal.subscriber_cap;
        })
        s

abbrev pub track : Bool → ℕ → Option ℕ → SoliteState → SoliteState
track room sig none s = s
track room sig (some effect) s = signal_subscribe room sig effect s

unfoldable pub solite_signal_get : Bool → ℕ → SoliteState → SoliteState × ℕ
solite_signal_get room sig s =
    let t = track room sig (solid_observer_current s) s in (t, (t.signals sig).value)

-- The loop over the subscribers.
unfoldable pub schedule_all : List ℕ → SoliteState → SoliteState
schedule_all [] s = s
schedule_all (e ∷ subscribers) s = schedule_all subscribers (solite_effect_schedule e s)

-- `solite_signal_set` up to its flush; the flag says whether the value changed.
unfoldable pub write_and_notify : ℕ → ℕ → SoliteState → SoliteState × Bool
write_and_notify sig value s = if (s.signals sig).value == value then (s, false) else (
  schedule_all (s.signals sig).subscribers
      (set_signal sig (record (s.signals sig) { value = value }) s),
  true,
)

unfoldable pub solite_signal_set : ℕ → Callbacks → ℕ → ℕ → SoliteState → Option SoliteState
solite_signal_set fuel callbacks sig value s =
    let (t, changed) = write_and_notify sig value s in
    if changed then solite_effect_flush_pending fuel callbacks t else some t

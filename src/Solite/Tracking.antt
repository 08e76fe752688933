-- ===== src/Solite/Tracking.antt =====
-- What a read of a signal inside an effect subscribes.
use calynda_for_wii.Solite.Signal.{signal_subscribe, is_subscribed, solite_signal_get}
use calynda_for_wii.Base.{
  mem, ap, length-append, inr, inl, ◌&&◌, Bool-cases, ◌||◌, not, ◌++◌, ◌==◌, length, ℕ, ◌≤◌, ◌<◌,
  true, some, List, [], ◌∷◌, ◌≡◌, refl, arith,
}
use calynda_for_wii.Solite.Signal.{track}
use calynda_for_wii.Solite.State.{solid_observer_current, SoliteState, SoliteSignal}
use calynda_for_wii.Solite.Queue.{distinct}

-- The array of subscribers has room for them, and holds none twice.
pub record IsSignal (signal : SoliteSignal) : Type 0 where
  pub fits : length signal.subscribers ≤ signal.subscriber_cap
  pub has_room : 0 < signal.subscriber_cap
  pub once : distinct signal.subscribers ≡ true

is_subscribed-mem : (e : ℕ) (l : List ℕ) → is_subscribed e l ≡ mem e l
unfolding is_subscribed
is_subscribed-mem e [] = refl
is_subscribed-mem e (x ∷ l) = ground (arith, is_subscribed-mem e l)

mem_snoc : (e x : ℕ) (l : List ℕ) → mem x (l ++ e ∷ []) ≡ (x == e || mem x l)
mem_snoc e x [] = ground arith
mem_snoc e x (y ∷ l) = ground (arith, mem_snoc e x l)

distinct_snoc : (e : ℕ) (l : List ℕ) → distinct (l ++ e ∷ []) ≡ (not (mem e l) && distinct l)
distinct_snoc e [] = refl
distinct_snoc e (y ∷ l) = ground (arith, distinct_snoc e l, mem_snoc e y l)

-- What holds of a signal whose subscribers were `before` when the effect `e` has read it.
pub record Tracked (e : ℕ) (before : List ℕ) (signal : SoliteSignal) : Type 0 where
  pub is_signal : IsSignal signal
  pub members : (x : ℕ) → mem x signal.subscribers ≡ (x == e || mem x before)

signal_subscribe-Tracked :
    (sig e : ℕ) (s : SoliteState)
    → IsSignal (s.signals sig)
    → Tracked e (s.signals sig).subscribers ((signal_subscribe true sig e s).signals sig)
      × (((signal_subscribe true sig e s).signals sig).value ≡ (s.signals sig).value)
unfolding signal_subscribe
signal_subscribe-Tracked sig e s h =
    let l = (s.signals sig).subscribers in
    let same = is_subscribed-mem e l in
    elim (Bool-cases (is_subscribed e l)) [
      | inl twice ↦
          rw twice (record { is_signal = h; members = λ x. ground (arith, same, twice) }, refl)
      | inr new ↦ rw new (
        record {
          is_signal = record {
            fits = ground (arith, h.fits, h.has_room, length-append l (e ∷ []));
            has_room = ground (arith, h.has_room);
            once = ground (arith, h.once, distinct_snoc e l, same);
          };
          members = λ x. ground (arith, mem_snoc e x l);
        },
        ground arith,
      )
    ]

get_tracked :
    (sig e : ℕ) (s : SoliteState)
    → solid_observer_current s ≡ some e
    → solite_signal_get true sig s
      ≡ (signal_subscribe true sig e s, ((signal_subscribe true sig e s).signals sig).value)
unfolding solite_signal_get
get_tracked sig e s c = ap (λ o. (track true sig o s, ((track true sig o s).signals sig).value)) c

-- A read of a signal while an effect is the current observer gives its value and, where the allocator
-- has room, makes that effect a subscriber, once, and adds no other: the subscribers still fit their
-- array, and none stands there twice.
pub solite_signal_get-Tracked :
    (sig e : ℕ) (s : SoliteState)
    → solid_observer_current s ≡ some e
    → IsSignal (s.signals sig)
    → Tracked e (s.signals sig).subscribers ((solite_signal_get true sig s).0.signals sig)
      × ((solite_signal_get true sig s).1 ≡ (s.signals sig).value)
solite_signal_get-Tracked sig e s c h =
    rw (get_tracked sig e s c) (signal_subscribe-Tracked sig e s h)

-- ===== src/Solite/Observers.antt =====
-- The stack of observers around a run of an effect.
use calynda_for_wii.Base.{
  tail, length, ltb, if◌then◌else◌, ◌>>=◌, ℕ, false, Option, none, some, ◌≡◌, refl, arith,
}
use calynda_for_wii.Solite.State.{
  solid_observer_stack_max, solid_observer_push, solid_observer_pop, SoliteState, Callbacks,
}
use calynda_for_wii.Solite.Effect.{call_fn, effect_run}

-- A run of an effect that is not disposed and whose function, called in this run, returns with the
-- stack of observers as it found it, leaves the stack alone where it has room for the effect; where
-- the stack is full, the effect is not pushed but the observer on top is removed all the same.
pub effect_run-observers :
    (callbacks : Callbacks) (e : ℕ) (s t : SoliteState)
    → ((u : SoliteState)
        → call_fn callbacks (s.effects e).fn (s.effects e).context (solid_observer_push e s)
          ≡ some u
        → u.observer_stack ≡ (solid_observer_push e s).observer_stack)
    → (s.effects e).disposed ≡ false
    → effect_run callbacks e s ≡ some t
    → t.observer_stack ≡ (
        if ltb (length s.observer_stack) solid_observer_stack_max
        then s.observer_stack
        else tail s.observer_stack)
unfolding effect_run solid_observer_pop solid_observer_push
effect_run-observers callbacks e s t k live c =
    go (call_fn callbacks (s.effects e).fn (s.effects e).context (solid_observer_push e s)) k
      (rw live at c)
  where
    go :
        (o : Option SoliteState)
        → ((u : SoliteState)
            → o ≡ some u
            → u.observer_stack ≡ (solid_observer_push e s).observer_stack)
        → ◌>>=◌ {B = SoliteState} o (λ u. some (solid_observer_pop u)) ≡ some t
        → t.observer_stack ≡ (
            if ltb (length s.observer_stack) solid_observer_stack_max
            then s.observer_stack
            else tail s.observer_stack)
    go none f e = cc
    go (some u) f e = ground (arith, f u refl)

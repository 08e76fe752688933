-- ===== src/Solite/State.antt =====
-- solite_runtime/include/solite_signal.h and solite_effect.h: the structs; solite_signal.c and
-- solite_effect.c: the global variables, and the stack of observers.
-- A pointer that is not NULL is a number, and the store says what is behind it. What the allocator
-- returned is an argument of the functions that allocate. The functions that a program hands to the
-- runtime are the parameter `Callbacks`: each takes the state and returns a new one, or `none` where it
-- does not return.
use calynda_for_wii.Base.{
  ℕ, Bool, Option, none, some, List, [], ◌∷◌, ltb, ◌==◌, if◌then◌else◌, length, tail,
}

-- An effect calls a function of the program, or the callback of a memo.
pub data SoliteEffectFn : Type 0 where
  user_fn : ℕ → SoliteEffectFn
  memo_recompute_fn : SoliteEffectFn

pub record SoliteEffect : Type 0 where
  pub fn : SoliteEffectFn
  pub context : ℕ
  pub pending : Bool
  pub disposed : Bool

-- `subscriber_count` is the length of the list.
pub record SoliteSignal : Type 0 where
  pub value : ℕ
  pub subscribers : List ℕ
  pub subscriber_cap : ℕ

pub record SoliteMemo : Type 0 where
  pub fn : ℕ
  pub context : ℕ
  pub cached_value : ℕ
  pub tracking_effect : Option ℕ
  pub dirty : Bool

-- The stack has its top first, and `observer_depth` is its length; the queue is in the order of the
-- array, and `pending_count` is its length.
pub record SoliteState : Type 0 where
  pub observer_stack : List ℕ
  pub pending_queue : List ℕ
  pub batch_depth : ℕ
  pub effects : ℕ → SoliteEffect
  pub signals : ℕ → SoliteSignal
  pub memos : ℕ → SoliteMemo

-- `call f context` runs an effect function, `call_memo f context` a memo function, which has a value.
pub record Callbacks : Type 0 where
  pub call : ℕ → ℕ → SoliteState → Option SoliteState
  pub call_memo : ℕ → ℕ → SoliteState → Option (SoliteState × ℕ)

abbrev pub set_effect : ℕ → SoliteEffect → SoliteState → SoliteState
set_effect e effect s = record s { effects = λ (x : ℕ). if x == e then effect else s.effects x }

abbrev pub set_signal : ℕ → SoliteSignal → SoliteState → SoliteState
set_signal sig signal s = record s { signals = λ (x : ℕ). if x == sig then signal else s.signals x }

abbrev pub set_memo : ℕ → SoliteMemo → SoliteState → SoliteState
set_memo m memo s = record s { memos = λ (x : ℕ). if x == m then memo else s.memos x }

abbrev pub solid_observer_stack_max : ℕ
solid_observer_stack_max = 64

abbrev pub solid_pending_max : ℕ
solid_pending_max = 256

abbrev pub solid_signal_initial_subs : ℕ
solid_signal_initial_subs = 4

unfoldable pub solid_observer_push : ℕ → SoliteState → SoliteState
solid_observer_push effect s =
    if ltb (length s.observer_stack) solid_observer_stack_max
    then record s { observer_stack = effect ∷ s.observer_stack }
    else s

unfoldable pub solid_observer_pop : SoliteState → SoliteState
solid_observer_pop s = record s { observer_stack = tail s.observer_stack }

abbrev top_of : List ℕ → Option ℕ
top_of [] = none
top_of (e ∷ stack) = some e

unfoldable pub solid_observer_current : SoliteState → Option ℕ
solid_observer_current s = top_of s.observer_stack

-- ===== src/Base/Returns.antt =====
-- Total correctness of code on fuel: the run ends with a value, and the value satisfies `P`.
use mathlib.Core.Path.{◌≡◌, refl}
use mathlib.Core.Option.{Option, none, some}

module _ {ℓ} {A : Type ℓ} where
  abbrev pub Returns : (A → Type 0) → Option A → Type 0
  Returns P none = ⊥
  Returns P (some a) = P a

  pub Returns-value : (P : A → Type 0) (o : Option A) → Returns P o → (a : A) × (o ≡ some a) × P a
  Returns-value P none h = absurd h
  Returns-value P (some a) h = (a, refl, h)

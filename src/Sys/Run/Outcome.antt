-- ===== src/Sys/Run/Outcome.antt =====
-- How a run ends: with a postcondition, or with a fault, for which there is the reason `F`. With `⊥`
-- for `F` the run returns.
use lcap.Base.{◌≡◌, refl}
use lcap.Sys.Run.{Run, ok, fault, Cmd, and_then}

pub data Outcome {S A : Type 0} (F : Type 0) (P : A → S → Type 0) : Run S A → Type 0 where
  returns : {a : A} {s : S} → P a s → Outcome F P (ok a s)
  faults : {s : S} → F → Outcome F P (fault s)

module _ {S A : Type 0} {F : Type 0} {P : A → S → Type 0} where
  pub bind :
      {B : Type 0} {Q : B → S → Type 0} {r : Run S A} {k : A → Cmd S B}
      → Outcome F P r
      → ((a : A) (s : S) → P a s → Outcome F Q (k a s))
      → Outcome F Q (and_then r k)
  bind (returns h) next = next _ _ h
  bind (faults f) next = faults f

  pub weaken :
      {G : Type 0} {Q : A → S → Type 0} {r : Run S A}
      → Outcome F P r
      → (F → G)
      → ((a : A) (s : S) → P a s → Q a s)
      → Outcome G Q r
  weaken (returns h) why f = returns (f _ _ h)
  weaken (faults f) why g = faults (why f)

  -- A run that returns, and what holds if it does.
  pub both :
      {G : Type 0} {Q : A → S → Type 0} {r : Run S A}
      → Outcome F P r
      → Outcome G Q r
      → Outcome F Q r
  both (returns h) (returns g) = returns g
  both (faults f) g = faults f

module _ {S A : Type 0} {P : A → S → Type 0} where
  -- A run that does not fault has a result.
  pub result_of : (r : Run S A) → Outcome ⊥ P r → (a : A) × (s : S) × (r ≡ ok a s) × P a s
  result_of (ok a s) (returns h) = (a, s, refl, h)
  result_of (fault s) (faults f) = absurd f

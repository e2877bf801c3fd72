-- ===== src/Sys/Run.antt =====
-- Commands on a state. A fault is undefined behaviour or a failed assertion of the C code.

pub mod Outcome

pub data Run (S A : Type 0) : Type 0 where
  ok : A → S → Run S A
  fault : S → Run S A

abbrev pub Cmd : Type 0 → Type 0 → Type 0
Cmd S A = S → Run S A

abbrev pub pure : {S A : Type 0} → A → Cmd S A
pure = ok

abbrev pub get : {S : Type 0} → Cmd S S
get s = ok s s

abbrev pub modify : {S : Type 0} → (S → S) → Cmd S (Unit {0})
modify f s = ok tt (f s)

abbrev pub fail : {S A : Type 0} → Cmd S A
fail = fault

module _ {S A B : Type 0} where
  abbrev pub and_then : Run S A → (A → Cmd S B) → Run S B
  and_then (ok a s) k = k a s
  and_then (fault s) k = fault s

  infixl 5 ◌>>=◌ ◌>>◌
  abbrev pub ◌>>=◌ : Cmd S A → (A → Cmd S B) → Cmd S B
  m >>= k = λ s. and_then (m s) k

  abbrev pub ◌>>◌ : Cmd S A → Cmd S B → Cmd S B
  m >> n = m >>= λ _. n

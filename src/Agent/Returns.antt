-- ===== src/Agent/Returns.antt =====
-- What holds of the results of those runs that return.
use zeromq_agent.Zmq.{Zmq, Machine, Outcome, done, fault, blocked, M, and_then}

module _ {z : Zmq} where
  -- A run that returns, returns something where `P` holds.
  abbrev pub Lasts : {A : Type 0} → (A → Type 0) → Outcome z A → Type 0
  Lasts P (done a _) = P a
  Lasts P (fault _ _) = Unit
  Lasts P (blocked _) = Unit

  pub Lasts-bind :
      {A B : Type 0} (P : A → Type 0) (Q : B → Type 0) (o : Outcome z A) (k : A → M z B)
      → Lasts P o
      → ((a : A) → P a → (m : Machine z) → Lasts Q (k a m))
      → Lasts Q (and_then o k)
  Lasts-bind P Q (done a m) k h next = next a h m
  Lasts-bind P Q (fault _ _) k h next = tt
  Lasts-bind P Q (blocked _) k h next = tt

  -- After a call whose result does not matter.
  pub Lasts-after :
      {A B : Type 0} (Q : B → Type 0) (o : Outcome z A) (k : A → M z B)
      → ((a : A) (m : Machine z) → Lasts Q (k a m))
      → Lasts Q (and_then o k)
  Lasts-after Q (done a m) k next = next a m
  Lasts-after Q (fault _ _) k next = tt
  Lasts-after Q (blocked _) k next = tt

  abbrev pub NeverReturns : {A : Type 0} → Outcome z A → Type 0
  NeverReturns = Lasts λ _. ⊥

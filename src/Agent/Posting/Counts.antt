-- ===== src/Agent/Posting/Counts.antt =====
-- The strand as a queue of handlers, next to the number of handlers that wait.
use zeromq_agent.Base.{
  ℕ, zero, suc, ◌<◌, ◌≡◌, refl, Bool, true, false, List, [], ◌∷◌, ◌++◌, ◌==◌, length, All, arith,
}
use zeromq_agent.Zmq.{Zmq, Machine, Outcome, done, fault, blocked, M, and_then, pure}
use zeromq_agent.Agent.Returns.{Lasts}
use zeromq_agent.Agent.Posting.{worker_runs}
use zeromq_agent.Async.Queue.{Scope, in_statement, after_statement, Handler, Posts, run_waiting}

not_last : (n : ℕ) → (suc n == 0) ≡ false
not_last n = ground arith

module _ {z : Zmq} {I : Type 0} where
  -- The number of handlers, and the object.
  abbrev pub counted : Posts z I → M z (ℕ × I)
  counted p = pure (length p.m_rcv_strand, p.impl)

  -- A run on numbers does what a run on queues does, and the queue that is left satisfies `P`.
  abbrev pub Counts :
      (List (Handler z I) → Type 0) → Outcome z (ℕ × I) → Outcome z (Posts z I) → Type 0
  Counts P o o' = (o ≡ and_then o' counted) × Lasts (λ p. P p.m_rcv_strand) o'

  -- The object that is left.
  pub Counts-impl :
      (P : List (Handler z I) → Type 0) (o : Outcome z (ℕ × I)) (o' : Outcome z (Posts z I))
      → Counts P o o'
      → and_then o (λ r. pure r.1) ≡ and_then o' (λ p. pure p.impl)
  Counts-impl P o (done p m) (e, h) = rw e refl
  Counts-impl P o (fault f m) (e, h) = rw e refl
  Counts-impl P o (blocked m) (e, h) = rw e refl

  pub Counts-bind :
      (P Q : List (Handler z I) → Type 0) (o : Outcome z (ℕ × I)) (o' : Outcome z (Posts z I))
      (k : ℕ × I → M z (ℕ × I)) (k' : Posts z I → M z (Posts z I))
      → Counts P o o'
      → ((p : Posts z I) (m : Machine z)
          → P p.m_rcv_strand
          → Counts Q (k (length p.m_rcv_strand, p.impl) m) (k' p m))
      → Counts Q (and_then o k) (and_then o' k')
  Counts-bind P Q o (done p m) k k' (e, h) next = rw e (next p m h)
  Counts-bind P Q o (fault f m) k k' (e, h) next = (rw e refl, tt)
  Counts-bind P Q o (blocked m) k k' (e, h) next = (rw e refl, tt)

  -- After a call that both make.
  pub Counts-after :
      {A : Type 0} (Q : List (Handler z I) → Type 0) (o : Outcome z A) (k : A → M z (ℕ × I))
      (k' : A → M z (Posts z I))
      → ((a : A) (m : Machine z) → Counts Q (k a m) (k' a m))
      → Counts Q (and_then o k) (and_then o k')
  Counts-after Q (done a m) k k' next = next a m
  Counts-after Q (fault f m) k k' next = (refl, tt)
  Counts-after Q (blocked m) k k' next = (refl, tt)

  -- In this scope the last handler does one thing and the others do another.
  abbrev pub Told : Scope → (Bool → I → M z I) → List (Handler z I) → Type 0
  Told scope handler [] = Unit
  Told scope handler (q ∷ []) = q scope ≡ handler true
  Told scope handler (q ∷ r ∷ rest) = (q scope ≡ handler false) × Told scope handler (r ∷ rest)

  module _ (P : List (Handler z I) → Type 0)
      (tail : (q : Handler z I) (qs : List (Handler z I)) → P (q ∷ qs) → P qs) where
    pub run_waiting-Counts :
        (scope : Scope) (handler : Bool → I → M z I)
        → ((qs : List (Handler z I)) → P qs → Told scope handler qs)
        → (k : ℕ) (qs : List (Handler z I)) (c : I) (m : Machine z) → P qs
        → Counts P (worker_runs handler k (length qs) c m) (run_waiting k scope qs c m)
    unfolding worker_runs run_waiting
    run_waiting-Counts scope handler told zero qs c m h = (refl, h)
    run_waiting-Counts scope handler told (suc k) [] c m h = (refl, h)
    run_waiting-Counts scope handler told (suc k) (q ∷ []) c m h = rw (told (q ∷ []) h) (
        Counts-after P (handler true c m) _ _
          λ c' m'. run_waiting-Counts scope handler told k [] c' m' (tail q [] h))
    run_waiting-Counts scope handler told (suc k) (q ∷ r ∷ rest) c m h =
        rw ((told (q ∷ r ∷ rest) h).0) (
          rw (not_last (length rest)) (
            Counts-after P (handler false c m) _ _ λ c' m'.
              run_waiting-Counts scope handler told k (r ∷ rest) c' m' (tail q (r ∷ rest) h)))

  -- In a later round the handler does what `dead` does: what it refers to has ended.
  abbrev pub Stale : (I → M z I) → ℕ → Handler z I → Type 0
  Stale dead i q =
      (scope : Scope)
      → ((n : ℕ) → n < i → scope.callback n ≡ false)
      → ((n : ℕ) → n < i → scope.message n ≡ false)
      → q scope ≡ dead

  pub Stale-suc :
      (dead : I → M z I) (i : ℕ) (q : Handler z I) → Stale dead i q → Stale dead (suc i) q
  Stale-suc dead i q h scope cbk msg =
      h scope (λ n below. cbk n (omega arith)) (λ n below. msg n (omega arith))

  -- The handlers that wait when one more has been posted in round `i`: the older ones have ended
  -- callbacks and messages and do what `dead` does, the last does what it is told.
  module _ (dead : I → M z I) (during afterwards : Bool → I → M z I) where
    abbrev pub IsNew : ℕ → Handler z I → Type 0
    IsNew i q =
        (q (in_statement i) ≡ during true)
        × (q (after_statement i) ≡ afterwards true)
        × Stale dead (suc i) q

    abbrev pub Line : ℕ → List (Handler z I) → Type 0
    Line i [] = Unit
    Line i (q ∷ []) = IsNew i q
    Line i (q ∷ r ∷ rest) = Stale dead i q × Line i (r ∷ rest)

    pub Line-tail :
        (i : ℕ) (q : Handler z I) (qs : List (Handler z I)) → Line i (q ∷ qs) → Line i qs
    Line-tail i q [] h = tt
    Line-tail i q (r ∷ rest) h = h.1

    pub Line-Stale : (i : ℕ) (qs : List (Handler z I)) → Line i qs → All (Stale dead (suc i)) qs
    Line-Stale i [] h = tt
    Line-Stale i (q ∷ []) h = let (_, _, stale) = h in (stale, tt)
    Line-Stale i (q ∷ r ∷ rest) h = (Stale-suc dead i q h.0, Line-Stale i (r ∷ rest) h.1)

    pub Line-post :
        (i : ℕ) (qs : List (Handler z I)) (q : Handler z I)
        → All (Stale dead i) qs
        → IsNew i q
        → Line i (qs ++ (q ∷ []))
    Line-post i [] q h new = new
    Line-post i (r ∷ []) q h new = (h.0, new)
    Line-post i (r ∷ s ∷ rest) q h new = (h.0, Line-post i (s ∷ rest) q h.1 new)

    pub Line-Told :
        (i : ℕ) (scope : Scope) (handler : Bool → I → M z I)
        → ((q : Handler z I) → Stale dead i q → q scope ≡ handler false)
        → ((q : Handler z I) → IsNew i q → q scope ≡ handler true)
        → (qs : List (Handler z I)) → Line i qs
        → Told scope handler qs
    Line-Told i scope handler old new [] h = tt
    Line-Told i scope handler old new (q ∷ []) h = new q h
    Line-Told i scope handler old new (q ∷ r ∷ rest) h =
        (old q h.0, Line-Told i scope handler old new (r ∷ rest) h.1)

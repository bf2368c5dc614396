-- ===== src/Agent/Posting/Queue/Rounds.antt =====
-- The loops of zeromq_agent.cpp that post handlers: a round on the queue next to a round on the
-- number of the handlers that wait.
use zeromq_agent.Base.{
  ℕ, zero, suc, ◌+◌, ◌≡◌, refl, sym, ◌∙◌, subst, Bool, true, false, List, [], ◌∷◌, ◌++◌, ◌<◌, ◌==◌,
  length, length-append, All, arith,
}
use zeromq_agent.Zmq.{Zmq, Machine, Outcome, done, fault, blocked, M}
use zeromq_agent.Async.Queue.{
  in_statement, after_statement, all_ended, Handler, Posts, post, run_waiting,
}
use zeromq_agent.Agent.Posting.{Schedule, worker_runs, post_handler, post_rounds}
use zeromq_agent.Agent.Posting.Counts.{
  Counts, Counts-bind, run_waiting-Counts, Stale, IsNew, Line, Line-tail, Line-Stale, Line-post,
  Line-Told, Told,
}
use zeromq_agent.Agent.Posting.Queue.{strand_round, strand_rounds}

-- Older rounds have other names.
older : (n i : ℕ) → n < i → (n == i) ≡ false
older n i below = ground arith

module _ {z : Zmq} {I : Type 0} (dead : I → M z I) (during afterwards : Bool → I → M z I)
    (during_dead : during false ≡ dead) (afterwards_dead : afterwards false ≡ dead) where
  abbrev Waits : ℕ → List (Handler z I) → Type 0
  Waits i = Line dead during afterwards i

  within-Told : (i : ℕ) (qs : List (Handler z I)) → Waits i qs → Told (in_statement i) during qs
  within-Told i =
      Line-Told dead during afterwards i (in_statement i) during
        (λ q stale. stale (in_statement i) (λ n. older n i) (λ n. older n i) ∙ sym during_dead)
        λ q new. new.0

  after-Told :
      (i : ℕ) (qs : List (Handler z I)) → Waits i qs → Told (after_statement i) afterwards qs
  after-Told i =
      Line-Told dead during afterwards i (after_statement i) afterwards
        (λ q stale. stale (after_statement i) (λ n _. refl) (λ n. older n i) ∙ sym afterwards_dead)
        λ q (_, told, _). told

  Counts-Stale :
      (i : ℕ) (o : Outcome z (ℕ × I)) (o' : Outcome z (Posts z I))
      → Counts (Waits i) o o'
      → Counts (All (Stale dead (suc i))) o o'
  Counts-Stale i o (done p m) (e, h) = (e, Line-Stale dead during afterwards i p.m_rcv_strand h)
  Counts-Stale i o (fault f m) (e, h) = (e, tt)
  Counts-Stale i o (blocked m) (e, h) = (e, tt)

  -- One round, for any numbers of handlers that the worker runs.
  pub strand_round-Counts :
      (q : Handler z I) (plan : Schedule) (i : ℕ) (p : Posts z I) (m : Machine z)
      → All (Stale dead i) p.m_rcv_strand
      → IsNew dead during afterwards i q
      → Counts
          (All (Stale dead (suc i)))
          (post_handler during afterwards plan i (length p.m_rcv_strand) p.impl m)
          (strand_round (post q) plan i p m)
  unfolding post_handler strand_round
  strand_round-Counts q plan i p m stale new =
      let qs = p.m_rcv_strand ++ (q ∷ []) in
      let tail = Line-tail dead during afterwards i in
      let more : suc (length p.m_rcv_strand) ≡ length qs =
        omega (arith, length-append p.m_rcv_strand (q ∷ [])) in
      Counts-Stale i _ _ (
        rw more (
          Counts-bind (Waits i) (Waits i) (worker_runs during (plan.within i) (length qs) p.impl m)
            (run_waiting (plan.within i) (in_statement i) qs p.impl m) _ _
            (run_waiting-Counts (Waits i) tail (in_statement i) during (within-Told i)
              (plan.within i) qs p.impl m
              (Line-post dead during afterwards i p.m_rcv_strand q stale new))
            λ p' m' h.
              run_waiting-Counts (Waits i) tail (after_statement i) afterwards (after-Told i)
                (plan.after i) p'.m_rcv_strand p'.impl m' h))

module _ {z : Zmq} {I : Type 0} (dead : I → M z I) where
  -- What waits after the loop refers to nothing that is left.
  abbrev pub AllDead : List (Handler z I) → Type 0
  AllDead = All λ q. q all_ended ≡ dead

  Stale-AllDead : (i : ℕ) (qs : List (Handler z I)) → All (Stale dead i) qs → AllDead qs
  Stale-AllDead i [] h = tt
  Stale-AllDead i (q ∷ qs) h = (h.0 all_ended (λ n _. refl) (λ n _. refl), Stale-AllDead i qs h.1)

  -- A loop of such rounds.
  pub strand_rounds-Counts :
      (round : ℕ → ℕ → I → M z (ℕ × I)) (round' : ℕ → Posts z I → M z (Posts z I))
      → ((i : ℕ) (p : Posts z I) (m : Machine z)
          → All (Stale dead i) p.m_rcv_strand
          → Counts
              (All (Stale dead (suc i)))
              (round i (length p.m_rcv_strand) p.impl m)
              (round' i p m))
      → (n i : ℕ) (p : Posts z I) (m : Machine z) → All (Stale dead i) p.m_rcv_strand
      → Counts AllDead
          (post_rounds round n i (length p.m_rcv_strand) p.impl m)
          (strand_rounds round' n i p m)
  unfolding post_rounds strand_rounds
  strand_rounds-Counts round round' each zero i p m h = (refl, Stale-AllDead i p.m_rcv_strand h)
  strand_rounds-Counts round round' each (suc n) i p m h =
      Counts-bind (All (Stale dead (suc i))) AllDead _ (round' i p m) _ _ (each i p m h) λ p' m' h'.
        let next : suc i ≡ i + 1 = omega arith in
        strand_rounds-Counts round round' each n (i + 1) p' m'
          (subst (λ j. All (Stale dead j) p'.m_rcv_strand) next h')

  AllDead-Told :
      (handler : Bool → I → M z I)
      → ((last : Bool) → handler last ≡ dead)
      → (qs : List (Handler z I)) → AllDead qs
      → Told all_ended handler qs
  AllDead-Told handler ended [] h = tt
  AllDead-Told handler ended (q ∷ []) h = h.0 ∙ sym (ended true)
  AllDead-Told handler ended (q ∷ r ∷ rest) h =
      (h.0 ∙ sym (ended false), AllDead-Told handler ended (r ∷ rest) h.1)

  -- The handlers that the worker runs after the loop.
  pub at_end-Counts :
      (handler : Bool → I → M z I)
      → ((last : Bool) → handler last ≡ dead)
      → (k : ℕ) (p : Posts z I) (m : Machine z) → AllDead p.m_rcv_strand
      → Counts AllDead
          (worker_runs handler k (length p.m_rcv_strand) p.impl m)
          (run_waiting k all_ended p.m_rcv_strand p.impl m)
  at_end-Counts handler ended k p m h =
      run_waiting-Counts AllDead (λ q qs h'. h'.1) all_ended handler (AllDead-Told handler ended) k
        p.m_rcv_strand p.impl m h

-- ===== src/Broker/Loop.antt =====
-- broker_api.cpp, BrokerImpl::start_loop: what its rounds do.
use zeromq_agent.Base.{
  ℕ, zero, suc, ◌≡◌, refl, Bool, true, false, some, [], List, ◌∷◌, if◌then◌else◌,
}
use zeromq_agent.Memory.{Ptr}
use zeromq_agent.Zmq.{Zmq, Event, Machine, Outcome, done, fault, blocked, and_then, pure, M}
use zeromq_agent.Zmq.Laws.{ManagesBuffers, EndsMessages}
use zeromq_agent.Broker.{BrokerImpl, forward, serve, serve_rounds, start_loop}
use zeromq_agent.Broker.Forward.{Relays, Forwards, forward-Forwards}

module _ {z : Zmq} where
  -- From the first trace to the second one message has gone through, if `ready`, and nothing was
  -- called otherwise.
  abbrev pub Turn : Bool → Ptr → Ptr → List (Event z) → List (Event z) → Type 0
  Turn true from to before after = (messages : List z.Msg) × Relays from to messages before after
  Turn false from to before after = after ≡ before

  -- A round asks which of the two sockets has a message. It forwards one message from the frontend
  -- to the backend, then one from the backend to the frontend, each exactly if there is one.
  pub data Rounds (front back : Ptr) : ℕ → List (Event z) → List (Event z) → Type 0 where
    over : {trace : List (Event z)} → Rounds front back zero trace trace
    round :
        {n : ℕ} {before end : List (Event z)} (ready : ℕ → Bool) (middle after : List (Event z))
        → Turn (ready 0) front back (Event.polled (front ∷ back ∷ []) ready ∷ before) middle
        → Turn (ready 1) back front middle after
        → Rounds front back n after end
        → Rounds front back (suc n) before end

  abbrev pub Serves : Ptr → Ptr → ℕ → Machine z → Outcome z (Unit {0}) → Type 0
  Serves front back n m (done _ m') = Rounds front back n m.trace m'.trace
  Serves front back n m (fault _ _) = ⊥
  Serves front back n m (blocked _) = ⊥

  abbrev turn : ℕ → Bool → Ptr → Ptr → M z (Unit {0})
  turn fuel ready from to = if ready then forward fuel from to else pure tt

  module _ (laws : ManagesBuffers z) (ends : EndsMessages z) where
    -- A run that ends, with what it leaves.
    abbrev Ends : {A : Type 0} → (A → Machine z → Type 0) → Outcome z A → Type 0
    Ends P (done a m) = P a m
    Ends P (fault _ _) = ⊥
    Ends P (blocked _) = ⊥

    turn-Ends :
        (ready : Bool) (from to : Ptr) (m : Machine z)
        → Ends (λ _ m'. Turn ready from to m.trace m'.trace) (turn ends.bound ready from to m)
    turn-Ends false from to m = refl
    turn-Ends true from to m =
        go (forward ends.bound from to m)
          (forward-Forwards laws ends ends.bound from to m (ends.below from m.world))
      where
        go :
            (o : Outcome z (Unit {0}))
            → Forwards from to m o
            → Ends (λ _ m'. Turn true from to m.trace m'.trace) o
        go (done _ _) h = h
        go (fault _ _) h = h
        go (blocked _) h = h

    Ends-bind :
        {A B : Type 0} (P : A → Machine z → Type 0) (Q : B → Machine z → Type 0) (o : Outcome z A)
        (k : A → M z B)
        → Ends P o
        → ((a : A) (m : Machine z) → P a m → Ends Q (k a m))
        → Ends Q (and_then o k)
    Ends-bind P Q (done a m) k h next = next a m h
    Ends-bind P Q (fault _ _) k h next = h
    Ends-bind P Q (blocked _) k h next = h

    Ends-map :
        {A : Type 0} (P Q : A → Machine z → Type 0) (o : Outcome z A)
        → Ends P o
        → ((a : A) (m : Machine z) → P a m → Q a m)
        → Ends Q o
    Ends-map P Q (done a m) h weaken = weaken a m h
    Ends-map P Q (fault _ _) h weaken = h
    Ends-map P Q (blocked _) h weaken = h

    -- One round: the answer of `zmq_poll` and the two turns.
    abbrev Round : Ptr → Ptr → Machine z → (ℕ → Bool) → Machine z → Type 0
    Round front back m ready m' =
        (middle : List (Event z)) × Turn (ready 0) front back
          (Event.polled (front ∷ back ∷ []) ready ∷ m.trace) middle
        × Turn (ready 1) back front middle m'.trace

    serve-Ends :
        (front back : Ptr) (revents : ℕ → Bool) (m : Machine z)
        → Ends (Round front back m) (serve ends.bound front back revents m)
    unfolding serve
    serve-Ends front back revents m =
        let (ready, w) = z.zmq_poll (front ∷ back ∷ []) revents m.world in
        let polled = record m {
          world = w;
          trace = Event.polled (front ∷ back ∷ []) ready ∷ m.trace;
        } in
        Ends-bind (λ _ m'. Turn (ready 0) front back polled.trace m'.trace) (Round front back m)
          (turn ends.bound (ready 0) front back polled) _ (turn-Ends (ready 0) front back polled)
          λ _ m' first.
            Ends-bind (λ _ m''. Turn (ready 1) back front m'.trace m''.trace) (Round front back m)
              (turn ends.bound (ready 1) back front m') _ (turn-Ends (ready 1) back front m')
              λ _ m'' second. (m'.trace, first, second)

    abbrev Served : Ptr → Ptr → ℕ → Machine z → Unit {0} → Machine z → Type 0
    Served front back n m _ m' = Rounds front back n m.trace m'.trace

    serve_rounds-Ends :
        (n : ℕ) (front back : Ptr) (revents : ℕ → Bool) (m : Machine z)
        → Ends (Served front back n m) (serve_rounds ends.bound n front back revents m)
    unfolding serve_rounds
    serve_rounds-Ends zero front back revents m = over
    serve_rounds-Ends (suc n) front back revents m =
        Ends-bind (Round front back m) (Served front back (suc n) m)
          (serve ends.bound front back revents m) _ (serve-Ends front back revents m)
          λ ready m' (middle, first, second).
            Ends-map (Served front back n m') (Served front back (suc n) m)
              (serve_rounds ends.bound n front back ready m')
              (serve_rounds-Ends n front back ready m')
              λ _ m'' rest. round ready middle m'.trace first second rest

    -- On a broker whose two sockets are made, and where the library manages buffers and ends messages
    -- as its manual says, any number of rounds of `start_loop` ends without a fault, with inner loops
    -- that are bounded by the greatest number of parts. Each round asks the library about both
    -- sockets and then forwards one whole message from the frontend to the backend, if there is one,
    -- and one from the backend to the frontend, if there is one, and does nothing else.
    pub start_loop-Serves :
        (rounds : ℕ) (b : BrokerImpl) (front back : Ptr) (m : Machine z)
        → b.m_frontend ≡ some front
        → b.m_backend ≡ some back
        → Serves front back rounds m (start_loop ends.bound rounds b m)
    unfolding start_loop
    start_loop-Serves rounds b front back m hf hb = rw hf (
        rw hb (
          served (serve_rounds ends.bound rounds front back _ m)
            (serve_rounds-Ends rounds front back _ m)))
      where
        served :
            (o : Outcome z (Unit {0}))
            → Ends (Served front back rounds m) o
            → Serves front back rounds m o
        served (done _ _) h = h
        served (fault _ _) h = h
        served (blocked _) h = h

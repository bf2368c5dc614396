-- ===== src/BrokerPublisher/Lifetime.antt =====
-- broker_api.cpp, BrokerPublisherImpl: what can be done with such a broker.
use zeromq_agent.Base.{String, ◌≡◌, refl, sym, subst, none}
use zeromq_agent.Zmq.{Zmq, Machine, Fault, Outcome, done, fault, blocked}
use zeromq_agent.Message.{ErrorType}
use zeromq_agent.BrokerPublisher.{BrokerPublisherImpl, create, bind, start_loop, destroy}
use zeromq_agent.BrokerPublisher.Bind.{Bound, bind_publisher-Bound}

-- The brokers that the constructor and any number of `bind`s bring about, with any results of the
-- library.
pub data Reachable (z : Zmq) : BrokerPublisherImpl → Type 0 where
  creates : {b : BrokerPublisherImpl} (m m' : Machine z) → create m ≡ done b m' → Reachable z b
  binds :
      {b b' : BrokerPublisherImpl} (backend frontend : String) (r : ErrorType) (m m' : Machine z)
      → Reachable z b
      → bind b backend frontend m ≡ done (r, b') m'
      → Reachable z b'

abbrev HasNoSockets : BrokerPublisherImpl → Type 0
HasNoSockets b = (b.m_frontend ≡ none) × (b.m_backend ≡ none)

module _ {z : Zmq} where
  abbrev Makes : Outcome z BrokerPublisherImpl → Type 0
  Makes (done b _) = HasNoSockets b
  Makes (fault _ _) = ⊥
  Makes (blocked _) = ⊥

  create-Makes : (m : Machine z) → Makes (create m)
  unfolding create
  create-Makes m = (refl, refl)

  Reachable-HasNoSockets : {b : BrokerPublisherImpl} → Reachable z b → HasNoSockets b
  Reachable-HasNoSockets (creates m m' e) = subst Makes e (create-Makes m)
  Reachable-HasNoSockets (binds {b} {b'} backend frontend r m m' h e) =
      let (_, _, same, _) =
        subst (Bound b backend frontend m) e (bind_publisher-Bound b backend frontend m) in
      subst HasNoSockets (sym same) (Reachable-HasNoSockets h)

  -- Whatever was bound before and however that ended, `start_loop` and the destructor of the broker
  -- read a socket that was never given a value, before they call the library: the proxy is never
  -- started, and no socket is closed.
  pub start_loop-uninitialised :
      {b : BrokerPublisherImpl} (m : Machine z)
      → Reachable z b
      → (start_loop b m ≡ fault Fault.uninitialised m) × (destroy b m ≡ fault Fault.uninitialised m)
  unfolding start_loop destroy
  start_loop-uninitialised m r = let (front, back) = Reachable-HasNoSockets r in (rw front, rw back)

-- ===== src/Broker/Bind.antt =====
-- broker_api.cpp, BrokerImpl::bind: the calls it makes and what it does on a failure.
use zeromq_agent.Base.{
  String, ◌≡◌, refl, some, List, [], ◌∷◌, ◌==◌, inl, inr, Bool-cases, if◌then◌else◌,
}
use zeromq_agent.Base.Int.{ℤ, pos, is_nonzero}
use zeromq_agent.Memory.{Ptr, null}
use zeromq_agent.Zmq.{Zmq, Event, zmq_router, zmq_dealer, Machine, Outcome, done, fault, blocked}
use zeromq_agent.Message.{ErrorType}
use zeromq_agent.SetUp.{IsSetUp, IsSetUp-fails, IsSetUp-goes_on, IsSetUp-complete, after}
use zeromq_agent.Broker.{BrokerImpl, bind, bind_sockets}

module _ {z : Zmq} where
  -- The calls of `bind`, with the sockets that the first two make.
  abbrev pub sockets_plan : String → String → Ptr → Ptr → List (ℤ → Event z)
  sockets_plan backend frontend front back =
      (λ rc. Event.bound front frontend rc) ∷ (λ rc. Event.bound back backend rc) ∷ []

  abbrev pub bind_plan : BrokerImpl → String → String → Ptr → Ptr → List (ℤ → Event z)
  bind_plan b backend frontend front back =
      (λ _. Event.socket_made b.m_context zmq_router front)
      ∷ (λ _. Event.socket_made b.m_context zmq_dealer back)
      ∷ sockets_plan backend frontend front back

  -- How `bind` ends. Of the broker only the sockets that were asked for and the error text change.
  abbrev pub Bound :
      BrokerImpl → String → String → Machine z → Outcome z (ErrorType × BrokerImpl) → Type 0
  Bound b backend frontend m (done (r, b') m') =
      (front : Ptr) × (back : Ptr) × (b' ≡ record b {
        m_frontend = some front;
        m_backend = if front == null then b.m_backend else some back;
        m_str_error = b'.m_str_error;
      })
      × IsSetUp (bind_plan b backend frontend front back) b.m_str_error b'.m_str_error r m m'
  Bound b backend frontend m (fault _ _) = ⊥
  Bound b backend frontend m (blocked _) = ⊥

  bind_sockets-IsSetUp :
      (b : BrokerImpl) (front back : Ptr) (backend frontend : String) (m : Machine z)
      → (r : ErrorType) × (text : String) × (m' : Machine z) × (bind_sockets b front back backend
            frontend m
          ≡ done (r, record b { m_str_error = text }) m')
        × IsSetUp (sockets_plan backend frontend front back) b.m_str_error text r m m'
  unfolding bind_sockets
  bind_sockets-IsSetUp b front back backend frontend m =
      let (rc, w) = z.zmq_bind front frontend m.world in
      let (rc', w') = z.zmq_bind back backend w in
      elim (Bool-cases (is_nonzero rc)) [
        | inl bad ↦ (_, _, _, rw bad refl, IsSetUp-fails rc w (rw bad))
        | inr good ↦ elim (Bool-cases (is_nonzero rc')) [
          | inl bad ↦ (
            _,
            _,
            _,
            rw good (rw bad refl),
            IsSetUp-goes_on rc w (rw good) (IsSetUp-fails rc' w' (rw bad)),
          )
          | inr good' ↦ (
            _,
            _,
            _,
            rw good (rw good' refl),
            IsSetUp-goes_on rc w (rw good) (IsSetUp-goes_on rc' w' (rw good') IsSetUp-complete),
          )
        ]
      ]

  -- `bind` ends without a fault. It makes a ROUTER socket, then a DEALER socket, binds the first to
  -- the frontend's address and then the second to the backend's; it stops at the first call that
  -- fails, returns NOT_OK and keeps that call's error text, and otherwise returns OK and leaves the
  -- error text alone. The sockets that were asked for are stored in the broker, which is otherwise
  -- unchanged.
  pub bind_broker-Bound :
      (b : BrokerImpl) (backend frontend : String) (m : Machine z)
      → Bound b backend frontend m (bind b backend frontend m)
  unfolding bind
  bind_broker-Bound b backend frontend m =
      let (front, w) = z.zmq_socket b.m_context zmq_router m.world in
      let (back, w') = z.zmq_socket b.m_context zmq_dealer w in
      let m' = after m (Event.socket_made b.m_context zmq_router front) w in
      let m'' = after m' (Event.socket_made b.m_context zmq_dealer back) w' in
      elim (Bool-cases (front == null)) [
        | inl e ↦ rw e (front, null, rw e, IsSetUp-fails (pos 0) w (rw e))
        | inr e ↦ rw e (elim (Bool-cases (back == null)) [
          | inl e' ↦ rw e' (
            front,
            back,
            rw e,
            IsSetUp-goes_on (pos 0) w (rw e) (IsSetUp-fails (pos 0) w' (rw e')),
          )
          | inr e' ↦
              let b' = record b { m_frontend = some front; m_backend = some back } in
              let (r, text, end, run, rest) =
                bind_sockets-IsSetUp b' front back backend frontend m'' in
              rw e' (
                rw run (
                  front,
                  back,
                  rw e,
                  IsSetUp-goes_on (pos 0) w (rw e) (IsSetUp-goes_on (pos 0) w' (rw e') rest),
                ))
        ])
      ]

-- ===== src/BrokerPublisher/Bind.antt =====
-- broker_api.cpp, BrokerPublisherImpl::bind: the calls it makes and what it does on a failure.
use zeromq_agent.Base.{String, ◌≡◌, refl, List, [], ◌∷◌, ◌==◌, inl, inr, Bool-cases}
use zeromq_agent.Base.Int.{ℤ, pos, is_nonzero}
use zeromq_agent.Memory.{Ptr, null}
use zeromq_agent.Zmq.{Zmq, Event, zmq_xsub, zmq_xpub, Machine, Outcome, done, fault, blocked}
use zeromq_agent.Message.{ErrorType}
use zeromq_agent.SetUp.{IsSetUp, IsSetUp-fails, IsSetUp-goes_on, IsSetUp-complete, after}
use zeromq_agent.BrokerPublisher.{BrokerPublisherImpl, bind, attach}

module _ {z : Zmq} where
  -- The calls of `bind`, with the sockets that the first two make.
  abbrev pub attach_plan : String → String → Ptr → Ptr → List (ℤ → Event z)
  attach_plan backend frontend front back =
      (λ rc. Event.connected front frontend rc) ∷ (λ rc. Event.bound back backend rc) ∷ []

  abbrev pub bind_plan : BrokerPublisherImpl → String → String → Ptr → Ptr → List (ℤ → Event z)
  bind_plan b backend frontend front back =
      (λ _. Event.socket_made b.m_context zmq_xsub front)
      ∷ (λ _. Event.socket_made b.m_context zmq_xpub back)
      ∷ attach_plan backend frontend front back

  -- How `bind` ends. Of the broker the error text alone changes.
  abbrev pub Bound :
      BrokerPublisherImpl
      → String
      → String
      → Machine z
      → Outcome z (ErrorType × BrokerPublisherImpl)
      → Type 0
  Bound b backend frontend m (done (r, b') m') =
      (front : Ptr) × (back : Ptr) × (b' ≡ record b { m_str_error = b'.m_str_error })
      × IsSetUp (bind_plan b backend frontend front back) b.m_str_error b'.m_str_error r m m'
  Bound b backend frontend m (fault _ _) = ⊥
  Bound b backend frontend m (blocked _) = ⊥

  attach-IsSetUp :
      (b : BrokerPublisherImpl) (front back : Ptr) (backend frontend : String) (m : Machine z)
      → (r : ErrorType) × (text : String) × (m' : Machine z) × (attach b front back backend frontend
            m
          ≡ done (r, record b { m_str_error = text }) m')
        × IsSetUp (attach_plan backend frontend front back) b.m_str_error text r m m'
  unfolding attach
  attach-IsSetUp b front back backend frontend m =
      let (rc, w) = z.zmq_connect front frontend m.world in
      let (rc', w') = z.zmq_bind back backend w in
      elim (Bool-cases (is_nonzero rc)) [
        | inl bad ↦ (_, _, _, rw bad refl, IsSetUp-fails rc w (rw bad))
        | inr good ↦ elim (Bool-cases (is_nonzero rc')) [
          | inl bad ↦ (
            _,
            _,
            _,
            rw good (rw bad refl),
            IsSetUp-goes_on rc w (rw good) (IsSetUp-fails rc' w' (rw bad)),
          )
          | inr good' ↦ (
            _,
            _,
            _,
            rw good (rw good' refl),
            IsSetUp-goes_on rc w (rw good) (IsSetUp-goes_on rc' w' (rw good') IsSetUp-complete),
          )
        ]
      ]

  -- `bind` ends without a fault. It makes an XSUB socket, then an XPUB socket, connects the first to
  -- the frontend's address and binds the second to the backend's; it stops at the first call that
  -- fails, returns NOT_OK and keeps that call's error text, and otherwise returns OK and leaves the
  -- error text alone. Neither socket is stored: the broker is otherwise unchanged.
  pub bind_publisher-Bound :
      (b : BrokerPublisherImpl) (backend frontend : String) (m : Machine z)
      → Bound b backend frontend m (bind b backend frontend m)
  unfolding bind
  bind_publisher-Bound b backend frontend m =
      let (front, w) = z.zmq_socket b.m_context zmq_xsub m.world in
      let (back, w') = z.zmq_socket b.m_context zmq_xpub w in
      let m' = after m (Event.socket_made b.m_context zmq_xsub front) w in
      let m'' = after m' (Event.socket_made b.m_context zmq_xpub back) w' in
      elim (Bool-cases (front == null)) [
        | inl e ↦ rw e (front, null, refl, IsSetUp-fails (pos 0) w (rw e))
        | inr e ↦ rw e (elim (Bool-cases (back == null)) [
          | inl e' ↦ rw e' (
            front,
            back,
            refl,
            IsSetUp-goes_on (pos 0) w (rw e) (IsSetUp-fails (pos 0) w' (rw e')),
          )
          | inr e' ↦
              let (r, text, end, run, rest) = attach-IsSetUp b front back backend frontend m'' in
              rw e' (
                rw run (
                  front,
                  back,
                  refl,
                  IsSetUp-goes_on (pos 0) w (rw e) (IsSetUp-goes_on (pos 0) w' (rw e') rest),
                ))
        ])
      ]

-- ===== src/Server/Bind.antt =====
-- server_api.cpp, ServerImpl::bind: the calls it makes and what it does on a failure.
use zeromq_agent.Base.{String, ◌≡◌, refl, some, List, [], ◌∷◌, ◌==◌, inl, inr, Bool-cases}
use zeromq_agent.Base.Int.{ℤ, pos, is_nonzero}
use zeromq_agent.Memory.{Ptr, null}
use zeromq_agent.Zmq.{Zmq, Event, Machine, Outcome, done, fault, blocked}
use zeromq_agent.Message.{ErrorType}
use zeromq_agent.SetUp.{IsSetUp, IsSetUp-fails, IsSetUp-goes_on, IsSetUp-complete}
use zeromq_agent.Server.{ServerImpl, socket_kind, bind}

module _ {z : Zmq} where
  -- The calls of `bind` for a server whose new socket is `s`.
  abbrev pub bind_plan : ServerImpl → String → Ptr → List (ℤ → Event z)
  bind_plan c url s =
      (λ _. Event.socket_made c.m_ctx (socket_kind c.m_type) s) ∷ (λ rc. Event.bound s url rc) ∷ []

  -- How `bind` ends. Of the server only `m_socket` and the error text change.
  abbrev pub Bound : ServerImpl → String → Machine z → Outcome z (ErrorType × ServerImpl) → Type 0
  Bound c url m (done (r, c') m') =
      (s : Ptr) × (c' ≡ record c { m_socket = some s; m_str_error = c'.m_str_error })
      × IsSetUp (bind_plan c url s) c.m_str_error c'.m_str_error r m m'
  Bound c url m (fault _ _) = ⊥
  Bound c url m (blocked _) = ⊥

  -- `bind` ends without a fault. It makes a socket of the server's type and binds it to the URL; it
  -- stops at the first call that fails, returns NOT_OK and keeps that call's error text, and
  -- otherwise returns OK and leaves the error text alone. Of the server it changes nothing else but
  -- `m_socket`, the new socket.
  pub bind_server-Bound :
      (c : ServerImpl) (url : String) (m : Machine z) → Bound c url m (bind c url m)
  unfolding bind
  bind_server-Bound c url m =
      let (s, w) = z.zmq_socket c.m_ctx (socket_kind c.m_type) m.world in
      let (rc, w') = z.zmq_bind s url w in
      elim (Bool-cases (s == null)) [
        | inl e ↦ rw e (s, refl, IsSetUp-fails (pos 0) w (rw e))
        | inr e ↦ rw e (elim (Bool-cases (is_nonzero rc)) [
          | inl bad ↦
              rw bad (s, refl, IsSetUp-goes_on (pos 0) w (rw e) (IsSetUp-fails rc w' (rw bad)))
          | inr good ↦ rw good (
            s,
            refl,
            IsSetUp-goes_on (pos 0) w (rw e) (IsSetUp-goes_on rc w' (rw good) IsSetUp-complete),
          )
        ])
      ]

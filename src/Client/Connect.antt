-- ===== src/Client/Connect.antt =====
-- client_api.cpp, ClientImpl::connect: the calls it makes and what it does on a failure.
use zeromq_agent.Base.{
  String, ◌≡◌, refl, some, List, [], ◌∷◌, ◌==◌, if◌then◌else◌, inl, inr, Bool-cases, Bool,
}
use zeromq_agent.Base.Int.{ℤ, pos, is_nonzero}
use zeromq_agent.Memory.{Ptr, null}
use zeromq_agent.Zmq.{Zmq, Event, zmq_subscribe, Machine, Outcome, done, fault, blocked}
use zeromq_agent.Message.{ErrorType, ok, not_ok}
use zeromq_agent.SetUp.{IsSetUp, after, IsSetUp-fails, IsSetUp-goes_on, IsSetUp-complete}
use zeromq_agent.Client.{ClientImpl, socket_kind, is_subscribe, subscribe_all, connect}

module _ {z : Zmq} where
  -- The calls of `connect` for a client whose new socket is `s`.
  abbrev pub subscribe_plan : Bool → Ptr → List (ℤ → Event z)
  subscribe_plan b s = if b then (λ rc. Event.option_set s zmq_subscribe [] rc) ∷ [] else []

  abbrev pub connect_plan : ClientImpl → String → Ptr → List (ℤ → Event z)
  connect_plan c url s =
      (λ _. Event.socket_made c.m_context (socket_kind c.m_type) s)
      ∷ (λ rc. Event.connected s url rc)
      ∷ subscribe_plan (is_subscribe c.m_type) s

  -- How `connect` ends. Of the client only `m_socket` and the error text change.
  abbrev pub Connected :
      ClientImpl → String → Machine z → Outcome z (ErrorType × ClientImpl) → Type 0
  Connected c url m (done (r, c') m') =
      (s : Ptr) × (c' ≡ record c { m_socket = some s; m_str_error = c'.m_str_error })
      × IsSetUp (connect_plan c url s) c.m_str_error c'.m_str_error r m m'
  Connected c url m (fault _ _) = ⊥
  Connected c url m (blocked _) = ⊥

  subscribe_all-IsSetUp :
      (c : ClientImpl) (s : Ptr) (m : Machine z)
      → (r : ErrorType) × (text : String) × (m' : Machine z) × (subscribe_all c s m
          ≡ done (r, record c { m_str_error = text }) m')
        × IsSetUp (subscribe_plan (is_subscribe c.m_type) s) c.m_str_error text r m m'
  unfolding subscribe_all
  subscribe_all-IsSetUp c s m = elim (Bool-cases (is_subscribe c.m_type)) [
    | inr e ↦ rw e (ok, c.m_str_error, m, refl, IsSetUp-complete)
    | inl e ↦
        let (rc, w) = z.zmq_setsockopt s zmq_subscribe [] m.world in
        elim (Bool-cases (is_nonzero rc)) [
          | inl bad ↦ rw e (not_ok, _, _, rw bad refl, IsSetUp-fails rc w (rw bad))
          | inr good ↦
              rw e (
                ok,
                c.m_str_error,
                _,
                rw good refl,
                IsSetUp-goes_on rc w (rw good) IsSetUp-complete,
              )
        ]
  ]

  -- `connect` ends without a fault. It makes a socket of the client's type, connects it to the URL
  -- and, for a subscriber alone, asks for every message, in this order; it stops at the first call
  -- that fails, returns NOT_OK and keeps that call's error text, and otherwise returns OK and leaves
  -- the error text alone. Of the client it changes nothing else but `m_socket`, the new socket.
  pub connect-Connected :
      (c : ClientImpl) (url : String) (m : Machine z) → Connected c url m (connect c url m)
  unfolding connect
  connect-Connected c url m =
      let (s, w) = z.zmq_socket c.m_context (socket_kind c.m_type) m.world in
      let (rc, w') = z.zmq_connect s url w in
      elim (Bool-cases (s == null)) [
        | inl e ↦ rw e (s, refl, IsSetUp-fails (pos 0) w (rw e))
        | inr e ↦ rw e (elim (Bool-cases (is_nonzero rc)) [
          | inl bad ↦
              rw bad (s, refl, IsSetUp-goes_on (pos 0) w (rw e) (IsSetUp-fails rc w' (rw bad)))
          | inr good ↦
              let c' = record c { m_socket = some s } in
              let m' =
                after (after m (Event.socket_made c.m_context (socket_kind c.m_type) s) w)
                  (Event.connected s url rc) w' in
              let (r, text, m'', run, rest) = subscribe_all-IsSetUp c' s m' in
              rw good (
                rw run (
                  s,
                  refl,
                  IsSetUp-goes_on (pos 0) w (rw e) (IsSetUp-goes_on rc w' (rw good) rest),
                ))
        ])
      ]

-- ===== src/Agent/Requests.antt =====
-- client_api.cpp, send_worker and receive: the turns that they take.
use zeromq_agent.Base.{ℕ, false, ◌≡◌, some, inl, inr, Bool-cases, Option-cases}
use zeromq_agent.Base.Int.{is_nonzero, is_negative, to_int, to_size}
use zeromq_agent.Memory.{Ptr, read}
use zeromq_agent.Zmq.{Zmq, Flags, no_flags, Machine}
use zeromq_agent.Message.{IMessage, Received, no_message, own_message, get_data, get_size}
use zeromq_agent.Client.{ClientImpl, send_worker, send_made, receive, keep_message}
use zeromq_agent.Agent.Lockstep.{Turn, may_send, may_receive, turn_after, turn, InOrder, Post}

-- Whose turn it is after a `receive`.
abbrev pub received_turn : Received → Turn
received_turn own_message = may_send
received_turn no_message = may_receive

module _ (z : Zmq) where
  -- What a library does that makes every message that it is asked for.
  abbrev pub Wraps : Type 0
  Wraps = (p : Ptr) (n : ℕ) (w : z.World) → is_nonzero (z.zmq_msg_init_data p n w).0 ≡ false

module _ {z : Zmq} (t : Turn) where
  pub send_worker-turn :
      (wraps : Wraps z) (c : ClientImpl) (message : IMessage) (flags : Flags) (m : Machine z)
      → turn t m ≡ some may_send
      → Post (λ _ m'. turn t m' ≡ some may_receive) (InOrder t) (send_worker c message flags m)
  unfolding send_worker send_made turn_after
  send_worker-turn wraps c message flags m h =
      let n = to_size (get_size message) in
      let (_, msg, w) = z.zmq_msg_init_data (get_data message) n m.world in
      rw (wraps (get_data message) n m.world) (elim (Option-cases c.m_socket) [
        | inl e ↦ rw e (may_send, h)
        | inr (s, e) ↦
            let (sent, _, _) = z.zmq_msg_send msg s flags w m.heap in
            rw e (elim (Bool-cases (is_negative sent)) [
              | inl minus ↦ rw minus (rw h)
              | inr plus ↦ rw plus (rw h)
            ])
      ])

  pub receive-turn :
      (c : ClientImpl) (m : Machine z)
      → turn t m ≡ some may_receive
      → Post (λ (got, _) m'. turn t m' ≡ some (received_turn got)) (InOrder t) (receive c m)
  unfolding receive keep_message turn_after
  receive-turn c m h =
      let (error, empty, w) = z.zmq_msg_init m.world in
      elim (Bool-cases (is_nonzero error)) [
        | inl bad ↦ rw bad h
        | inr good ↦ rw good (elim (Option-cases c.m_socket) [
          | inl e ↦ rw e (may_receive, h)
          | inr (s, e) ↦
              let (n, msg, w', h') = z.zmq_msg_recv empty s no_flags w m.heap in
              let size = to_int (z.zmq_msg_size msg) in
              rw e (elim (Bool-cases (is_negative n)) [
                | inl minus ↦ rw minus (rw minus h)
                | inr plus ↦
                    rw plus (elim (Option-cases (read (z.zmq_msg_data msg) (to_size size) h')) [
                      | inl missing ↦ rw missing (may_send, rw plus (rw h))
                      | inr (xs, there) ↦ rw there (rw plus (rw h))
                    ])
              ])
        ])
      ]

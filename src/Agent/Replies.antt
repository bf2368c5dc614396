-- ===== src/Agent/Replies.antt =====
-- zeromq_agent.cpp, req_rep_server and req_rep_worker: they receive and send by turns.
use zeromq_agent.Base.{ℕ, zero, suc, ◌≡◌, some, inl, inr, Bool-cases, Option-cases, ◌∷◌}
use zeromq_agent.Base.Int.{is_nonzero, is_negative, to_int, to_size}
use zeromq_agent.Memory.{read}
use zeromq_agent.Zmq.{Zmq, Event, Flags, no_flags, Machine, Outcome}
use zeromq_agent.Zmq.Calls.{load, content}
use zeromq_agent.Message
use zeromq_agent.Message.{
  IMessage, Received, no_message, own_message, send_message, from_string, get_data, get_size,
  set_data, set_size,
}
use zeromq_agent.Server
use zeromq_agent.Server.{ServerImpl, is_publish, publish_worker, publish_message}
use zeromq_agent.Client
use zeromq_agent.Client.{ClientImpl, send_worker, send}
use zeromq_agent.Agent.{
  reply_text, answer, reply_round, reply_rounds, work_answer, work_round, work_rounds,
}
use zeromq_agent.Agent.Lockstep.{
  Turn, may_send, may_receive, turn_after, turn, InOrder, Post, Post-bind, Stays, load-Stays,
  from_string-Stays, destroy-Stays, Stays-bind,
}
use zeromq_agent.Agent.Requests.{Wraps, received_turn, send_worker-turn, receive-turn}

module _ {z : Zmq} (t : Turn) where
  publish_worker-turn :
      (s : ServerImpl) (message : IMessage) (flags : Flags) (m : Machine z)
      → turn t m ≡ some may_send
      → Stays t may_receive (publish_worker s message flags m)
  unfolding publish_worker turn_after
  publish_worker-turn s message flags m h = elim (Option-cases s.m_socket) [
    | inl e ↦ rw e (may_send, h)
    | inr (p, e) ↦ rw e (
        let n = to_size (get_size message) in
        elim (Option-cases (read (get_data message) n m.heap)) [
          | inl missing ↦ rw missing (may_send, h)
          | inr (xs, there) ↦
              let (sent, _) = z.zmq_send p xs no_flags m.world in
              rw there (elim (Bool-cases (is_negative sent)) [
                | inl minus ↦ rw minus (rw h)
                | inr plus ↦ rw plus (rw h)
              ])
        ])
  ]

  abbrev ReceivedTurn : {A : Type 0} → Outcome z (Received × A) → Type 0
  ReceivedTurn = Post (λ (got, _) m'. turn t m' ≡ some (received_turn got)) (InOrder t)

  receive_server-turn :
      (s : ServerImpl) (m : Machine z)
      → turn t m ≡ some may_receive
      → ReceivedTurn (Server.receive s m)
  unfolding Server.receive Server.keep_message turn_after
  receive_server-turn s m h = elim (Bool-cases (is_publish s.m_type)) [
    | inl publisher ↦ rw publisher h
    | inr other ↦ rw other (
        let (error, empty, w) = z.zmq_msg_init m.world in
        elim (Bool-cases (is_nonzero error)) [
          | inl bad ↦ rw bad h
          | inr good ↦ rw good (elim (Option-cases s.m_socket) [
            | inl e ↦ rw e (may_receive, h)
            | inr (p, e) ↦
                let (n, msg, w', h') = z.zmq_msg_recv empty p no_flags w m.heap in
                rw e (elim (Bool-cases (is_negative n)) [
                  | inl minus ↦ rw minus (rw minus h)
                  | inr plus ↦ rw plus (
                      let start = z.zmq_msg_data msg in
                      let size = to_int (z.zmq_msg_size msg) in
                      let own = set_size size (set_data start s.m_message) in
                      let (rc, w'', h'') = z.zmq_msg_close msg w' h' in
                      let closed = record m {
                        world = w'';
                        heap = h'';
                        trace =
                            Event.msg_closed msg rc
                            ∷ Event.msg_received p no_flags msg (content z msg h') n
                            ∷ Event.msg_made empty error
                            ∷ m.trace;
                      } in
                      Post-bind (λ _ m'. turn t m' ≡ some may_send)
                        (λ (got, _) m'. turn t m' ≡ some (received_turn got)) (InOrder t)
                        (load (get_data own) (to_size (get_size own)) closed) _
                        (load-Stays t may_send (get_data own) (to_size (get_size own)) closed
                          (rw plus (rw h)))
                        λ _ m' k. k)
                ])
          ])
        ])
  ]

  answer-turn :
      (got : Received) (s : ServerImpl) (m : Machine z)
      → turn t m ≡ some (received_turn got)
      → Stays t may_receive (answer got s m)
  unfolding answer publish_message
  answer-turn no_message s m h = h
  answer-turn own_message s m h =
      let message = s.m_message in
      Stays-bind t may_send may_receive (load (get_data message) (to_size (get_size message)) m) _
        (load-Stays t may_send (get_data message) (to_size (get_size message)) m h)
        λ _ m1 h1.
          Stays-bind t may_send may_receive (from_string reply_text m1) _
            (from_string-Stays t may_send reply_text m1 h1)
            λ text m2 h2.
              Stays-bind t may_receive may_receive
                (publish_worker s (send_message text) no_flags m2) _
                (publish_worker-turn s (send_message text) no_flags m2 h2)
                λ (_, s') m3 h3.
                  Stays-bind t may_receive may_receive (Message.destroy text m3) _
                    (destroy-Stays t may_receive text m3 h3) λ _ m4 h4. h4

  reply_round-turn :
      (s : ServerImpl) (m : Machine z)
      → turn t m ≡ some may_receive
      → Stays t may_receive (reply_round s m)
  unfolding reply_round
  reply_round-turn s m h =
      Post-bind (λ (got, _) m'. turn t m' ≡ some (received_turn got))
        (λ _ m'. turn t m' ≡ some may_receive) (InOrder t) (Server.receive s m) _
        (receive_server-turn s m h) λ (got, s') m' h'. answer-turn got s' m' h'

  -- With any library, the rounds of `req_rep_server` receive and send by turns, beginning with a
  -- receive: if it is the turn to receive before them, it is so after them, and a fault on the way
  -- leaves the order unbroken. They do not block.
  pub reply_rounds-turn :
      (n : ℕ) (s : ServerImpl) (m : Machine z)
      → turn t m ≡ some may_receive
      → Stays t may_receive (reply_rounds n s m)
  unfolding reply_rounds
  reply_rounds-turn zero s m h = h
  reply_rounds-turn (suc n) s m h =
      Stays-bind t may_receive may_receive (reply_round s m) _ (reply_round-turn s m h)
        λ s' m' h'. reply_rounds-turn n s' m' h'

  work_answer-turn :
      (wraps : Wraps z) (got : Received) (c : ClientImpl) (m : Machine z)
      → turn t m ≡ some (received_turn got)
      → Stays t may_receive (work_answer got c m)
  unfolding work_answer send
  work_answer-turn wraps no_message c m h = h
  work_answer-turn wraps own_message c m h =
      let message = c.m_message in
      Stays-bind t may_send may_receive (load (get_data message) (to_size (get_size message)) m) _
        (load-Stays t may_send (get_data message) (to_size (get_size message)) m h)
        λ _ m1 h1.
          Stays-bind t may_send may_receive (from_string reply_text m1) _
            (from_string-Stays t may_send reply_text m1 h1)
            λ text m2 h2.
              Stays-bind t may_receive may_receive (send_worker c (send_message text) no_flags m2) _
                (send_worker-turn t wraps c (send_message text) no_flags m2 h2)
                λ (_, c') m3 h3.
                  Stays-bind t may_receive may_receive (Message.destroy text m3) _
                    (destroy-Stays t may_receive text m3 h3) λ _ m4 h4. h4

  work_round-turn :
      (wraps : Wraps z) (c : ClientImpl) (m : Machine z)
      → turn t m ≡ some may_receive
      → Stays t may_receive (work_round c m)
  unfolding work_round
  work_round-turn wraps c m h =
      Post-bind (λ (got, _) m'. turn t m' ≡ some (received_turn got))
        (λ _ m'. turn t m' ≡ some may_receive) (InOrder t) (Client.receive c m) _
        (receive-turn t c m h) λ (got, c') m' h'. work_answer-turn wraps got c' m' h'

  -- With a library that makes every message, the rounds of `req_rep_worker` receive and send by
  -- turns, beginning with a receive: if it is the turn to receive before them, it is so after them,
  -- and a fault on the way leaves the order unbroken. They do not block.
  pub work_rounds-turn :
      (wraps : Wraps z) (n : ℕ) (c : ClientImpl) (m : Machine z)
      → turn t m ≡ some may_receive
      → Stays t may_receive (work_rounds n c m)
  unfolding work_rounds
  work_rounds-turn wraps zero c m h = h
  work_rounds-turn wraps (suc n) c m h =
      Stays-bind t may_receive may_receive (work_round c m) _ (work_round-turn wraps c m h)
        λ c' m' h'. work_rounds-turn wraps n c' m' h'

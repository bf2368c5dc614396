-- ===== src/Exchange/Replies.antt =====
-- zeromq_agent.cpp, req_rep_worker and req_rep_server: the texts that they send.
use zeromq_agent.Base.{ℕ, zero, suc, ◌≡◌, refl, some, inl, inr, Bool-cases, Option-cases}
use zeromq_agent.Base.Int.{is_nonzero, is_negative, to_int, to_size}
use zeromq_agent.Memory.{Ptr, read}
use zeromq_agent.Zmq.{Zmq, no_flags, Machine}
use zeromq_agent.Zmq.Laws.{Refers}
use zeromq_agent.Zmq.Parts.{same}
use zeromq_agent.Message.{Received, own_message, no_message, get_data, get_size, set_data, set_size}
use zeromq_agent.Client.{ClientImpl, send}
use zeromq_agent.Client as Client
use zeromq_agent.Server as Server
use zeromq_agent.Server.{ServerImpl, publish_message, is_publish}
use zeromq_agent.Agent.{work_answer, work_round, work_rounds, answer, reply_round, reply_rounds}
use zeromq_agent.Agent.Lockstep.{Post, Post-bind}
use zeromq_agent.Agent.Requests.{Wraps}
use zeromq_agent.Exchange.Ends.{TakesOne, Takes}
use zeromq_agent.Exchange.Answers.{Answers, Answered, Replies, May, answer-Replies, round-Replies}
use zeromq_agent.Exchange.Requests.{client_socket, send-SendsBytes, receive-Takes}
use zeromq_agent.Exchange.Publications.{server_socket, publish-SendsBytes}

module _ {z : Zmq} (s : Ptr) where
  work_answer-Replies :
      (wraps : Wraps z) (refers : Refers z) (got : Received) (c : ClientImpl) (m : Machine z)
      → May s got m.trace
      → c.m_socket ≡ some s
      → Replies client_socket s (work_answer got c m)
  unfolding work_answer
  work_answer-Replies wraps refers no_message c m may hs = (may, hs)
  work_answer-Replies wraps refers own_message c m may hs =
      answer-Replies client_socket s send (λ c'. c') (λ c'. c') (send-SendsBytes s wraps refers)
        (λ _. refl) (get_data c.m_message) (to_size (get_size c.m_message)) c m may hs

  -- On a connected client, and with a library that makes messages which refer to the caller's bytes:
  -- if `req_rep_worker` has sent at most one reply for each text that arrived, and nothing else, then
  -- this is so after any number of its rounds, also where they end in a fault. They do not block.
  pub work_rounds-Replies :
      (wraps : Wraps z) (refers : Refers z) (n : ℕ) (c : ClientImpl) (m : Machine z)
      → Answers s m.trace
      → c.m_socket ≡ some s
      → Replies client_socket s (work_rounds n c m)
  unfolding work_rounds work_round
  work_rounds-Replies wraps refers zero c m h hs = (h, hs)
  work_rounds-Replies wraps refers (suc n) c m h hs =
      Post-bind (Answered client_socket s) (Answered client_socket s) (λ m'. Answers s m'.trace)
        (work_round c m) _
        (round-Replies client_socket s (Client.receive c m) _ m (receive-Takes s c m hs) h
          (work_answer-Replies wraps refers))
        λ c' m' (h', hs'). work_rounds-Replies wraps refers n c' m' h' hs'

  receive_server-Takes :
      (c : ServerImpl) (m : Machine z)
      → c.m_socket ≡ some s
      → Post (Takes server_socket s m) (TakesOne s m) (Server.receive c m)
  unfolding Server.receive Server.keep_message
  receive_server-Takes c m hs = elim (Bool-cases (is_publish c.m_type)) [
    | inl publisher ↦ rw publisher (refl, refl, hs)
    | inr other ↦ rw other (
        let (error, empty, w) = z.zmq_msg_init m.world in
        let (n, msg, w', h') = z.zmq_msg_recv empty s no_flags w m.heap in
        let own =
          set_size (to_int (z.zmq_msg_size msg)) (set_data (z.zmq_msg_data msg) c.m_message) in
        let (_, _, h'') = z.zmq_msg_close msg w' h' in
        elim (Bool-cases (is_nonzero error)) [
          | inl bad ↦ rw bad (refl, refl, hs)
          | inr good ↦ rw good (
              rw hs (elim (Bool-cases (is_negative n)) [
                | inl minus ↦ rw minus (rw minus (refl, refl, refl))
                | inr plus ↦
                    rw plus
                      (elim (Option-cases (read (get_data own) (to_size (get_size own)) h'')) [
                        | inl missing ↦ rw missing (rw plus (rw (same s) (refl, (_, refl))))
                        | inr (xs, there) ↦ rw there (rw plus (rw (same s) (refl, (_, refl), refl)))
                      ])
              ]))
        ])
  ]

  reply_answer-Replies :
      (got : Received) (c : ServerImpl) (m : Machine z)
      → May s got m.trace
      → c.m_socket ≡ some s
      → Replies server_socket s (answer got c m)
  unfolding answer
  reply_answer-Replies no_message c m may hs = (may, hs)
  reply_answer-Replies own_message c m may hs =
      answer-Replies server_socket s publish_message (λ c'. c') (λ c'. c') (publish-SendsBytes s)
        (λ _. refl) (get_data c.m_message) (to_size (get_size c.m_message)) c m may hs

  -- On a bound server: if `req_rep_server` has sent at most one reply for each text that arrived, and
  -- nothing else, then this is so after any number of its rounds, also where they end in a fault. They
  -- do not block.
  pub reply_rounds-Replies :
      (n : ℕ) (c : ServerImpl) (m : Machine z)
      → Answers s m.trace
      → c.m_socket ≡ some s
      → Replies server_socket s (reply_rounds n c m)
  unfolding reply_rounds reply_round
  reply_rounds-Replies zero c m h hs = (h, hs)
  reply_rounds-Replies (suc n) c m h hs =
      Post-bind (Answered server_socket s) (Answered server_socket s) (λ m'. Answers s m'.trace)
        (reply_round c m) _
        (round-Replies server_socket s (Server.receive c m) _ m (receive_server-Takes c m hs) h
          reply_answer-Replies)
        λ c' m' (h', hs'). reply_rounds-Replies n c' m' h' hs'

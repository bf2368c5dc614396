-- ===== src/Server/Receive.antt =====
-- server_api.cpp, ServerImpl::receive.
use zeromq_agent.Base.{
  none, [], ℕ, suc, ◌<◌, ◌^◌, ◌≡◌, refl, some, true, false, inl, inr, Bool-cases, ℕ-cases, arith,
  ◌∷◌,
}
use zeromq_agent.Base.Int.{ℤ, pos, is_nonzero, is_negative, to_size, to_int-eq_of_lt}
use zeromq_agent.Memory.{Ptr, read}
use zeromq_agent.Zmq.{Zmq, Event, no_flags, Machine, bad_access, Outcome, done, fault, blocked}
use zeromq_agent.Memory.Laws.{read-zero}
use zeromq_agent.Zmq.Arrivals.{incoming, asked, Failed, Arrived, no_init, no_recv}
use zeromq_agent.Zmq.Laws.{ManagesBuffers}
use zeromq_agent.Message.{
  SendMessage, send_message, get_data, get_size, set_data, set_size, Received, no_message,
  own_message,
}
use zeromq_agent.Server.{ServerImpl, is_publish, receive, keep_message}

module _ {z : Zmq} where
  -- How `receive` ends: with NULL after a call that failed, with its own message if one came in that
  -- has no bytes to read, and with a fault, after it was closed, if one came in that has.
  abbrev pub Receives :
      ServerImpl → SendMessage → Ptr → Machine z → Outcome z (Received × ServerImpl) → Type 0
  Receives c own s m (done (no_message, c') m') =
      Failed s m m' × (c' ≡ record c { m_str_error = z.zmq_strerror (z.errno m'.world) })
  Receives c own s m (done (own_message, c') m') =
      let msg = incoming s m in
      Arrived s m
      × ((rc : ℤ) × (m'.trace ≡ Event.msg_closed msg rc ∷ (asked s m).trace))
      × (z.zmq_msg_size msg ≡ 0)
      × (c' ≡ record c {
        m_message =
            send_message
              (record own { m_size = pos (z.zmq_msg_size msg); m_data = z.zmq_msg_data msg });
      })
  Receives c own s m (fault f m') =
      let msg = incoming s m in
      Arrived s m
      × ((rc : ℤ) × (m'.trace ≡ Event.msg_closed msg rc ∷ (asked s m).trace))
      × ((k : ℕ) × (z.zmq_msg_size msg ≡ suc k))
      × (f ≡ bad_access)
  Receives c own s m (blocked _) = ⊥

  -- For a server that is bound and not a publisher, a message below 2^31 bytes, and where the library
  -- manages the buffers as its manual says: where `zmq_msg_init` or then `zmq_msg_recv` fails,
  -- `receive` stops there and returns NULL with the error text of `errno` after that call. Where
  -- neither fails it closes what was received, and returns its own message with the start of that
  -- only if it has no bytes: the bytes of any other are read after the message is closed, a fault.
  pub receive_server-Receives :
      (laws : ManagesBuffers z) (c : ServerImpl) (own : SendMessage) (s : Ptr) (m : Machine z)
      → is_publish c.m_type ≡ false
      → c.m_socket ≡ some s
      → c.m_message ≡ send_message own
      → z.zmq_msg_size (incoming s m) < 2 ^ 31
      → Receives c own s m (receive c m)
  unfolding receive keep_message get_data get_size set_data set_size to_size
  receive_server-Receives laws c own s m hp hs hm small =
      let (error, empty, w) = z.zmq_msg_init m.world in
      let (n, msg, w', h') = z.zmq_msg_recv empty s no_flags w m.heap in
      let start = z.zmq_msg_data msg in
      let size = z.zmq_msg_size msg in
      let (rc, _, after) = z.zmq_msg_close msg w' h' in
      rw hp (elim (Bool-cases (is_nonzero error)) [
        | inl bad ↦ rw bad (no_init bad, refl)
        | inr good ↦ rw good (
            rw hs (elim (Bool-cases (is_negative n)) [
              | inl minus ↦ rw minus (no_recv good minus, refl)
              | inr plus ↦ rw plus (
                  rw (to_int-eq_of_lt (z.zmq_msg_size msg) small) (
                    rw hm (elim (ℕ-cases (z.zmq_msg_size msg)) [
                      | inl e ↦
                          let nothing : read start size after ≡ some [] =
                            rw e (read-zero start after) in
                          rw nothing ((good, plus), (rc, refl), e, refl)
                      | inr (k, e) ↦
                          let gone : read start size after ≡ none =
                            laws.frees empty s no_flags w m.heap size plus (rw e (omega arith)) in
                          rw gone ((good, plus), (rc, refl), (k, e), refl)
                    ])))
            ]))
      ])

  -- A publisher's `receive` returns NULL; it calls nothing and changes nothing.
  pub receive-publish :
      (c : ServerImpl) (m : Machine z)
      → is_publish c.m_type ≡ true
      → receive c m ≡ done (no_message, c) m
  unfolding receive
  receive-publish c m h = rw h

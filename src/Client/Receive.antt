-- ===== src/Client/Receive.antt =====
-- client_api.cpp, ClientImpl::receive.
use zeromq_agent.Base.{ℕ, suc, arith, ◌<◌, ◌^◌, ◌≡◌, refl, some, none, inl, inr, Bool-cases, ◌∷◌}
use zeromq_agent.Base.Int.{ℤ, pos, is_nonzero, is_negative, to_size, to_int-eq_of_lt}
use zeromq_agent.Memory.{Ptr, read}
use zeromq_agent.Zmq.{Zmq, Event, no_flags, Machine, Outcome, done, fault, blocked}
use zeromq_agent.Zmq.Arrivals.{incoming, asked, Failed, Arrived, no_init, no_recv}
use zeromq_agent.Zmq.Laws.{ManagesBuffers}
use zeromq_agent.Message.{
  SendMessage, send_message, get_data, get_size, set_data, set_size, Received, no_message,
  own_message,
}
use zeromq_agent.Client.{ClientImpl, receive, keep_message}

module _ {z : Zmq} where
  abbrev pub Receives :
      ClientImpl → SendMessage → Ptr → Machine z → Outcome z (Received × ClientImpl) → Type 0
  Receives c own s m (done (no_message, c') m') =
      Failed s m m' × (c' ≡ record c { m_str_error = z.zmq_strerror (z.errno m'.world) })
  Receives c own s m (done (own_message, c') m') =
      let msg = incoming s m in
      Arrived s m
      × ((rc : ℤ) × (m'.trace ≡ Event.msg_closed msg rc ∷ (asked s m).trace))
      × (c' ≡ record c {
        m_message =
            send_message
              (record own { m_size = pos (z.zmq_msg_size msg); m_data = z.zmq_msg_data msg });
      })
      × ((k : ℕ) → read (get_data c'.m_message) (suc k) m'.heap ≡ none)
  Receives c own s m (fault _ _) = ⊥
  Receives c own s m (blocked _) = ⊥

  -- On a connected client, for a message below 2^31 bytes, and where the library manages the buffers
  -- as its manual says, `receive` ends without a fault. Where `zmq_msg_init` or then `zmq_msg_recv`
  -- fails, it stops there and returns NULL with the error text of `errno` after that call. Where
  -- neither fails, it closes what was received and returns its own message with the start and the
  -- size of that; but the buffer is gone by then, so that the caller can read no byte of it.
  pub receive-Receives :
      (laws : ManagesBuffers z) (c : ClientImpl) (own : SendMessage) (s : Ptr) (m : Machine z)
      → c.m_socket ≡ some s
      → c.m_message ≡ send_message own
      → z.zmq_msg_size (incoming s m) < 2 ^ 31
      → Receives c own s m (receive c m)
  unfolding receive keep_message get_data get_size set_data set_size to_size
  receive-Receives laws c own s m hs hm small =
      let (error, empty, w) = z.zmq_msg_init m.world in
      let (n, msg, w', h') = z.zmq_msg_recv empty s no_flags w m.heap in
      elim (Bool-cases (is_nonzero error)) [
        | inl bad ↦ rw bad (no_init bad, refl)
        | inr good ↦ rw good (
            rw hs (elim (Bool-cases (is_negative n)) [
              | inl minus ↦ rw minus (no_recv good minus, refl)
              | inr plus ↦
                  let (xs, there) = laws.delivers empty s no_flags w m.heap plus in
                  rw plus (
                    rw (to_int-eq_of_lt (z.zmq_msg_size msg) small) (
                      rw there (
                        rw hm (
                          (good, plus),
                          ((z.zmq_msg_close msg w' h').0, cc there),
                          refl,
                          λ k. laws.frees empty s no_flags w m.heap (suc k) plus (omega arith),
                        ))))
            ]))
      ]

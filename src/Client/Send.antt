-- ===== src/Client/Send.antt =====
-- client_api.cpp, ClientImpl::send_worker: what it reports.
use zeromq_agent.Base.{
  ℕ, String, ◌≡◌, refl, some, true, false, List, [], ◌∷◌, ◌++◌, inl, inr, Bool-cases,
}
use zeromq_agent.Base.Int.{ℤ, pos, is_nonzero, is_negative, to_size}
use zeromq_agent.Memory.{Ptr, Heap}
use zeromq_agent.Zmq.{Zmq, Event, Flags, Machine, Outcome, done, fault, blocked}
use zeromq_agent.Zmq.Calls.{content}
use zeromq_agent.Message.{Status, IMessage, ok, not_ok, get_data, get_size}
use zeromq_agent.Client.{ClientImpl, send_worker, send_made}

-- The client's error text after a call with this status.
abbrev pub kept_text : Status → String → String
kept_text st old = elim st.error [ ok ↦ old | not_ok ↦ st.error_str ]

module _ (z : Zmq) where
  -- The message on `n` bytes at `p`, and what the library makes of it when it is sent.
  abbrev pub wrapped : Ptr → ℕ → z.World → ℤ × z.Msg × z.World
  wrapped p n w = z.zmq_msg_init_data p n w

  abbrev pub given : Ptr → ℕ → Ptr → Flags → z.World → Heap → ℤ × z.Msg × z.World
  given p n s flags w h =
      let (_, msg, w1) = z.zmq_msg_init_data p n w in z.zmq_msg_send msg s flags w1 h

  -- The calls of a `send_worker` that made a message, the latest first.
  abbrev pub sent_and_closed : Ptr → ℕ → Ptr → Flags → z.World → Heap → List (Event z)
  sent_and_closed p n s flags w h =
      let (rc, msg, _) = z.zmq_msg_init_data p n w in
      let (sent, rest, w2) = given p n s flags w h in
      Event.msg_closed rest (z.zmq_msg_close rest w2 h).0
      ∷ Event.msg_sent s msg (content z msg h) flags sent
      ∷ Event.msg_wrapped p n msg rc
      ∷ []

module _ {z : Zmq} where
  -- The calls that one `send_worker` makes, the latest first, and the status that belongs to them,
  -- from the state `w` of the library and the memory `h` on.
  -- The text of the error is that of `errno` right after the call that failed.
  pub data SendRun (p : Ptr) (n : ℕ) (s : Ptr) (flags : Flags) (w : z.World) (h : Heap)
      : Status → List (Event z) → Type 0 where
    -- no message could be made: nothing is sent
    not_wrapped :
        is_nonzero (wrapped z p n w).0 ≡ true
        → SendRun p n s flags w h
            (record {
              error = not_ok;
              bytes_send = pos 0;
              error_str = z.zmq_strerror (z.errno (wrapped z p n w).2);
            })
            (Event.msg_wrapped p n (wrapped z p n w).1 (wrapped z p n w).0 ∷ [])
    -- the message was refused, and is closed
    refused :
        is_nonzero (wrapped z p n w).0 ≡ false
        → is_negative (given z p n s flags w h).0 ≡ true
        → SendRun p n s flags w h
            (record {
              error = not_ok;
              bytes_send = (given z p n s flags w h).0;
              error_str = z.zmq_strerror (z.errno (given z p n s flags w h).2);
            })
            (sent_and_closed z p n s flags w h)
    -- the message was sent, and is closed
    accepted :
        is_nonzero (wrapped z p n w).0 ≡ false
        → is_negative (given z p n s flags w h).0 ≡ false
        → SendRun p n s flags w h
            (record { error = ok; bytes_send = (given z p n s flags w h).0; error_str = "" })
            (sent_and_closed z p n s flags w h)

  abbrev pub Sends :
      ClientImpl → IMessage → Ptr → Flags → Machine z → Outcome z (Status × ClientImpl) → Type 0
  Sends c message s flags m (done (st, c') m') =
      (calls : List (Event z)) × (m'.trace ≡ calls ++ m.trace)
      × SendRun (get_data message) (to_size (get_size message)) s flags m.world m.heap st calls
      × (c' ≡ record c { m_str_error = kept_text st c.m_str_error })
  Sends c message s flags m (fault _ _) = ⊥
  Sends c message s flags m (blocked _) = ⊥

  -- On a connected client `send_worker` ends without a fault. It hands the message's bytes to the
  -- library and sends them once with the given flags, closes the message exactly where one was made,
  -- and reports OK exactly where the library took the message; after a failure the client and the
  -- status have the error text of `errno` right after the call that failed. No byte count of -1 is reported where no message was made.
  pub send_worker-Sends :
      (c : ClientImpl) (message : IMessage) (s : Ptr) (flags : Flags) (m : Machine z)
      → c.m_socket ≡ some s
      → Sends c message s flags m (send_worker c message flags m)
  unfolding send_worker send_made
  send_worker-Sends c message s flags m h =
      let n = to_size (get_size message) in
      let (rc, msg, w) = z.zmq_msg_init_data (get_data message) n m.world in
      let (sent, rest, w') = z.zmq_msg_send msg s flags w m.heap in
      let (rc', _, _) = z.zmq_msg_close rest w' m.heap in
      elim (Bool-cases (is_nonzero rc)) [
        | inl bad ↦ rw bad (_, refl, not_wrapped bad, refl)
        | inr good ↦ rw (good) (
            rw h (elim (Bool-cases (is_negative sent)) [
              | inl minus ↦ rw minus (_, refl, refused good minus, refl)
              | inr plus ↦ rw plus (_, refl, accepted good plus, refl)
            ]))
      ]

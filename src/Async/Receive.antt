-- ===== src/Async/Receive.antt =====
-- The handler of `async_receive`: what its callback gets, and what happens if that has ended.
use zeromq_agent.Base.{
  ◌<◌, ◌^◌, ◌≡◌, refl, none, some, true, false, Bool, not, inl, inr, Bool-cases, [], ◌∷◌,
  if◌then◌else◌, ◌⊎◌, ◌==◌,
}
use zeromq_agent.Base.Int.{ℤ, pos, to_size, to_int-eq_of_lt, is_negative}
use zeromq_agent.Memory.{Ptr, Bytes, read}
use zeromq_agent.Zmq.{
  Zmq, Event, bad_access, zmq_dontwait, Machine, Outcome, done, fault, blocked, and_then,
}
use zeromq_agent.Zmq.Calls.{content}
use zeromq_agent.Zmq.Laws.{ManagesBuffers}
use zeromq_agent.Message
use zeromq_agent.Message.{SendMessage, borrow}
use zeromq_agent.Async.{Endpoint, eagain, ReceiveCallback, receive_handler, hand_over, closed_after}

module _ {z : Zmq} where
  -- The answer of `zmq_poll` in the handler, and what the `zmq_msg_recv` after it gives.
  abbrev pub ready : Ptr → Machine z → Bool
  ready s m = let (_, _, w) = z.zmq_msg_init m.world in (z.zmq_poll (s ∷ []) (λ _. false) w).0 0

  abbrev pub received : Ptr → Machine z → ℤ × z.Msg
  received s m =
      let (_, empty, w) = z.zmq_msg_init m.world in
      let (_, w') = z.zmq_poll (s ∷ []) (λ _. false) w in
      let (n, msg, _, _) = z.zmq_msg_recv empty s zmq_dontwait w' m.heap in (n, msg)

  -- A message arrives.
  abbrev pub arrives : Ptr → Machine z → Bool
  arrives s m = if ready s m then not (is_negative (received s m).0) else false

  -- The machine at the call of the callback.
  abbrev pub at_call : Ptr → Machine z → Machine z
  at_call s m =
      let (rc, empty, w) = z.zmq_msg_init m.world in
      let (revents, w') = z.zmq_poll (s ∷ []) (λ _. false) w in
      let (n, msg, w'', h) = z.zmq_msg_recv empty s zmq_dontwait w' m.heap in
      record m {
        world = w'';
        heap = h;
        trace =
            Event.msg_received s zmq_dontwait msg (content z msg h) n
            ∷ Event.polled (s ∷ []) revents
            ∷ Event.msg_made empty rc
            ∷ m.trace;
      }

  module _ {I : Type 0} where
    -- The run ends, without a fault exactly if nothing arrives.
    abbrev pub Dangles : Bool → Outcome z I → Type 0
    Dangles arrived (done _ _) = arrived ≡ false
    Dangles arrived (fault f _) = (arrived ≡ true) × (f ≡ bad_access)
    Dangles arrived (blocked _) = ⊥

    -- On an object with a socket, the handler of `async_receive` whose callback has ended before it
    -- runs is a fault exactly if a message arrives.
    pub receive_handler-Dangles :
        (endpoint : Endpoint I) (c : I) (s : Ptr) (m : Machine z)
        → endpoint.m_socket c ≡ some s
        → Dangles (arrives s m) (receive_handler endpoint none c m)
    unfolding receive_handler hand_over
    receive_handler-Dangles endpoint c s m hs = rw hs (elim (Bool-cases (ready s m)) [
      | inr idle ↦ rw idle refl
      | inl there ↦ rw there (elim (Bool-cases (is_negative (received s m).0)) [
        | inl minus ↦ rw minus refl
        | inr plus ↦ rw plus (refl, refl)
      ])
    ])

    -- A callback that ends wherever it gets a message whose bytes it can read, and leaves the message
    -- one that does not own its bytes.
    abbrev pub Kept : Outcome z (SendMessage × I) → Type 0
    Kept (done (message, _) _) = message.m_is_allocated ≡ some false
    Kept (fault _ _) = ⊥
    Kept (blocked _) = ⊥

    abbrev pub ReadsOnly : ReceiveCallback z I → Type 0
    ReadsOnly cbk =
        (message : SendMessage) (xs : Bytes) (c : I) (m : Machine z)
        → read message.m_data (to_size message.m_size) m.heap ≡ some xs
        → message.m_is_allocated ≡ some false
        → Kept (cbk message c m)

    -- The calls of a handler that finds no message, the latest first, and the object after it: it has
    -- polled the socket, and received only if that is ready; an error other than EAGAIN is kept.
    abbrev pub Idle : Endpoint I → I → Ptr → Machine z → I → Machine z → Type 0
    Idle endpoint c s m c' m' =
        let (rc, empty, w) = z.zmq_msg_init m.world in
        let (revents, w') = z.zmq_poll (s ∷ []) (λ _. false) w in
        let asked = Event.polled (s ∷ []) revents ∷ Event.msg_made empty rc ∷ m.trace in
        ((ready s m ≡ false) × (m'.trace ≡ asked) × (c' ≡ c))
        ⊎ ((ready s m ≡ true)
            × (is_negative (received s m).0 ≡ true)
            × (m' ≡ at_call s m)
            × (c' ≡ (
                if z.errno m'.world == eagain
                then c
                else endpoint.set_str_error (z.zmq_strerror (z.errno m'.world)) c)))

    -- The callback was called with the message that came in, whose bytes can be read then, and it is
    -- closed after the call.
    abbrev pub HandedOver : ReceiveCallback z I → I → Ptr → Machine z → I → Machine z → Type 0
    HandedOver cbk c s m c' m' =
        let (_, msg) = received s m in
        ((xs : Bytes) × (read (z.zmq_msg_data msg) (z.zmq_msg_size msg) (at_call s m).heap
            ≡ some xs))
        × (own : SendMessage) × (m1 : Machine z) × (rc : ℤ) × (cbk
              (borrow (z.zmq_msg_data msg) (pos (z.zmq_msg_size msg))) c (at_call s m)
            ≡ done (own, c') m1)
        × (m'.trace ≡ Event.msg_closed msg rc ∷ m1.trace)

    abbrev pub Handles :
        Endpoint I → ReceiveCallback z I → I → Ptr → Machine z → Outcome z I → Type 0
    Handles endpoint cbk c s m (done c' m') =
        ((arrives s m ≡ false) × Idle endpoint c s m c' m')
        ⊎ ((arrives s m ≡ true) × HandedOver cbk c s m c' m')
    Handles endpoint cbk c s m (fault _ _) = ⊥
    Handles endpoint cbk c s m (blocked _) = ⊥

    -- From the callback on.
    close_message-Handles :
        (endpoint : Endpoint I) (cbk : ReceiveCallback z I) (c : I) (s : Ptr) (m : Machine z)
        (xs : Bytes) (o : Outcome z (SendMessage × I))
        → arrives s m ≡ true
        → let (_, msg) = received s m in
          read (z.zmq_msg_data msg) (z.zmq_msg_size msg) (at_call s m).heap ≡ some xs
          → cbk (borrow (z.zmq_msg_data msg) (pos (z.zmq_msg_size msg))) c (at_call s m) ≡ o
          → Kept o
          → Handles endpoint cbk c s m
              (and_then o λ (message, c'). closed_after (received s m).1 message c')
    unfolding Message.destroy closed_after
    close_message-Handles endpoint cbk c s m xs (done (message, c') m1) there readable e h = rw h (
        inr (
          there,
          (
            (xs, readable),
            message,
            m1,
            (z.zmq_msg_close (received s m).1 m1.world m1.heap).0,
            e,
            refl,
          ),
        ))
    close_message-Handles endpoint cbk c s m xs (fault _ _) there readable e h = h
    close_message-Handles endpoint cbk c s m xs (blocked _) there readable e h = h

    called :
        (laws : ManagesBuffers z) (endpoint : Endpoint I) (cbk : ReceiveCallback z I) (c : I)
        (s : Ptr) (m : Machine z)
        → ReadsOnly cbk
        → z.zmq_msg_size (received s m).1 < 2 ^ 31
        → arrives s m ≡ true
        → is_negative (received s m).0 ≡ false
        → Handles endpoint cbk c s m (hand_over (some cbk) (received s m).1 c (at_call s m))
    unfolding hand_over to_size
    called laws endpoint cbk c s m reads small there plus =
        let (rc, empty, w) = z.zmq_msg_init m.world in
        let (revents, w') = z.zmq_poll (s ∷ []) (λ _. false) w in
        let msg = (received s m).1 in
        let (xs, readable) = laws.delivers empty s zmq_dontwait w' m.heap plus in
        let message = borrow (z.zmq_msg_data msg) (pos (z.zmq_msg_size msg)) in
        rw (to_int-eq_of_lt (z.zmq_msg_size msg) small) (
          close_message-Handles endpoint cbk c s m xs (cbk message c (at_call s m)) there readable
            refl (reads message xs c (at_call s m) readable refl))

    -- On an object with a socket, for a message below 2^31 bytes, and where the library manages the
    -- buffers as its manual says: for every callback that itself ends without a fault whenever it can
    -- read the bytes of its message, and leaves the message without an allocation of its own, the
    -- handler of `async_receive` ends without a fault. It polls the socket first. Where a message
    -- comes in it calls the callback, with the start and the size of that message, whose bytes can be
    -- read, and closes the message after the call. Otherwise the callback is not called: the object is
    -- as before where the socket is not ready or `errno` is EAGAIN, and has the text of `errno` where
    -- the receive fails in another way.
    pub receive_handler-Handles :
        (laws : ManagesBuffers z) (endpoint : Endpoint I) (cbk : ReceiveCallback z I) (c : I)
        (s : Ptr) (m : Machine z)
        → ReadsOnly cbk
        → endpoint.m_socket c ≡ some s
        → z.zmq_msg_size (received s m).1 < 2 ^ 31
        → Handles endpoint cbk c s m (receive_handler endpoint (some cbk) c m)
    unfolding receive_handler hand_over
    receive_handler-Handles laws endpoint cbk c s m reads hs small =
        rw hs (elim (Bool-cases (ready s m)) [
          | inr idle ↦ rw idle (inl (rw idle refl, inl (idle, refl, refl)))
          | inl there ↦ rw there (elim (Bool-cases (is_negative (received s m).0)) [
            | inl minus ↦ rw minus (inl (rw there (rw minus refl), inr (there, minus, refl, refl)))
            | inr plus ↦
                rw plus (called laws endpoint cbk c s m reads small (rw there (rw plus refl)) plus)
          ])
        ])

-- ===== src/Broker/Forward.antt =====
-- broker_api.cpp, the inner loops of BrokerImpl::start_loop: a message goes through part by part.
use zeromq_agent.Base.{
  ℕ, zero, suc, ◌<◌, ◌≡◌, refl, Bool, true, false, some, [], List, ◌∷◌, ◌++◌, inl, inr, Bool-cases,
  arith, if◌then◌else◌,
}
use zeromq_agent.Base.Int.{ℤ, is_nonzero, is_negative}
use zeromq_agent.Memory.{Ptr, Bytes, read}
use zeromq_agent.Memory.Laws.{read-zero}
use zeromq_agent.Zmq.{
  Zmq, Event, Flags, no_flags, zmq_sndmore, Machine, Outcome, done, fault, blocked, and_then, pure,
}
use zeromq_agent.Zmq.Laws.{ManagesBuffers, EndsMessages}
use zeromq_agent.Broker.{forward_part, forward}

module _ {z : Zmq} where
  -- The calls for one part with the bytes `xs`, the latest first.
  abbrev pub part_calls :
      Ptr → Ptr → z.Msg → Bytes → Flags → ℤ → ℤ → ℤ → z.Msg → z.Msg → ℤ → List (Event z)
  part_calls from to message xs flags made received sent empty rest closed =
      Event.msg_closed rest closed
      ∷ Event.msg_sent to message (some xs) flags sent
      ∷ Event.msg_received from no_flags message (some xs) received
      ∷ Event.msg_made empty made
      ∷ []

  -- From the first trace to the second the parts of one message are received on `from` and sent to
  -- `to`, each before the next is received: with ZMQ_SNDMORE where more parts follow, and with no
  -- flag for the last. What is sent is what was received, which is empty if nothing was.
  pub data Relays (from to : Ptr) : List z.Msg → List (Event z) → List (Event z) → Type 0 where
    last :
        {before : List (Event z)} (message empty rest : z.Msg) (xs : Bytes) (a b c d : ℤ)
        → is_nonzero (z.zmq_msg_more message) ≡ false
        → (is_negative b ≡ true → xs ≡ [])
        → Relays from to
            (message ∷ [])
            before
            (part_calls from to message xs no_flags a b c empty rest d ++ before)
    more :
        {messages : List z.Msg} {before after : List (Event z)} (message empty rest : z.Msg)
        (xs : Bytes) (a b c d : ℤ)
        → is_nonzero (z.zmq_msg_more message) ≡ true
        → (is_negative b ≡ true → xs ≡ [])
        → Relays from to messages
            (part_calls from to message xs zmq_sndmore a b c empty rest d ++ before)
            after
        → Relays from to (message ∷ messages) before after

  abbrev pub Forwards : Ptr → Ptr → Machine z → Outcome z (Unit {0}) → Type 0
  Forwards from to m (done _ m') =
      (messages : List z.Msg) × Relays from to messages m.trace m'.trace
  Forwards from to m (fault _ _) = ⊥
  Forwards from to m (blocked _) = ⊥

  module _ (laws : ManagesBuffers z) (ends : EndsMessages z) where
    -- How one part goes through.
    abbrev pub Part : Ptr → Ptr → Machine z → Outcome z Bool → Type 0
    Part from to m (done again m') =
        (message : z.Msg) × (empty : z.Msg) × (rest : z.Msg) × (xs : Bytes) × (a : ℤ) × (b : ℤ)
        × (c : ℤ) × (d : ℤ) × (is_nonzero (z.zmq_msg_more message) ≡ again)
        × (is_negative b ≡ true → xs ≡ [])
        × (m'.trace
            ≡ part_calls from to message xs (if again then zmq_sndmore else no_flags) a b c empty
                rest d
              ++ m.trace)
        × (again ≡ true → ends.parts from m'.world < ends.parts from m.world)
    Part from to m (fault _ _) = ⊥
    Part from to m (blocked _) = ⊥

    -- The text of a received part can be read. It is empty if nothing was received.
    readable :
        (from : Ptr) (m : Machine z)
        → let (_, empty, w) = z.zmq_msg_init m.world in
          let (n, message, _, h) = z.zmq_msg_recv empty from no_flags w m.heap in
          (xs : Bytes) × (read (z.zmq_msg_data message) (z.zmq_msg_size message) h ≡ some xs)
          × (is_negative n ≡ true → xs ≡ [])
    readable from m =
        let (_, empty, w) = z.zmq_msg_init m.world in
        let (n, message, _, h) = z.zmq_msg_recv empty from no_flags w m.heap in
        elim (Bool-cases (is_negative n)) [
          | inl minus ↦ (
            [],
            rw (laws.stays_empty empty from no_flags w m.heap minus (laws.starts_empty m.world))
                (read-zero _ h),
            λ _. refl,
          )
          | inr plus ↦
              let (xs, there) = laws.delivers empty from no_flags w m.heap plus in
              (xs, there, λ minus. absurd (ground arith))
        ]

    pub forward_part-Part :
        (from to : Ptr) (m : Machine z) → Part from to m (forward_part from to m)
    unfolding forward_part
    forward_part-Part from to m =
        let (_, empty, w) = z.zmq_msg_init m.world in
        let (_, message, w', h) = z.zmq_msg_recv empty from no_flags w m.heap in
        let (xs, there, nothing) = readable from m in
        let flags = if is_nonzero (z.zmq_msg_more message) then zmq_sndmore else no_flags in
        let (_, rest, w'') = z.zmq_msg_send message to flags w' h in
        rw there (
          rw there (
            message,
            empty,
            rest,
            xs,
            _,
            _,
            _,
            _,
            refl,
            nothing,
            refl,
            λ e. omega (
              arith,
              ends.made from m.world,
              ends.received empty from no_flags w m.heap e,
              ends.sent message to flags w' h from,
              ends.closed rest w'' h from,
            ),
          ))

    -- The rest of the loop after one part.
    forward_rest :
        (k : ℕ) (from to : Ptr) (m : Machine z) (o : Outcome z Bool)
        → Part from to m o
        → ends.parts from m.world < suc k
        → ((m' : Machine z)
            → ends.parts from m'.world < k
            → Forwards from to m' (forward k from to m'))
        → Forwards from to m
            (and_then o (λ again. elim again [ true ↦ forward k from to | false ↦ pure tt ]))
    forward_rest k from to m (done true m')
          (message, empty, rest, xs, a, b, c, d, e, none_came, t, lower) fuel loop =
        go (forward k from to m') (loop m' (omega (arith, lower refl)))
      where
        go : (o : Outcome z (Unit {0})) → Forwards from to m' o → Forwards from to m o
        go (done _ m'') (messages, r) =
            (message ∷ messages, more message empty rest xs a b c d e none_came (rw t at r))
        go (fault _ _) h = h
        go (blocked _) h = h
    forward_rest k from to m (done false m')
          (message, empty, rest, xs, a, b, c, d, e, none_came, t, _) fuel loop =
        (message ∷ [], rw t (last message empty rest xs a b c d e none_came))
    forward_rest k from to m (fault _ _) h fuel loop = h
    forward_rest k from to m (blocked _) h fuel loop = h

    -- Where the library manages buffers and ends messages as its manual says, an inner loop with more
    -- rounds than the message has parts ends without a fault. It has received the parts of one
    -- message, up to the first that is not followed by more, and sent each before the next was
    -- received, in order, with ZMQ_SNDMORE exactly where more follow. A part goes out with the bytes
    -- that came in; where a call to receive failed, an empty part is sent in its place.
    pub forward-Forwards :
        (fuel : ℕ) (from to : Ptr) (m : Machine z)
        → ends.parts from m.world < fuel
        → Forwards from to m (forward fuel from to m)
    unfolding forward
    forward-Forwards zero from to m h = absurd (omega arith)
    forward-Forwards (suc k) from to m h =
        forward_rest k from to m (forward_part from to m) (forward_part-Part from to m) h
          (λ m'. forward-Forwards k from to m')

-- ===== src/Broker/Balance.antt =====
-- broker_api.cpp, BrokerImpl::start_loop: no part of a message is lost, repeated or moved.
use zeromq_agent.Base.{
  ℕ, ◌≡◌, ◌≢◌, refl, sym, ap, subst, Bool, true, false, some, List, ◌∷◌, ◌++◌, ◌==◌, map, arith,
}
use zeromq_agent.Base.Int.{ℤ, is_nonzero}
use zeromq_agent.Memory.{Ptr, Bytes}
use zeromq_agent.Zmq.{
  Zmq, Event, Flags, no_flags, zmq_sndmore, Machine, Outcome, done, fault, blocked,
}
use zeromq_agent.Zmq.Parts.{framed, received_on, sent_on, same}
use zeromq_agent.Zmq.Laws.{ManagesBuffers, EndsMessages}
use zeromq_agent.Broker.{BrokerImpl, start_loop}
use zeromq_agent.Broker.Forward.{Relays, last, more, part_calls}
use zeromq_agent.Broker.Loop.{Turn, Rounds, over, round, Serves, start_loop-Serves}

other : (p q : Ptr) → p ≢ q → (p == q) ≡ false
other p q ne = ground arith

module _ {z : Zmq} where
  abbrev pub Balanced : Ptr → Ptr → List (Event z) → Type 0
  Balanced front back trace =
      (sent_on back trace ≡ map framed (received_on front trace))
      × (sent_on front trace ≡ map framed (received_on back trace))

  part-Balanced :
      (from to : Ptr) (message : z.Msg) (xs : Bytes) (flags : Flags) (a b c : ℤ)
      (empty rest : z.Msg) (d : ℤ) (trace : List (Event z))
      → from ≢ to
      → framed (some xs, is_nonzero (z.zmq_msg_more message)) ≡ (some xs, flags)
      → Balanced from to trace
      → Balanced from to (part_calls from to message xs flags a b c empty rest d ++ trace)
  part-Balanced from to message xs flags a b c empty rest d trace ne frame (there, back) =
      rw (same to) (
        rw (same from) (
          rw (other from to ne) (
            rw (other to from (λ e. ne (sym e)))
              (rw frame (ap (λ parts. (some xs, flags) ∷ parts) there, back)))))

  Relays-Balanced :
      (from to : Ptr) {messages : List z.Msg} {before after : List (Event z)}
      → from ≢ to
      → Relays from to messages before after
      → Balanced from to before
      → Balanced from to after
  Relays-Balanced from to ne (last {before} message empty rest xs a b c d e _) h =
      part-Balanced from to message xs no_flags a b c empty rest d before ne (rw e refl) h
  Relays-Balanced from to ne (more {before = before} message empty rest xs a b c d e _ later) h =
      Relays-Balanced from to ne later
        (part-Balanced from to message xs zmq_sndmore a b c empty rest d before ne (rw e refl) h)

  Turn-Balanced :
      (ready : Bool) (from to : Ptr) (before after : List (Event z))
      → from ≢ to
      → Turn ready from to before after
      → Balanced from to before
      → Balanced from to after
  Turn-Balanced true from to before after ne (_, relays) h = Relays-Balanced from to ne relays h
  Turn-Balanced false from to before after ne e h = subst (Balanced from to) (sym e) h

  swapped :
      (front back : Ptr) (trace : List (Event z))
      → Balanced front back trace
      → Balanced back front trace
  swapped front back trace (there, back_again) = (back_again, there)

  Rounds-Balanced :
      (front back : Ptr) {n : ℕ} {before after : List (Event z)}
      → front ≢ back
      → Rounds front back n before after
      → Balanced front back before
      → Balanced front back after
  Rounds-Balanced front back ne over h = h
  Rounds-Balanced front back ne (round {before = before} ready middle after first second later) h =
      Rounds-Balanced front back ne later (
        swapped back front after (
          Turn-Balanced (ready 1) back front middle after (λ e. ne (sym e)) second
            (swapped front back middle (Turn-Balanced (ready 0) front back _ middle ne first h))))

  abbrev pub StaysBalanced : Ptr → Ptr → Outcome z (Unit {0}) → Type 0
  StaysBalanced front back (done _ m') = Balanced front back m'.trace
  StaysBalanced front back (fault _ _) = ⊥
  StaysBalanced front back (blocked _) = ⊥

  -- On a broker with two different sockets, and where the library manages buffers and ends messages as
  -- its manual says: if the parts that were given to `zmq_msg_send` on each socket are those that
  -- `zmq_msg_recv` left on the other, byte by byte, in the same order and each with the flag that says
  -- whether more parts follow, then this is so after any number of rounds of `start_loop`, which end without a fault.
  pub start_loop-StaysBalanced :
      (laws : ManagesBuffers z) (ends : EndsMessages z) (rounds : ℕ) (b : BrokerImpl)
      (front back : Ptr) (m : Machine z)
      → b.m_frontend ≡ some front
      → b.m_backend ≡ some back
      → front ≢ back
      → Balanced front back m.trace
      → StaysBalanced front back (start_loop ends.bound rounds b m)
  start_loop-StaysBalanced laws ends rounds b front back m hf hb ne h =
      balanced (start_loop ends.bound rounds b m)
        (start_loop-Serves laws ends rounds b front back m hf hb)
    where
      balanced :
          (o : Outcome z (Unit {0})) → Serves front back rounds m o → StaysBalanced front back o
      balanced (done _ m') served = Rounds-Balanced front back ne served h
      balanced (fault _ _) served = served
      balanced (blocked _) served = served

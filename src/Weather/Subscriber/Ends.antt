-- ===== src/Weather/Subscriber/Ends.antt =====
-- wuclient.c, main: how the program ends.
use zeromq_agent.Base.{
  ℕ, zero, suc, ◌≡◌, refl, sym, ◌∙◌, ap, subst, ◌⊎◌, Bool-cases, inl, inr, true, false, Option,
  none, some, List, [], ◌∷◌, length, length-replicate,
}
use zeromq_agent.Base.Int.{ℤ, pos, negsuc, is_nonzero}
use zeromq_agent.Memory.{Ptr}
use zeromq_agent.Zmq.{
  Zmq, zmq_sub, zmq_subscribe, Event, Machine, Fault, Outcome, done, fault, blocked, and_then,
}
use zeromq_agent.Weather.{num_of_packets, test_size}
use zeromq_agent.Weather.Timing.{Statistics, at_start}
use zeromq_agent.Weather.Timing.Summary.{times, Measures, add_all-Measures}
use zeromq_agent.Weather.Subscriber.{Clock, reading, end_point, new_buffer, finish, client_main}
use zeromq_agent.Weather.Subscriber.Packets.{
  Truncates, Failed, after, Heard, StopsAt, PacketsEnd, packets-PacketsEnd,
}

pub is_zero : (rc : ℤ) → is_nonzero rc ≡ false → rc ≡ pos 0
is_zero (pos zero) h = refl
is_zero (pos (suc _)) h = cc
is_zero (negsuc _) h = cc

pub length-new_buffer : (room : ℕ) → length (new_buffer room) ≡ room
unfolding new_buffer
length-new_buffer room = length-replicate room none

-- The times of the rounds, by the clock alone.
abbrev pub clock_times : Clock → ℕ → List ℕ
clock_times clock n = times (λ k. reading clock k (pos 0)) n 0

module _ {z : Zmq} where
  -- The calls before the loop, of which these were the results.
  abbrev pub set_up : Ptr → Ptr → List (Event z) → List (Event z)
  set_up context subscriber trace =
      Event.option_set subscriber zmq_subscribe [] (pos 0)
      ∷ Event.connected subscriber end_point (pos 0)
      ∷ Event.socket_made context zmq_sub subscriber
      ∷ Event.ctx_new context
      ∷ trace

  -- The latest call failed.
  abbrev pub Refused : List (Event z) → Type 0
  Refused (Event.connected _ url rc ∷ _) = (url ≡ end_point) × (is_nonzero rc ≡ true)
  Refused (Event.option_set _ _ filter rc ∷ _) = (filter ≡ []) × (is_nonzero rc ≡ true)
  Refused _ = ⊥

  abbrev pub Collected : Clock → ℕ → List (Event z) → Statistics → List (Event z) → Type 0
  Collected clock n before s (Event.ctx_destroyed ctx _ ∷ Event.closed sub _ ∷ trace) =
      Heard sub n (set_up ctx sub before) trace × Measures (clock_times clock n) s
  Collected clock n before s _ = ⊥

  abbrev pub ClientStops : Fault → List (Event z) → Type 0
  ClientStops f trace = StopsAt f trace ⊎ ((f ≡ Fault.assertion) × Refused trace)

  abbrev pub ClientEnds : Clock → ℕ → Machine z → Outcome z (ℤ × Option Statistics) → Type 0
  ClientEnds clock n m (done (code, some s) m') =
      (code ≡ pos 0) × Collected clock n m.trace s m'.trace
  ClientEnds clock n m (done (code, none) m') = (code ≡ negsuc 0) × Failed m'.trace
  ClientEnds clock n m (fault f m') = ClientStops f m'.trace
  ClientEnds clock n m (blocked _) = ⊥

  finish-ClientEnds :
      (clock : Clock) (n : ℕ) (context sub : Ptr) (m0 m : Machine z)
      (o : Outcome z (Option Statistics))
      → m.trace ≡ set_up context sub m0.trace
      → PacketsEnd clock n 0 sub at_start m o
      → ClientEnds clock n m0 (and_then o (finish context sub))
  finish-ClientEnds clock n context sub m0 m (done (some s) m') e ((got, len, good, there), stats) =
      (
        refl,
        (
          (got, len, good, there ∙ ap (after sub got) e),
          subst (Measures (clock_times clock n)) (sym stats)
              (add_all-Measures (clock_times clock n)),
        ),
      )
  finish-ClientEnds clock n context sub m0 m (done none m') e h = (refl, h)
  finish-ClientEnds clock n context sub m0 m (fault f m') e h = inl h
  finish-ClientEnds clock n context sub m0 m (blocked m') e h = h

  -- The program ends, and does so in one of four ways. It returns 0 with a message received
  -- for each of the 1000 packets, the socket and the context closed after them and statistics that
  -- measure all their times; or it exits with -1 right after a `zmq_recv` that failed; or the assertion
  -- fails right after `zmq_connect` or `zmq_setsockopt` failed; or the output of the text reads a byte
  -- that has no value or lies past the buffer, and then the latest message had no 0 in it. The library
  -- must not write past the buffer.
  pub client_main-ClientEnds :
      (clock : Clock) (m : Machine z)
      → Truncates z
      → ClientEnds clock num_of_packets m (client_main clock m)
  unfolding client_main
  client_main-ClientEnds clock m truncates =
      let (context, w1) = z.zmq_ctx_new m.world in
      let (sub, w2) = z.zmq_socket context zmq_sub w1 in
      let (rc, w3) = z.zmq_connect sub end_point w2 in
      let (rc', w4) = z.zmq_setsockopt sub zmq_subscribe [] w3 in
      let ready = record m {
        world = w4;
        trace =
            Event.option_set sub zmq_subscribe [] rc'
            ∷ Event.connected sub end_point rc
            ∷ Event.socket_made context zmq_sub sub
            ∷ Event.ctx_new context
            ∷ m.trace;
      } in
      elim (Bool-cases (is_nonzero rc)) [
        | inl bad ↦ rw bad (inr (refl, (refl, bad)))
        | inr good ↦ rw good (elim (Bool-cases (is_nonzero rc')) [
          | inl bad ↦ rw bad (inr (refl, (refl, bad)))
          | inr good' ↦ rw good' (
              finish-ClientEnds clock num_of_packets context sub m ready _
                (rw (is_zero rc good) (rw (is_zero rc' good') refl))
                (packets-PacketsEnd clock num_of_packets 0 sub (new_buffer test_size) at_start ready
                  truncates (length-new_buffer test_size)))
        ])
      ]

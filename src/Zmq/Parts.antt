-- ===== src/Zmq/Parts.antt =====
-- Messages read off the record of the calls: the parts that were received and sent on a socket.
use zeromq_agent.Base.{
  ◌≡◌, refl, ap, Bool, true, false, Option, some, List, [], ◌∷◌, ◌==◌, map, if◌then◌else◌, arith,
}
use zeromq_agent.Base.Int.{is_nonzero, is_negative}
use zeromq_agent.Memory.{Ptr, Bytes}
use zeromq_agent.Zmq.{
  Zmq, Event, Flags, no_flags, zmq_sndmore, zmq_dontwait, Outcome, done, fault, blocked,
}

-- The bytes of a part, if they can be read, and whether more parts follow.
abbrev pub Part : Type 0
Part = Option Bytes × Bool

-- A part with the flag that keeps the message together.
abbrev pub framed : Part → Option Bytes × Flags
framed (xs, follows) = (xs, if follows then zmq_sndmore else no_flags)

-- The last parts of the messages.
abbrev pub last_parts : List Part → List (Option Bytes)
last_parts [] = []
last_parts ((xs, false) ∷ parts) = xs ∷ last_parts parts
last_parts ((_, true) ∷ parts) = last_parts parts

abbrev pub last_sent : List (Option Bytes × Flags) → List (Option Bytes)
last_sent [] = []
last_sent ((xs, no_flags) ∷ parts) = xs ∷ last_sent parts
last_sent ((xs, zmq_dontwait) ∷ parts) = xs ∷ last_sent parts
last_sent ((_, zmq_sndmore) ∷ parts) = last_sent parts

pub last_sent-framed : (parts : List Part) → last_sent (map framed parts) ≡ last_parts parts
last_sent-framed [] = refl
last_sent-framed ((xs, false) ∷ parts) = ap (λ rest. xs ∷ rest) (last_sent-framed parts)
last_sent-framed ((_, true) ∷ parts) = last_sent-framed parts

pub same : (p : Ptr) → (p == p) ≡ true
same p = ground arith

module _ {z : Zmq} where
  -- The parts that the calls of `zmq_msg_recv` on a socket left in their messages, the latest first.
  abbrev pub received_on : Ptr → List (Event z) → List Part
  received_on s [] = []
  received_on s (Event.msg_received p _ message xs _ ∷ trace) =
      let rest = received_on s trace in
      if p == s then (xs, is_nonzero (z.zmq_msg_more message)) ∷ rest else rest
  received_on s (_ ∷ trace) = received_on s trace

  -- Those of the calls that did not fail.
  abbrev pub arrived_on : Ptr → List (Event z) → List Part
  arrived_on s [] = []
  arrived_on s (Event.msg_received p _ message xs n ∷ trace) =
      let rest = arrived_on s trace in
      if is_negative n
      then rest
      else if p == s
      then (xs, is_nonzero (z.zmq_msg_more message)) ∷ rest
      else rest
  arrived_on s (_ ∷ trace) = arrived_on s trace

  -- The parts that were sent on a socket, with their flags.
  abbrev pub sent_on : Ptr → List (Event z) → List (Option Bytes × Flags)
  sent_on s [] = []
  sent_on s (Event.msg_sent p _ xs flags _ ∷ trace) =
      let rest = sent_on s trace in if p == s then (xs, flags) ∷ rest else rest
  sent_on s (Event.sent p xs flags _ ∷ trace) =
      let rest = sent_on s trace in if p == s then (some xs, flags) ∷ rest else rest
  sent_on s (_ ∷ trace) = sent_on s trace

  -- The calls that were made, however the run ended.
  abbrev pub calls_of : {A : Type 0} → Outcome z A → List (Event z)
  calls_of (done _ m) = m.trace
  calls_of (fault _ m) = m.trace
  calls_of (blocked m) = m.trace

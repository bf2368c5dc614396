-- ===== src/Agent/Attempts.antt =====
-- zeromq_agent.cpp, req_rep_client: in which order it sends and receives, also where a receive brings
-- no message.
use zeromq_agent.Base.{Bool, true, false, ◌≡◌, ◌⊎◌, some, Option, List, [], ◌∷◌, if◌then◌else◌}
use zeromq_agent.Base.Int.{is_nonzero, is_negative}
use zeromq_agent.Zmq.{Zmq, Event, Machine, Outcome}
use zeromq_agent.Message
use zeromq_agent.Agent.Lockstep.{Turn, turn_after, after_send, after_receive, Post}

module _ {z : Zmq} where
  -- A call with which a `receive` fails.
  abbrev pub missed : Event z → Bool
  missed (Event.msg_made _ rc) = is_nonzero rc
  missed (Event.msg_received _ _ _ _ n) = is_negative n
  missed _ = false

  unfoldable pub misses : List (Event z) → Bool
  misses [] = false
  misses (call ∷ calls) = if missed call then true else misses calls

  -- The turn after the calls, the latest first, where each `receive` takes a turn with its
  -- `zmq_msg_init`, whether it brings a message or not; `none` once the order was broken.
  unfoldable pub tries_after : Turn → List (Event z) → Option Turn
  tries_after t [] = some t
  tries_after t (Event.sent _ _ _ _ ∷ calls) = after_send (tries_after t calls)
  tries_after t (Event.msg_sent _ _ _ _ _ ∷ calls) = after_send (tries_after t calls)
  tries_after t (Event.msg_made _ _ ∷ calls) = after_receive (tries_after t calls)
  tries_after t (_ ∷ calls) = tries_after t calls

module _ {z : Zmq} (t : Turn) where
  -- Sending and trying to receive go by turns; and sending and receiving do, unless a receive failed.
  abbrev pub Alternates : Turn → List (Event z) → Type 0
  Alternates u trace =
      (tries_after t trace ≡ some u) × ((misses trace ≡ true) ⊎ (turn_after t trace ≡ some u))

  -- As far as the run came before a fault.
  abbrev pub Broken : Machine z → Type 0
  Broken m =
      ((u : Turn) × (tries_after t m.trace ≡ some u))
      × ((misses m.trace ≡ true) ⊎ ((u : Turn) × (turn_after t m.trace ≡ some u)))

  abbrev pub Keeping : {A : Type 0} → Turn → Outcome z A → Type 0
  Keeping u = Post (λ _ m'. Alternates u m'.trace) Broken

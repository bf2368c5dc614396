-- ===== src/Zmq/Arrivals.antt =====
-- The calls of libzmq in the `receive` of ClientImpl and ServerImpl: whether a message comes in.
use zeromq_agent.Base.{◌≡◌, true, false, ◌∷◌}
use zeromq_agent.Base.Int.{ℤ, is_nonzero, is_negative}
use zeromq_agent.Memory.{Ptr}
use zeromq_agent.Zmq.{Zmq, Event, no_flags, Machine}
use zeromq_agent.Zmq.Calls.{content}

module _ {z : Zmq} where
  -- The message that the library hands to the first `zmq_msg_recv` of a `receive`.
  abbrev pub incoming : Ptr → Machine z → z.Msg
  incoming s m =
      let (_, empty, w) = z.zmq_msg_init m.world in (z.zmq_msg_recv empty s no_flags w m.heap).1

  -- The state of the library, the memory and the calls after the `zmq_msg_init` of a `receive`, and
  -- after its `zmq_msg_recv`.
  abbrev pub began : Machine z → Machine z
  began m =
      let (error, empty, w) = z.zmq_msg_init m.world in
      record m { world = w; trace = Event.msg_made empty error ∷ m.trace }

  abbrev pub asked : Ptr → Machine z → Machine z
  asked s m =
      let (_, empty, w) = z.zmq_msg_init m.world in
      let (n, msg, w', h) = z.zmq_msg_recv empty s no_flags w m.heap in
      record m {
        world = w';
        heap = h;
        trace = Event.msg_received s no_flags msg (content z msg h) n ∷ (began m).trace;
      }

  -- The results of the two calls.
  abbrev pub init_result : Machine z → ℤ
  init_result m = (z.zmq_msg_init m.world).0

  abbrev pub recv_result : Ptr → Machine z → ℤ
  recv_result s m =
      let (_, empty, w) = z.zmq_msg_init m.world in (z.zmq_msg_recv empty s no_flags w m.heap).0

  -- The call of `receive` that fails: `zmq_msg_init`, and then nothing is received, or
  -- `zmq_msg_recv`. Nothing is called after it.
  pub data Failed (s : Ptr) (m : Machine z) : Machine z → Type 0 where
    no_init : is_nonzero (init_result m) ≡ true → Failed s m (began m)
    no_recv :
        is_nonzero (init_result m) ≡ false
        → is_negative (recv_result s m) ≡ true
        → Failed s m (asked s m)

  -- A message came in.
  abbrev pub Arrived : Ptr → Machine z → Type 0
  Arrived s m = (is_nonzero (init_result m) ≡ false) × (is_negative (recv_result s m) ≡ false)

-- ===== src/Async/Keeps.antt =====
-- What the handlers of the asynchronous methods leave as it is, with callbacks that do.
use zeromq_agent.Base.{String, Option, none, some, ◌∷◌, ◌==◌, inl, inr, Bool-cases}
use zeromq_agent.Base.Int.{to_int, is_negative}
use zeromq_agent.Zmq.{Zmq, Event, Machine, M}
use zeromq_agent.Zmq.Calls.{value_of}
use zeromq_agent.Message
use zeromq_agent.Message.{SendMessage, IMessage, Status, borrow}
use zeromq_agent.Async.{
  Endpoint, ReceiveCallback, SendCallback, send_handler, receive_handler, hand_over, closed_after,
  eagain,
}
use zeromq_agent.Async.Receive.{ready, received, at_call}
use zeromq_agent.Agent.Returns.{Lasts, Lasts-bind, Lasts-after}

module _ {z : Zmq} {I : Type 0} (P : I → Type 0) where
  -- A callback, if it is there, keeps what holds of the client or server.
  abbrev pub Preserves : Option (ReceiveCallback z I) → Type 0
  Preserves none = Unit
  Preserves (some call) =
      (message : SendMessage) (c : I) (m : Machine z)
      → P c
      → Lasts (λ (_, c'). P c') (call message c m)

  closed_after-Lasts :
      (msg : z.Msg) (message : SendMessage) (c : I) (m : Machine z)
      → P c
      → Lasts P (closed_after msg message c m)
  unfolding closed_after
  closed_after-Lasts msg message c m h =
      let (rc, w, heap) = z.zmq_msg_close msg m.world m.heap in
      let closed = record m { world = w; heap = heap; trace = Event.msg_closed msg rc ∷ m.trace } in
      Lasts-after P (Message.destroy message closed) _ λ _ m'. h

  hand_over-Lasts :
      (cbk : Option (ReceiveCallback z I)) (msg : z.Msg) (c : I) (m : Machine z)
      → Preserves cbk
      → P c
      → Lasts P (hand_over cbk msg c m)
  unfolding hand_over
  hand_over-Lasts none msg c m keeps h = tt
  hand_over-Lasts (some call) msg c m keeps h =
      let message = borrow (z.zmq_msg_data msg) (to_int (z.zmq_msg_size msg)) in
      Lasts-bind (λ (_, c'). P c') P (call message c m) _ (keeps message c m h)
        λ (message', c') h' m1. closed_after-Lasts msg message' c' m1 h'

  pub receive_handler-Lasts :
      (endpoint : Endpoint I) (cbk : Option (ReceiveCallback z I)) (c : I) (m : Machine z)
      → ((text : String) (c : I) → P c → P (endpoint.set_str_error text c))
      → Preserves cbk
      → P c
      → Lasts P (receive_handler endpoint cbk c m)
  unfolding receive_handler
  receive_handler-Lasts endpoint cbk c m texts keeps h =
      Lasts-after P (value_of (endpoint.m_socket c) m) _ λ s m1. elim (Bool-cases (ready s m1)) [
        | inr idle ↦ rw idle h
        | inl there ↦ rw there (elim (Bool-cases (is_negative (received s m1).0)) [
          | inr plus ↦ rw plus (hand_over-Lasts cbk (received s m1).1 c (at_call s m1) keeps h)
          | inl minus ↦ rw minus (elim (Bool-cases (z.errno (at_call s m1).world == eagain)) [
            | inl again ↦ rw again h
            | inr other ↦ rw other (texts _ c h)
          ])
        ])
      ]

  -- A callback of the other kind.
  abbrev pub PreservesSent : Option (SendCallback z I) → Type 0
  PreservesSent none = Unit
  PreservesSent (some call) =
      (status : Status) (c : I) (m : Machine z) → P c → Lasts P (call status c m)

  pub send_handler-Lasts :
      (worker : I → IMessage → M z (Status × I)) (message : Option IMessage)
      (cbk : Option (SendCallback z I)) (c : I) (m : Machine z)
      → ((message : IMessage) (c : I) (m : Machine z)
          → P c
          → Lasts (λ (_, c'). P c') (worker c message m))
      → PreservesSent cbk
      → P c
      → Lasts P (send_handler worker message cbk c m)
  unfolding send_handler
  send_handler-Lasts worker none cbk c m works keeps h = tt
  send_handler-Lasts worker (some message) none c m works keeps h =
      Lasts-after P (worker c message m) _ λ _ m'. tt
  send_handler-Lasts worker (some message) (some call) c m works keeps h =
      Lasts-bind (λ (_, c'). P c') P (worker c message m) _ (works message c m h)
        λ (status, c') h' m'. keeps status c' m' h'

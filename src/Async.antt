-- ===== src/Async.antt =====
-- The handlers that the asynchronous methods of ClientImpl and ServerImpl post to their strand. The
-- worker runs them later, so that an object that a handler holds by reference may have ended by then:
-- a reference is `none` where its object has ended.
pub mod Receive
pub mod Keeps
pub mod Send
pub mod Queue
mod Tests
use zeromq_agent.Base.{ℕ, Bool, String, Option, none, some, false, [], ◌∷◌, ◌==◌, if◌then◌else◌}
use zeromq_agent.Base.Int.{to_int, is_negative}
use zeromq_agent.Memory.{Ptr}
use zeromq_agent.Zmq.{Zmq, Fault, zmq_dontwait, M, done, pure, ◌>>=◌, ◌>>◌}
use zeromq_agent.Zmq.Calls.{
  or_fault, value_of, last_error, zmq_msg_init, zmq_poll, zmq_msg_recv, zmq_msg_close,
}
use zeromq_agent.Message
use zeromq_agent.Message.{SendMessage, IMessage, Status, borrow}

-- The fields of a client or a server that the handlers use.
pub record Endpoint (I : Type 0) : Type 0 where
  pub m_socket : I → Option Ptr
  pub set_str_error : String → I → I

-- EAGAIN of errno.h
abbrev pub eagain : ℕ
eagain = 11

-- `finish_receive_cbk_type` and `finish_send_cbk_type`. A callback can change the message, and may
-- hold a reference to the client or server.
abbrev pub ReceiveCallback : Zmq → Type 0 → Type 0
ReceiveCallback z I = SendMessage → I → M z (SendMessage × I)

abbrev pub SendCallback : Zmq → Type 0 → Type 0
SendCallback z I = Status → I → M z I

-- A reference to an object that may have ended.
abbrev pub reference : {A : Type 0} → Bool → A → Option A
reference alive a = if alive then some a else none

-- The use of an object by a reference.
abbrev pub referred : {z : Zmq} {A : Type 0} → Option A → M z A
referred = or_fault Fault.bad_access

module _ {z : Zmq} {I : Type 0} where
  -- The handler of `async_send` and of `async_publish`.
  unfoldable pub send_handler :
      (I → IMessage → M z (Status × I)) → Option IMessage → Option (SendCallback z I) → I → M z I
  send_handler worker message cbk c = do
    message' ← referred message
    (status, c') ← worker c message'
    call ← referred cbk
    call status c'

  -- The callback has returned: the library's message is closed and the handler's ends.
  unfoldable pub closed_after : z.Msg → SendMessage → I → M z I
  closed_after msg message c = do _ ← zmq_msg_close msg; Message.destroy message; pure c

  -- After a `zmq_msg_recv` that succeeded.
  unfoldable pub hand_over : Option (ReceiveCallback z I) → z.Msg → I → M z I
  unfolding closed_after
  hand_over cbk msg c = do
    let message = borrow (z.zmq_msg_data msg) (to_int (z.zmq_msg_size msg))
    call ← referred cbk
    (message', c') ← call message c
    closed_after msg message' c'

  module _ (endpoint : Endpoint I) where
    -- After a `zmq_msg_recv` that failed.
    abbrev pub note_error : I → M z I
    note_error c = do
      error ← λ m. done (z.errno m.world) m
      text ← last_error
      pure (if error == eagain then c else endpoint.set_str_error text c)

    -- The handler of `async_receive`.
    unfoldable pub receive_handler : Option (ReceiveCallback z I) → I → M z I
    unfolding hand_over
    receive_handler cbk c = do
      s ← value_of (endpoint.m_socket c)
      (_, empty) ← zmq_msg_init
      revents ← zmq_poll (s ∷ []) (λ _. false)
      if revents 0
          then (do
            (received, msg) ← zmq_msg_recv empty s zmq_dontwait
            if is_negative received then note_error c else hand_over cbk msg c)
          else pure c

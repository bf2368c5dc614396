-- ===== src/Client.antt =====
-- client_api.cpp, class ClientImpl: its state and its blocking methods.
pub mod Connect
pub mod Send
pub mod Dangling
pub mod Receive
pub mod Lifetime
pub mod Async
pub mod Queue
pub mod Public
pub mod Api
pub mod Restored
mod Tests
use zeromq_agent.Base.{Bool, true, false, String, Option, none, some, [], ◌==◌, if◌then◌else◌}
use zeromq_agent.Base.Int.{ℤ, is_nonzero, is_negative, to_int, to_size}
use zeromq_agent.Memory.{Ptr, null}
use zeromq_agent.Zmq.{
  Zmq, Fault, fail_with, SocketKind, zmq_pub, zmq_sub, zmq_req, zmq_rep, zmq_subscribe, Flags,
  no_flags, M, Outcome, blocked, pure, ◌>>=◌, ◌>>◌,
}
use zeromq_agent.Zmq.Calls.{
  last_error, zmq_ctx_new, zmq_ctx_destroy, zmq_socket, zmq_close, zmq_connect, zmq_setsockopt,
  zmq_msg_init, zmq_msg_init_data, zmq_msg_recv, zmq_msg_send, zmq_msg_close, load, value_of,
}
use zeromq_agent.Worker.{Worker, free, in_handler, join}
use zeromq_agent.Owned.{returns, not_implemented}
use zeromq_agent.Message.{
  ISession, ErrorType, ok, not_ok, SocketType, request, reply, publish, subscribe, Status,
  new_status, IMessage, send_message, get_data, get_size, set_data, set_size, empty_message,
  delete_message, Received, no_message, own_message,
}

-- `m_socket` is `none` until `connect` gives it a value.
pub record ClientImpl : Type 0 where
  pub m_context : Ptr
  pub m_socket : Option Ptr
  pub m_type : SocketType
  pub m_message : IMessage
  pub m_running : Bool
  pub m_worker : Worker
  pub m_str_error : String

-- The first statements of the worker thread.
unfoldable pub worker_starts : ClientImpl → ClientImpl
worker_starts c = record c { m_running = true }

-- The worker thread is in a handler that does not return.
unfoldable pub worker_waits : ClientImpl → ClientImpl
worker_waits c = record c { m_worker = in_handler }

-- The `switch` of `create_socket`.
abbrev pub socket_kind : SocketType → SocketKind
socket_kind publish = zmq_pub
socket_kind subscribe = zmq_sub
socket_kind request = zmq_req
socket_kind reply = zmq_rep

abbrev pub is_subscribe : SocketType → Bool
is_subscribe subscribe = true
is_subscribe _ = false

module _ {z : Zmq} where
  -- `ClientImpl (SocketType)`
  unfoldable pub create : SocketType → M z ClientImpl
  create type = do
    context ← zmq_ctx_new
    pure (record {
      m_context = context;
      m_socket = none;
      m_type = type;
      m_message = send_message empty_message;
      m_running = false;
      m_worker = free;
      m_str_error = "";
    })

  abbrev pub create_socket : ClientImpl → M z Ptr
  create_socket c = zmq_socket c.m_context (socket_kind c.m_type)

  -- The end of every branch of `connect` that fails.
  abbrev pub refuse : ClientImpl → M z (ErrorType × ClientImpl)
  refuse c = do text ← last_error; pure (not_ok, record c { m_str_error = text })

  -- A subscriber takes every message: the filter is empty.
  unfoldable pub subscribe_all : ClientImpl → Ptr → M z (ErrorType × ClientImpl)
  subscribe_all c s =
      if is_subscribe c.m_type
      then (do
        error ← zmq_setsockopt s zmq_subscribe []
        if is_nonzero error then refuse c else pure (ok, c))
      else pure (ok, c)

  unfoldable pub connect : ClientImpl → String → M z (ErrorType × ClientImpl)
  unfolding subscribe_all
  connect c url = do
    s ← create_socket c
    let c' = record c { m_socket = some s }
    if s == null then refuse c' else do
      error ← zmq_connect s url
      if is_nonzero error then refuse c' else subscribe_all c' s

  -- `send_worker` once the message is made: `msg` is its content.
  unfoldable pub send_made : ClientImpl → z.Msg → Flags → M z (Status × ClientImpl)
  send_made c msg flags = do
    s ← value_of c.m_socket
    (sent, rest) ← zmq_msg_send msg s flags
    if is_negative sent
        then (do
          text ← last_error
          _ ← zmq_msg_close rest
          pure (
            record { error = not_ok; bytes_send = sent; error_str = text },
            record c { m_str_error = text },
          ))
        else (do _ ← zmq_msg_close rest; pure (record new_status { bytes_send = sent }, c))

  unfoldable pub send_worker : ClientImpl → IMessage → Flags → M z (Status × ClientImpl)
  unfolding send_made
  send_worker c message flags = do
    (error, msg) ← zmq_msg_init_data (get_data message) (get_size message)
    if is_nonzero error
        then (do
          text ← last_error
          pure (
            record new_status { error = not_ok; error_str = text },
            record c { m_str_error = text },
          ))
        else send_made c msg flags

  unfoldable pub send : ClientImpl → IMessage → M z (Status × ClientImpl)
  unfolding send_worker
  send c message = send_worker c message no_flags

  -- The end of both branches of `receive` that return NULL.
  abbrev pub receive_nothing : ClientImpl → M z (Received × ClientImpl)
  receive_nothing c = do text ← last_error; pure (no_message, record c { m_str_error = text })

  -- `receive` once a message is there. The text of the message is read for the output.
  unfoldable pub keep_message : ClientImpl → z.Msg → M z (Received × ClientImpl)
  keep_message c msg = do
    let start = z.zmq_msg_data msg
    let size = to_int (z.zmq_msg_size msg)
    _ ← load start (to_size size)
    _ ← zmq_msg_close msg
    pure (own_message, record c { m_message = set_size size (set_data start c.m_message) })

  unfoldable pub receive : ClientImpl → M z (Received × ClientImpl)
  unfolding keep_message
  receive c = do
    (error, empty) ← zmq_msg_init
    if is_nonzero error then receive_nothing c else do
      s ← value_of c.m_socket
      (received, msg) ← zmq_msg_recv empty s no_flags
      if is_negative received then receive_nothing c else keep_message c msg

  -- `m_worker.join ()`
  abbrev pub join_worker : Bool → Worker → M z (Unit {0})
  join_worker = join

  -- `~ClientImpl ()`
  unfoldable pub destroy : ClientImpl → M z (Unit {0})
  destroy c = do
    join_worker c.m_running c.m_worker
    s ← value_of c.m_socket
    _ ← zmq_close s
    _ ← zmq_ctx_destroy c.m_context
    delete_message c.m_message

  abbrev pub get_str_error : ClientImpl → M z (String × ClientImpl)
  get_str_error = returns λ impl. impl.m_str_error

  -- `result_type async_send (const IMessage&)`
  abbrev pub async_send_result : {A : Type 0} → ClientImpl → M z (A × ClientImpl)
  async_send_result = not_implemented

  -- It fails before it makes a session.
  abbrev pub get_session : {A : Type 0} → ClientImpl → M z (A × ClientImpl)
  get_session = not_implemented

  -- `ClientImpl (const ISession&)`
  unfoldable pub create_from_session : ISession → M z ClientImpl
  create_from_session _ = fail_with Fault.assertion

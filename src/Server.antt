-- ===== src/Server.antt =====
-- server_api.cpp, class ServerImpl: its state and its blocking methods.
pub mod Bind
pub mod Async
pub mod Queue
pub mod Lifetime
pub mod Public
pub mod Api
pub mod Publish
pub mod Receive
mod Tests
use zeromq_agent.Base.{Bool, true, false, String, Option, none, some, ◌==◌, if◌then◌else◌}
use zeromq_agent.Base.Int.{is_nonzero, is_negative, to_int, to_size}
use zeromq_agent.Memory.{Ptr, null}
use zeromq_agent.Zmq.{
  Zmq, Fault, fail_with, SocketKind, zmq_pub, zmq_sub, zmq_req, zmq_rep, Flags, no_flags, M,
  blocked, pure, ◌>>=◌, ◌>>◌,
}
use zeromq_agent.Zmq.Calls.{
  last_error, zmq_ctx_new, zmq_ctx_destroy, zmq_socket, zmq_close, zmq_bind, zmq_send, zmq_msg_init,
  zmq_msg_recv, zmq_msg_close, load, value_of,
}
use zeromq_agent.Worker.{Worker, free, in_handler, join}
use zeromq_agent.Owned.{returns, not_implemented}
use zeromq_agent.Message.{
  ISession, ErrorType, ok, not_ok, SocketType, request, reply, publish, subscribe, Status,
  new_status, IMessage, send_message, get_data, get_size, set_data, set_size, empty_message,
  delete_message, Received, no_message, own_message,
}

-- `m_socket` is `none` until `bind` gives it a value.
pub record ServerImpl : Type 0 where
  pub m_ctx : Ptr
  pub m_socket : Option Ptr
  pub m_message : IMessage
  pub m_type : SocketType
  pub m_running : Bool
  pub m_worker : Worker
  pub m_str_error : String

-- The first statement of the worker thread.
unfoldable pub worker_starts : ServerImpl → ServerImpl
worker_starts c = record c { m_running = true }

-- The worker thread is in a handler that does not return.
unfoldable pub worker_waits : ServerImpl → ServerImpl
worker_waits c = record c { m_worker = in_handler }

-- The `switch` of `create_socket`.
abbrev pub socket_kind : SocketType → SocketKind
socket_kind publish = zmq_pub
socket_kind subscribe = zmq_sub
socket_kind request = zmq_req
socket_kind reply = zmq_rep

abbrev pub is_publish : SocketType → Bool
is_publish publish = true
is_publish _ = false

module _ {z : Zmq} where
  -- `ServerImpl (SocketType)`
  unfoldable pub create : SocketType → M z ServerImpl
  create type = do
    context ← zmq_ctx_new
    pure (record {
      m_ctx = context;
      m_socket = none;
      m_message = send_message empty_message;
      m_type = type;
      m_running = false;
      m_worker = free;
      m_str_error = "";
    })

  abbrev pub create_socket : ServerImpl → M z Ptr
  create_socket c = zmq_socket c.m_ctx (socket_kind c.m_type)

  -- The end of both branches of `bind` that fail.
  abbrev pub refuse : ServerImpl → M z (ErrorType × ServerImpl)
  refuse c = do text ← last_error; pure (not_ok, record c { m_str_error = text })

  unfoldable pub bind : ServerImpl → String → M z (ErrorType × ServerImpl)
  bind c url = do
    s ← create_socket c
    let c' = record c { m_socket = some s }
    if s == null
        then refuse c'
        else do error ← zmq_bind s url; if is_nonzero error then refuse c' else pure (ok, c')

  -- The flags are not passed on.
  unfoldable pub publish_worker : ServerImpl → IMessage → Flags → M z (Status × ServerImpl)
  publish_worker c message flags = do
    s ← value_of c.m_socket
    sent ← zmq_send s (get_data message) (get_size message) no_flags
    if is_negative sent
        then (do
          text ← last_error
          pure (record new_status { error = not_ok }, record c { m_str_error = text }))
        else pure (new_status, c)

  -- `publish`
  unfoldable pub publish_message : ServerImpl → IMessage → M z (Status × ServerImpl)
  unfolding publish_worker
  publish_message c message = publish_worker c message no_flags

  -- The end of the branches of `receive` that return NULL after a call that failed.
  abbrev pub receive_nothing : ServerImpl → M z (Received × ServerImpl)
  receive_nothing c = do text ← last_error; pure (no_message, record c { m_str_error = text })

  -- `receive` once a message is there: its text is read for the output after the message is closed.
  unfoldable pub keep_message : ServerImpl → z.Msg → M z (Received × ServerImpl)
  keep_message c msg = do
    let start = z.zmq_msg_data msg
    let size = to_int (z.zmq_msg_size msg)
    let own = set_size size (set_data start c.m_message)
    _ ← zmq_msg_close msg
    _ ← load (get_data own) (to_size (get_size own))
    pure (own_message, record c { m_message = own })

  unfoldable pub receive : ServerImpl → M z (Received × ServerImpl)
  unfolding keep_message
  receive c = if is_publish c.m_type then pure (no_message, c) else do
    (error, empty) ← zmq_msg_init
    if is_nonzero error then receive_nothing c else do
      s ← value_of c.m_socket
      (received, msg) ← zmq_msg_recv empty s no_flags
      if is_negative received then receive_nothing c else keep_message c msg

  -- `m_worker.join ()`
  abbrev pub join_worker : Bool → Worker → M z (Unit {0})
  join_worker = join

  -- `~ServerImpl ()`
  unfoldable pub destroy : ServerImpl → M z (Unit {0})
  destroy c = do
    join_worker c.m_running c.m_worker
    s ← value_of c.m_socket
    _ ← zmq_close s
    _ ← zmq_ctx_destroy c.m_ctx
    delete_message c.m_message

  abbrev pub get_str_error : ServerImpl → M z (String × ServerImpl)
  get_str_error = returns λ impl. impl.m_str_error

  -- It fails before it makes a session.
  abbrev pub get_session : {A : Type 0} → ServerImpl → M z (A × ServerImpl)
  get_session = not_implemented

  -- `ServerImpl (const ISession&)`
  unfoldable pub create_from_session : ISession → M z ServerImpl
  create_from_session _ = fail_with Fault.assertion

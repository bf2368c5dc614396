-- ===== src/BrokerPublisher.antt =====
-- broker_api.cpp, class BrokerPublisherImpl: the broker for publishers and subscribers.
pub mod Bind
pub mod Public
pub mod Lifetime
mod Tests
use zeromq_agent.Base.{String, Option, none, some, ◌==◌, if◌then◌else◌}
use zeromq_agent.Base.Int.{is_nonzero}
use zeromq_agent.Memory.{Ptr, null}
use zeromq_agent.Zmq.{Zmq, zmq_xsub, zmq_xpub, M, pure, ◌>>=◌}
use zeromq_agent.Zmq.Calls.{
  last_error, zmq_ctx_new, zmq_ctx_destroy, zmq_socket, zmq_close, zmq_connect, zmq_bind, zmq_proxy,
  value_of,
}
use zeromq_agent.Owned.{returns}
use zeromq_agent.Message.{ErrorType, ok, not_ok}

-- The sockets are `none` as long as nothing gives them values.
pub record BrokerPublisherImpl : Type 0 where
  pub m_context : Ptr
  pub m_frontend : Option Ptr
  pub m_backend : Option Ptr
  pub m_str_error : String

module _ {z : Zmq} where
  -- `BrokerPublisherImpl ()`
  unfoldable pub create : M z BrokerPublisherImpl
  create = do
    context ← zmq_ctx_new
    pure (record { m_context = context; m_frontend = none; m_backend = none; m_str_error = "" })

  -- `~BrokerPublisherImpl ()`
  unfoldable pub destroy : BrokerPublisherImpl → M z (Unit {0})
  destroy b = do
    back ← value_of b.m_backend
    _ ← zmq_close back
    front ← value_of b.m_frontend
    _ ← zmq_close front
    _ ← zmq_ctx_destroy b.m_context
    pure tt

  -- The end of every branch of `bind` that fails.
  abbrev pub refuse : BrokerPublisherImpl → M z (ErrorType × BrokerPublisherImpl)
  refuse b = do text ← last_error; pure (not_ok, record b { m_str_error = text })

  -- The part of `bind` that gives the two sockets their addresses.
  unfoldable pub attach :
      BrokerPublisherImpl → Ptr → Ptr → String → String → M z (ErrorType × BrokerPublisherImpl)
  attach b front back backend frontend = do
    error ← zmq_connect front frontend
    if is_nonzero error
        then refuse b
        else do error ← zmq_bind back backend; if is_nonzero error then refuse b else pure (ok, b)

  -- `bind` declares local variables with the names of the two fields, which it does not write.
  unfoldable pub bind :
      BrokerPublisherImpl → String → String → M z (ErrorType × BrokerPublisherImpl)
  unfolding attach
  bind b backend frontend = do
    m_frontend ← zmq_socket b.m_context zmq_xsub
    if m_frontend == null then refuse b else do
      m_backend ← zmq_socket b.m_context zmq_xpub
      if m_backend == null then refuse b else attach b m_frontend m_backend backend frontend

  unfoldable pub start_loop : BrokerPublisherImpl → M z BrokerPublisherImpl
  start_loop b = do
    front ← value_of b.m_frontend
    back ← value_of b.m_backend
    error ← zmq_proxy front back
    if is_nonzero error
        then (do text ← last_error; pure (record b { m_str_error = text }))
        else pure b

  abbrev pub get_str_error : BrokerPublisherImpl → M z (String × BrokerPublisherImpl)
  get_str_error = returns λ impl. impl.m_str_error

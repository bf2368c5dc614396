-- ===== src/Broker.antt =====
-- broker_api.cpp, class BrokerImpl: the broker for requests and replies. Its vector `m_receivers` is
-- never used and is left out.
pub mod Bind
pub mod Public
pub mod Forward
pub mod Loop
pub mod Fuel
pub mod Balance
mod Tests
use zeromq_agent.Base.{
  ℕ, zero, suc, Bool, true, false, String, Option, none, some, [], ◌∷◌, ◌==◌, if◌then◌else◌,
}
use zeromq_agent.Base.Int.{is_nonzero}
use zeromq_agent.Memory.{Ptr, null}
use zeromq_agent.Zmq.{
  Zmq, zmq_router, zmq_dealer, no_flags, zmq_sndmore, M, blocked, pure, ◌>>=◌, ◌>>◌,
}
use zeromq_agent.Zmq.Calls.{
  last_error, zmq_ctx_new, zmq_ctx_destroy, zmq_socket, zmq_close, zmq_bind, zmq_poll, zmq_msg_init,
  zmq_msg_recv, zmq_msg_send, zmq_msg_close, load, value_of,
}
use zeromq_agent.Owned.{returns}
use zeromq_agent.Message.{ErrorType, ok, not_ok}

-- The sockets are `none` until `bind` gives them values.
pub record BrokerImpl : Type 0 where
  pub m_context : Ptr
  pub m_backend : Option Ptr
  pub m_frontend : Option Ptr
  pub m_str_error : String

module _ {z : Zmq} where
  -- `BrokerImpl ()`
  unfoldable pub create : M z BrokerImpl
  create = do
    context ← zmq_ctx_new
    pure (record { m_context = context; m_backend = none; m_frontend = none; m_str_error = "" })

  -- `~BrokerImpl ()`
  unfoldable pub destroy : BrokerImpl → M z (Unit {0})
  destroy b = do
    back ← value_of b.m_backend
    _ ← zmq_close back
    front ← value_of b.m_frontend
    _ ← zmq_close front
    _ ← zmq_ctx_destroy b.m_context
    pure tt

  -- The end of every branch of `bind` that fails.
  abbrev pub refuse : BrokerImpl → M z (ErrorType × BrokerImpl)
  refuse b = do text ← last_error; pure (not_ok, record b { m_str_error = text })

  -- The part of `bind` that binds the two sockets.
  unfoldable pub bind_sockets :
      BrokerImpl → Ptr → Ptr → String → String → M z (ErrorType × BrokerImpl)
  bind_sockets b front back backend frontend = do
    error ← zmq_bind front frontend
    if is_nonzero error
        then refuse b
        else do error ← zmq_bind back backend; if is_nonzero error then refuse b else pure (ok, b)

  unfoldable pub bind : BrokerImpl → String → String → M z (ErrorType × BrokerImpl)
  unfolding bind_sockets
  bind b backend frontend = do
    front ← zmq_socket b.m_context zmq_router
    let b' = record b { m_frontend = some front }
    if front == null then refuse b' else do
      back ← zmq_socket b.m_context zmq_dealer
      let b'' = record b' { m_backend = some back }
      if back == null then refuse b'' else bind_sockets b'' front back backend frontend

  -- One part of a message, from the socket `from` to the socket `to`: whether more parts follow. The
  -- text of the part is read for the output. No result is looked at.
  unfoldable pub forward_part : Ptr → Ptr → M z Bool
  forward_part from to = do
    (_, empty) ← zmq_msg_init
    (_, message) ← zmq_msg_recv empty from no_flags
    let more = is_nonzero (z.zmq_msg_more message)
    _ ← load (z.zmq_msg_data message) (z.zmq_msg_size message)
    (_, rest) ← zmq_msg_send message to (if more then zmq_sndmore else no_flags)
    _ ← zmq_msg_close rest
    pure more

  -- The inner loops of `start_loop`, which differ in the direction alone. The number bounds the
  -- rounds.
  unfoldable pub forward : ℕ → Ptr → Ptr → M z (Unit {0})
  unfolding forward_part
  forward zero from to = λ m. blocked m
  forward (suc fuel) from to = do
    more ← forward_part from to
    elim more [ true ↦ forward fuel from to | false ↦ pure tt ]

  -- One round of the outer loop. `revents` says for the two items which had ZMQ_POLLIN before.
  unfoldable pub serve : ℕ → Ptr → Ptr → (ℕ → Bool) → M z (ℕ → Bool)
  unfolding forward
  serve fuel front back revents = do
    revents' ← zmq_poll (front ∷ back ∷ []) revents
    if revents' 0 then forward fuel front back else pure tt
    if revents' 1 then forward fuel back front else pure tt
    pure revents'

  -- The first rounds of `while (true)`.
  unfoldable pub serve_rounds : ℕ → ℕ → Ptr → Ptr → (ℕ → Bool) → M z (Unit {0})
  unfolding serve
  serve_rounds fuel zero front back revents = pure tt
  serve_rounds fuel (suc rounds) front back revents = do
    revents' ← serve fuel front back revents
    serve_rounds fuel rounds front back revents'

  unfoldable pub start_loop : ℕ → ℕ → BrokerImpl → M z (Unit {0})
  unfolding serve_rounds
  start_loop fuel rounds b = do
    front ← value_of b.m_frontend
    back ← value_of b.m_backend
    serve_rounds fuel rounds front back (λ _. false)

  abbrev pub get_str_error : BrokerImpl → M z (String × BrokerImpl)
  get_str_error = returns λ impl. impl.m_str_error

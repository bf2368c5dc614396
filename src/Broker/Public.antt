-- ===== src/Broker/Public.antt =====
-- broker_api.cpp, class Broker: it forwards to BrokerImpl.
use zeromq_agent.Base.{ℕ, String, some}
use zeromq_agent.Zmq.{Zmq, M, pure, ◌>>=◌}
use zeromq_agent.Message.{ErrorType}
use zeromq_agent.Broker
use zeromq_agent.Broker.{BrokerImpl}
use zeromq_agent.Owned.{Owned, through, delete_owned}

module _ {z : Zmq} where
  -- `Broker ()`
  unfoldable pub make : M z (Owned BrokerImpl)
  make = do impl ← Broker.create; pure (some impl)

  -- `~Broker ()`
  unfoldable pub destroy : Owned BrokerImpl → M z (Unit {0})
  destroy = delete_owned Broker.destroy

  unfoldable pub bind : Owned BrokerImpl → String → String → M z (ErrorType × Owned BrokerImpl)
  bind b backend frontend = through (λ impl. Broker.bind impl backend frontend) b

  -- The bounds are those of `Broker.start_loop`.
  unfoldable pub start_loop : ℕ → ℕ → Owned BrokerImpl → M z (Unit {0} × Owned BrokerImpl)
  start_loop fuel rounds =
      through λ impl. do _ ← Broker.start_loop fuel rounds impl; pure (tt, impl)

  unfoldable pub get_str_error : Owned BrokerImpl → M z (String × Owned BrokerImpl)
  get_str_error = through Broker.get_str_error

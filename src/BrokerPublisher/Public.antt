-- ===== src/BrokerPublisher/Public.antt =====
-- broker_api.cpp, class BrokerPublisher: it forwards to BrokerPublisherImpl.
use zeromq_agent.Base.{String, some}
use zeromq_agent.Zmq.{Zmq, M, pure, ◌>>=◌}
use zeromq_agent.Message.{ErrorType}
use zeromq_agent.BrokerPublisher
use zeromq_agent.BrokerPublisher.{BrokerPublisherImpl}
use zeromq_agent.Owned.{Owned, through, delete_owned, procedure}

module _ {z : Zmq} where
  -- `BrokerPublisher ()`
  unfoldable pub make : M z (Owned BrokerPublisherImpl)
  make = do impl ← BrokerPublisher.create; pure (some impl)

  -- `~BrokerPublisher ()`
  unfoldable pub destroy : Owned BrokerPublisherImpl → M z (Unit {0})
  destroy = delete_owned BrokerPublisher.destroy

  unfoldable pub bind :
      Owned BrokerPublisherImpl → String → String → M z (ErrorType × Owned BrokerPublisherImpl)
  bind b backend frontend = through (λ impl. BrokerPublisher.bind impl backend frontend) b

  unfoldable pub start_loop : Owned BrokerPublisherImpl → M z (Unit {0} × Owned BrokerPublisherImpl)
  start_loop = through (procedure BrokerPublisher.start_loop)

  unfoldable pub get_str_error :
      Owned BrokerPublisherImpl → M z (String × Owned BrokerPublisherImpl)
  get_str_error = through BrokerPublisher.get_str_error

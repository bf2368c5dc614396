-- ===== src/Brokers.antt =====
-- broker_api.h: the abstract class IBroker, and the classes Broker and BrokerPublisher as
-- implementations of it.
pub mod Reports
mod Tests
use zeromq_agent.Base.{ℕ, String}
use zeromq_agent.Zmq.{Zmq, M}
use zeromq_agent.Message.{ErrorType}
use zeromq_agent.Owned.{Owned}
use zeromq_agent.Broker.{BrokerImpl}
use zeromq_agent.Broker.Public as Broker
use zeromq_agent.BrokerPublisher.{BrokerPublisherImpl}
use zeromq_agent.BrokerPublisher.Public as Publisher

pub record IBroker (z : Zmq) (B : Type 0) : Type 0 where
  pub start_loop : B → M z (Unit {0} × B)
  pub bind : B → String → String → M z (ErrorType × B)
  pub get_str_error : B → M z (String × B)

module _ {z : Zmq} where
  -- The bounds are those of the loops.
  abbrev pub broker : ℕ → ℕ → IBroker z (Owned BrokerImpl)
  broker fuel rounds = record {
    start_loop = Broker.start_loop fuel rounds;
    bind = Broker.bind;
    get_str_error = Broker.get_str_error;
  }

  abbrev pub broker_publisher : IBroker z (Owned BrokerPublisherImpl)
  broker_publisher = record {
    start_loop = Publisher.start_loop;
    bind = Publisher.bind;
    get_str_error = Publisher.get_str_error;
  }

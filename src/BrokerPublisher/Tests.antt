-- ===== src/BrokerPublisher/Tests.antt =====
-- The theorems on the publishing broker at examples.
use zeromq_agent.Base.{◌≡◌, refl, none}
use zeromq_agent.Zmq.{Fault, fault}
use zeromq_agent.Zmq.Sample.{fresh}
use zeromq_agent.Message.{ok}
use zeromq_agent.BrokerPublisher.{BrokerPublisherImpl, create, bind, attach, start_loop, destroy}
use zeromq_agent.BrokerPublisher.Bind.{Bound, bind_publisher-Bound}
use zeromq_agent.BrokerPublisher.Lifetime.{creates, binds, start_loop-uninitialised}

abbrev broker : BrokerPublisherImpl
broker = record { m_context = 50; m_frontend = none; m_backend = none; m_str_error = "" }

bind_publisher-Bound_example :
    Bound broker "tcp://*:5560" "tcp://*:5559" fresh
      (bind broker "tcp://*:5560" "tcp://*:5559" fresh)
bind_publisher-Bound_example = bind_publisher-Bound broker "tcp://*:5560" "tcp://*:5559" fresh

start_loop-uninitialised_example :
    (start_loop broker fresh ≡ fault Fault.uninitialised fresh)
    × (destroy broker fresh ≡ fault Fault.uninitialised fresh)
unfolding create bind attach
start_loop-uninitialised_example =
    start_loop-uninitialised fresh
      (binds "tcp://*:5560" "tcp://*:5559" ok fresh _ (creates fresh _ refl) refl)

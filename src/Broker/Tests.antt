-- ===== src/Broker/Tests.antt =====
-- The theorems on the broker at examples, and a run of three rounds.
use zeromq_agent.Base.{refl, some, arith}
use zeromq_agent.Zmq.Sample.{fresh, sample-ManagesBuffers, sample_ends}
use zeromq_agent.Broker.{BrokerImpl, bind, forward, start_loop}
use zeromq_agent.Broker.Bind.{Bound, bind_broker-Bound}
use zeromq_agent.Broker.Forward.{Forwards, forward-Forwards}
use zeromq_agent.Broker.Loop.{Serves, start_loop-Serves}
use zeromq_agent.Broker.Balance.{StaysBalanced, start_loop-StaysBalanced}

abbrev broker : BrokerImpl
broker = record { m_context = 50; m_backend = some 101; m_frontend = some 100; m_str_error = "" }

bind_broker-Bound_example :
    Bound broker "tcp://*:5560" "tcp://*:5559" fresh
      (bind broker "tcp://*:5560" "tcp://*:5559" fresh)
bind_broker-Bound_example = bind_broker-Bound broker "tcp://*:5560" "tcp://*:5559" fresh

forward-Forwards_example : Forwards 100 101 fresh (forward 5 100 101 fresh)
forward-Forwards_example =
    forward-Forwards sample-ManagesBuffers sample_ends 5 100 101 fresh (omega arith)

start_loop-Serves_example : Serves 100 101 3 fresh (start_loop 3 3 broker fresh)
start_loop-Serves_example =
    start_loop-Serves sample-ManagesBuffers sample_ends 3 broker 100 101 fresh refl refl

start_loop-StaysBalanced_example : StaysBalanced 100 101 (start_loop 3 3 broker fresh)
start_loop-StaysBalanced_example =
    start_loop-StaysBalanced sample-ManagesBuffers sample_ends 3 broker 100 101 fresh refl refl
      (omega arith) (refl, refl)

-- ===== src/Client/Tests.antt =====
-- The theorems on the client at examples.
use zeromq_agent.Worker.{free}
use zeromq_agent.Base.{refl, false, some, none, arith}
use zeromq_agent.Base.Int.{pos}
use zeromq_agent.Zmq.{zmq_dontwait}
use zeromq_agent.Zmq.Sample.{fresh, sample-ManagesBuffers}
use zeromq_agent.Message.{subscribe, send_message, empty_message, borrow, ok}
use zeromq_agent.Client.{
  ClientImpl, create, connect, subscribe_all, send_worker, receive, destroy, worker_starts,
}
use zeromq_agent.Client.Connect.{Connected, connect-Connected}
use zeromq_agent.Client.Send.{Sends, send_worker-Sends}
use zeromq_agent.Client.Receive.{Receives, receive-Receives}
use zeromq_agent.Client.Lifetime.{Destroyed, creates, connects, starts, destroy-Destroyed}

-- A subscriber before and after `connect`.
abbrev client : ClientImpl
client = record {
  m_context = 50;
  m_socket = none;
  m_type = subscribe;
  m_message = send_message empty_message;
  m_running = false;
  m_worker = free;
  m_str_error = "";
}

abbrev connected_client : ClientImpl
connected_client = record client { m_socket = some 100 }

connect-Connected_example :
    Connected client "tcp://localhost:5559" fresh (connect client "tcp://localhost:5559" fresh)
connect-Connected_example = connect-Connected client "tcp://localhost:5559" fresh

send_worker-Sends_example :
    Sends connected_client
      (send_message (borrow 4 (pos 7)))
      100
      zmq_dontwait
      fresh
      (send_worker connected_client (send_message (borrow 4 (pos 7))) zmq_dontwait fresh)
send_worker-Sends_example =
    send_worker-Sends connected_client (send_message (borrow 4 (pos 7))) 100 zmq_dontwait fresh refl

receive-Receives_example :
    Receives connected_client empty_message 100 fresh (receive connected_client fresh)
receive-Receives_example =
    receive-Receives sample-ManagesBuffers connected_client empty_message 100 fresh refl refl
      (omega arith)

destroy-Destroyed_example :
    Destroyed
      (worker_starts connected_client)
      fresh
      (destroy (worker_starts connected_client) fresh)
unfolding create connect subscribe_all
destroy-Destroyed_example =
    destroy-Destroyed fresh
      (starts (connects "tcp://localhost:5559" ok fresh _ (creates subscribe fresh _ refl) refl))

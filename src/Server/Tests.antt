-- ===== src/Server/Tests.antt =====
-- The theorems on the server at examples.
use zeromq_agent.Worker.{free}
use zeromq_agent.Base.{refl, false, some, [], arith}
use zeromq_agent.Base.Int.{pos, to_size}
use zeromq_agent.Memory.{grow}
use zeromq_agent.Memory.Laws.{defined, read-block, read_cells-defined, block-grow}
use zeromq_agent.Zmq.{Machine, zmq_dontwait}
use zeromq_agent.Zmq.Sample.{sample, fresh, hi, sample-ManagesBuffers}
use zeromq_agent.Message.{ok, reply, send_message, empty_message, borrow, get_data, get_size}
use zeromq_agent.Server.{ServerImpl, create, bind, publish_worker, receive, destroy, worker_starts}
use zeromq_agent.Server.Bind.{Bound, bind_server-Bound}
use zeromq_agent.Server.Publish.{Publishes, publish_worker-Publishes}
use zeromq_agent.Server.Lifetime.{Destroyed, creates, binds, starts, destroy_server-Destroyed}
use zeromq_agent.Server.Receive.{Receives, receive_server-Receives}

-- A replier after `bind`.
abbrev server : ServerImpl
server = record {
  m_ctx = 50;
  m_socket = some 100;
  m_message = send_message empty_message;
  m_type = reply;
  m_running = false;
  m_worker = free;
  m_str_error = "";
}

-- The text "hi" stands at address 1.
abbrev loaded : Machine sample
loaded = record fresh { heap = grow (defined hi []) fresh.heap }

bind_server-Bound_example : Bound server "tcp://*:5559" fresh (bind server "tcp://*:5559" fresh)
bind_server-Bound_example = bind_server-Bound server "tcp://*:5559" fresh

publish_worker-Publishes_example :
    Publishes server 100 hi loaded
      (publish_worker server (send_message (borrow 1 (pos 2))) zmq_dontwait loaded)
unfolding get_data get_size to_size
publish_worker-Publishes_example =
    publish_worker-Publishes server (send_message (borrow 1 (pos 2))) 100 hi zmq_dontwait loaded
      refl (read-block _ 1 2 (block-grow _ fresh.heap) (read_cells-defined hi []))

receive_server-Receives_example : Receives server empty_message 100 fresh (receive server fresh)
receive_server-Receives_example =
    receive_server-Receives sample-ManagesBuffers server empty_message 100 fresh refl refl refl
      (omega arith)

destroy_server-Destroyed_example :
    Destroyed (worker_starts server) fresh (destroy (worker_starts server) fresh)
unfolding create bind
destroy_server-Destroyed_example =
    destroy_server-Destroyed fresh
      (starts (binds "tcp://*:5559" ok fresh _ (creates reply fresh _ refl) refl))

-- ===== src/Async/Tests.antt =====
-- The theorems on the handlers at examples.
use zeromq_agent.Worker.{free}
use zeromq_agent.Base.{[], refl, some, none, true, ◌≡◌, arith}
use zeromq_agent.Base.Int.{pos, to_size}
use zeromq_agent.Memory.{grow}
use zeromq_agent.Memory.Laws.{defined, read-block, read_cells-defined, block-grow}
use zeromq_agent.Zmq.{Machine, Fault, fault, zmq_dontwait, pure, ◌>>=◌}
use zeromq_agent.Zmq.Calls.{load}
use zeromq_agent.Zmq.Sample.{sample, hi, fresh, sample-ManagesBuffers}
use zeromq_agent.Message.{
  IMessage, reply, borrow, get_data, get_size, subscribe, send_message, empty_message,
}
use zeromq_agent.Client.{ClientImpl}
use zeromq_agent.Client.Async
use zeromq_agent.Client.Send.{Sends}
use zeromq_agent.Server.{ServerImpl}
use zeromq_agent.Server.Async as ServerAsync
use zeromq_agent.Server.Publish.{Publishes}
use zeromq_agent.Async.Send.{Delivers, send_handlers-Deliver}
use zeromq_agent.Client.Async.{client_endpoint}
use zeromq_agent.Async.{ReceiveCallback, receive_handler}
use zeromq_agent.Async.Receive.{ReadsOnly, Handles, receive_handler-Handles}

abbrev client : ClientImpl
client = record {
  m_context = 50;
  m_socket = some 100;
  m_type = subscribe;
  m_message = send_message empty_message;
  m_running = true;
  m_worker = free;
  m_str_error = "";
}

-- A callback that reads the text of its message.
abbrev reader : ReceiveCallback sample ClientImpl
reader message c = do _ ← load message.m_data (to_size message.m_size); pure (message, c)

reader-ReadsOnly : ReadsOnly reader
reader-ReadsOnly message xs c m there borrowed = rw there borrowed

receive_handler-Handles_example :
    Handles client_endpoint reader client 100 fresh
      (receive_handler client_endpoint (some reader) client fresh)
receive_handler-Handles_example =
    receive_handler-Handles sample-ManagesBuffers client_endpoint reader client 100 fresh
      reader-ReadsOnly refl (omega arith)

-- A replier after `bind`; the text "hi" stands at address 1.
abbrev server : ServerImpl
server = record {
  m_ctx = 50;
  m_socket = some 100;
  m_message = send_message empty_message;
  m_type = reply;
  m_running = true;
  m_worker = free;
  m_str_error = "";
}

abbrev loaded : Machine sample
loaded = record fresh { heap = grow (defined hi []) fresh.heap }

abbrev text : IMessage
text = send_message (borrow 1 (pos 2))

send_handlers-Deliver_example :
    Delivers
      (Sends client text 100 zmq_dontwait loaded)
      none
      (Async.async_send (some text) none client loaded)
    × Delivers
        (Publishes server 100 hi loaded)
        (some λ status s. pure s)
        (ServerAsync.async_publish (some text) (some λ status s. pure s) server loaded)
    × (Async.async_send none none client loaded ≡ fault Fault.bad_access loaded)
    × (ServerAsync.async_publish none (some λ status s. pure s) server loaded
        ≡ fault Fault.bad_access loaded)
unfolding get_data get_size to_size
send_handlers-Deliver_example =
    send_handlers-Deliver client server text 100 100 hi none (some λ status s. pure s) loaded refl
      refl (read-block _ 1 2 (block-grow _ fresh.heap) (read_cells-defined hi []))

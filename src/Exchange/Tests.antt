-- ===== src/Exchange/Tests.antt =====
-- The theorems on a client, the broker and a worker at an example: one round of each.
use zeromq_agent.Worker.{free}
use zeromq_agent.Base.{
  ℕ, ◌<◌, ◌+◌, ◌%◌, ◌==◌, refl, true, false, none, some, [], arith, length, if◌then◌else◌,
}
use zeromq_agent.Base.Int.{pos, negsuc}
use zeromq_agent.Memory.{Ptr, Bytes, grow}
use zeromq_agent.Memory.Laws.{defined}
use zeromq_agent.Zmq.{Zmq, Machine}
use zeromq_agent.Zmq.Sample.{sample, next_part}
use zeromq_agent.Message.{request, reply, send_message, empty_message}
use zeromq_agent.Exchange.Modes.{Requests, Repliers, main-Requests, main-Answers}
use zeromq_agent.Base.{inr}
use zeromq_agent.Agent.Main.{Setting}
use zeromq_agent.Client.{ClientImpl}
use zeromq_agent.Broker.{BrokerImpl}
use zeromq_agent.Agent.{update_token, reply_text, request_rounds, publish_rounds}
use zeromq_agent.Exchange.{picked}
use zeromq_agent.Exchange.Requests.{client_socket, request_rounds-Sent}
use zeromq_agent.Exchange.Publications.{Published, publish_rounds-Published}
use zeromq_agent.Exchange.Ends.{Sent, SentOf}
use zeromq_agent.Server.{ServerImpl}
use zeromq_agent.Agent.Lockstep.{Post}

-- A library whose messages have three parts, with the text of their socket.
abbrev bringing : (Ptr → Bytes) → Zmq
bringing texts = record sample {
  zmq_msg_recv = λ msg s flags w h. (
    pos 2,
    record (next_part w h) { size = length (texts s) },
    w + 1,
    grow (defined (texts s) []) h,
  );
  zmq_poll = λ sockets revents w. (λ i. true, w);
}

-- As it is, but it leaves the buffers.
abbrev keeping : (Ptr → Bytes) → Zmq
keeping texts = record (bringing texts) { zmq_msg_close = λ msg w h. (pos 0, w, h) }

abbrev start : (z : Zmq) → z.World → Machine z
start z w = record { world = w; heap = record { next = 1; block = λ _. none }; trace = [] }

abbrev client : ClientImpl
client = record {
  m_context = 50;
  m_socket = some 100;
  m_type = request;
  m_message = send_message empty_message;
  m_running = false;
  m_worker = free;
  m_str_error = "";
}

abbrev worker : ClientImpl
worker = record client { m_socket = some 200; m_type = reply }

abbrev broker : BrokerImpl
broker = record { m_context = 50; m_backend = some 101; m_frontend = some 100; m_str_error = "" }

abbrev client_library : Zmq
client_library = bringing λ _. reply_text

abbrev worker_library : Zmq
worker_library = keeping λ _. update_token

-- It brings one message; every later receive fails.
abbrev once_library : Zmq
once_library = record worker_library {
  zmq_msg_recv = λ msg s flags w h. (
    if w == 1 then pos 2 else negsuc 0,
    record (next_part w h) { size = length update_token },
    2,
    grow (defined update_token []) h,
  );
}

abbrev setting : Setting
setting = record {
  fuel = 3;
  rounds = 1;
  dist = λ _. 0;
  plan = record { within = λ _. 0; after = λ _. 0; at_end = 0 };
  started = true;
}

abbrev server : ServerImpl
server = record {
  m_ctx = 50;
  m_socket = some 200;
  m_message = send_message empty_message;
  m_type = reply;
  m_running = false;
  m_worker = free;
  m_str_error = "";
}

-- The handler of each round runs during its statement.
abbrev prompt : Setting
prompt = record setting { plan = record { within = λ _. 1; after = λ _. 0; at_end = 0 } }

main-Requests_example : Requests prompt (start client_library 0) "client_req_async"
main-Requests_example =
    main-Requests (λ _ _ _. refl) (λ _ _ _. (refl, refl)) "client_req_async" prompt
      (start client_library 0) (inr refl) refl

main-Answers_example : Repliers prompt (start once_library 0) "server_req_async"
main-Answers_example = main-Answers "server_req_async" prompt (start once_library 0) (inr refl) refl

request_rounds-Sent_example :
    Post
      (Sent client_socket 100 (picked (λ i. i) 3 0 []))
      (SentOf 100 (picked (λ i. i) 3 0 []))
      (request_rounds (λ i. i) 3 0 client (start client_library 0))
request_rounds-Sent_example =
    request_rounds-Sent 100 (λ _ _ _. refl) (λ _ _ _. (refl, refl)) (λ i. i) 3 0 client
      (start client_library 0) refl

-- A generator that takes turns.
abbrev remainder : ℕ → ℕ
remainder i = i % 3

remainder-below : (i : ℕ) → remainder i < 3
remainder-below i = omega arith

publish_rounds-Published_example :
    Post
      (Published 200 (picked remainder 5 0 []))
      (λ _. ⊥)
      (publish_rounds remainder 5 0 server (start worker_library 0))
publish_rounds-Published_example =
    publish_rounds-Published 200 remainder 5 0 server (start worker_library 0) remainder-below refl
      (omega arith)

-- ===== src/Agent/Main.antt =====
-- zeromq_agent.cpp, main.
pub mod Ends
pub mod Modes
use zeromq_agent.Base.{ℕ, Bool, true, false, String, Option, none, some, if◌then◌else◌}
use zeromq_agent.Base.Int.{ℤ, pos, negsuc}
use zeromq_agent.Zmq.{Zmq, M, blocked, pure, ◌>>=◌, ◌>>◌}
use zeromq_agent.Broker
use zeromq_agent.BrokerPublisher
use zeromq_agent.Agent.{
  req_rep_client, req_rep_server, pub_sub_client, pub_sub_server, req_rep_worker,
}
use zeromq_agent.Agent.Posting.{
  Schedule, pub_sub_client_async, req_rep_client_async, req_rep_server_async,
}
use text.Mathlib.Text.{◌==◌}

abbrev pub frontend_endpoint : String
frontend_endpoint = "tcp://*:5559"

abbrev pub backend_endpoint : String
backend_endpoint = "tcp://*:5560"

abbrev pub end_point : String
end_point = "tcp://localhost:5559"

abbrev pub end_point_front_end : String
end_point_front_end = "tcp://localhost:5560"

abbrev pub end_point_server : String
end_point_server = "tcp://*:5559"

pub data Mode : Type 0 where
  client server client_pub server_pub broker worker broker_publish client_pub_async client_req_async
        server_req_async :
      Mode

-- The tests of `argv[1]`, in their order.
unfoldable pub mode_of : String → Option Mode
mode_of arg =
    if arg == "client"
    then some client
    else if arg == "server"
    then some server
    else if arg == "client_pub"
    then some client_pub
    else if arg == "server_pub"
    then some server_pub
    else if arg == "broker"
    then some broker
    else if arg == "worker"
    then some worker
    else if arg == "broker_publish"
    then some broker_publish
    else if arg == "client_pub_async"
    then some client_pub_async
    else if arg == "client_req_async"
    then some client_req_async
    else if arg == "server_req_async"
    then some server_req_async
    else none

-- What a run depends on besides the library: the bounds for the broker's loops, the numbers that the
-- generator draws, the worker's share, and whether the worker has set `m_running` by the end.
pub record Setting : Type 0 where
  pub fuel : ℕ
  pub rounds : ℕ
  pub dist : ℕ → ℕ
  pub plan : Schedule
  pub started : Bool

module _ {z : Zmq} where
  -- The loop of the broker has no end: after the rounds that are run, the run is blocked.
  unfoldable pub run_broker : ℕ → ℕ → M z ℤ
  run_broker fuel rounds = do
    b ← Broker.create
    (_, b') ← Broker.bind b backend_endpoint frontend_endpoint
    Broker.start_loop fuel rounds b'
    λ m. blocked m

  unfoldable pub run_broker_publish : M z ℤ
  run_broker_publish = do
    b ← BrokerPublisher.create
    (_, b') ← BrokerPublisher.bind b backend_endpoint frontend_endpoint
    BrokerPublisher.destroy b'
    pure (pos 0)

  -- The branch of a mode. Its result is not used.
  unfoldable pub run_mode : Setting → Mode → M z ℤ
  unfolding run_broker run_broker_publish
  run_mode t client = req_rep_client t.dist t.started end_point
  run_mode t server = req_rep_server t.started end_point_server
  run_mode t client_pub = pub_sub_client t.started end_point
  run_mode t server_pub = pub_sub_server t.dist t.started end_point_server
  run_mode t broker = run_broker t.fuel t.rounds
  run_mode t worker = req_rep_worker t.started end_point_front_end
  run_mode t broker_publish = run_broker_publish
  run_mode t client_pub_async = pub_sub_client_async t.plan t.started end_point
  run_mode t client_req_async = req_rep_client_async t.dist t.plan t.started end_point
  run_mode t server_req_async = req_rep_server_async t.plan t.started end_point_server

  unfoldable pub dispatch : Setting → Option Mode → M z ℤ
  unfolding run_mode
  dispatch t none = pure (negsuc 0)
  dispatch t (some mode) = do _ ← run_mode t mode; pure (pos 0)

  -- The argument is `argv[1]`, or `none` where `argc` is below 2.
  unfoldable pub main : Setting → Option String → M z ℤ
  unfolding mode_of dispatch
  main t none = pure (negsuc 0)
  main t (some arg) = dispatch t (mode_of arg)

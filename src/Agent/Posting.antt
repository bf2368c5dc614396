-- ===== src/Agent/Posting.antt =====
-- zeromq_agent.cpp: the functions that post a handler in each round. Next to them the worker runs the
-- handlers that wait, the oldest first; how many it runs, and when, is an argument.
pub mod Exits
pub mod Counts
pub mod Queue
pub mod Clients
pub mod Servers
use zeromq_agent.Base.{
  ℕ, zero, suc, ◌+◌, Bool, true, false, String, Option, none, some, ◌==◌, if◌then◌else◌,
}
use zeromq_agent.Base.Int.{ℤ}
use zeromq_agent.Async.{reference}
use zeromq_agent.Zmq.{Zmq, M, pure, ◌>>=◌, ◌>>◌}
use zeromq_agent.Message
use zeromq_agent.Message.{SendMessage, request, reply, subscribe, send_message, from_string}
use zeromq_agent.Client
use zeromq_agent.Client.{ClientImpl}
use zeromq_agent.Client.Async
use zeromq_agent.Server
use zeromq_agent.Server.{ServerImpl}
use zeromq_agent.Server.Async as ServerAsync
use zeromq_agent.Agent.{message_at, iterations_num, run_client, run_server}
use zeromq_agent.Agent.Callbacks.{print_message, receive_answer, reply_message}

-- How many handlers the worker runs in a round while the statement that posts one is running, and
-- after it; and how many after the last round.
pub record Schedule : Type 0 where
  pub within : ℕ → ℕ
  pub after : ℕ → ℕ
  pub at_end : ℕ

module _ {z : Zmq} {I : Type 0} where
  -- Runs up to `k` of the handlers that wait. A handler is told whether it is the last that waits.
  unfoldable pub worker_runs : (Bool → I → M z I) → ℕ → ℕ → I → M z (ℕ × I)
  worker_runs handler zero waiting c = pure (waiting, c)
  worker_runs handler (suc k) zero c = pure (zero, c)
  worker_runs handler (suc k) (suc waiting) c = do
    c' ← handler (waiting == 0) c
    worker_runs handler k waiting c'

  -- One more handler waits; the worker runs some during the statement and some after it.
  unfoldable pub post_handler :
      (Bool → I → M z I) → (Bool → I → M z I) → Schedule → ℕ → ℕ → I → M z (ℕ × I)
  unfolding worker_runs
  post_handler during afterwards plan i waiting c = do
    (waiting', c') ← worker_runs during (plan.within i) (suc waiting) c
    worker_runs afterwards (plan.after i) waiting' c'

  unfoldable pub post_rounds : (ℕ → ℕ → I → M z (ℕ × I)) → ℕ → ℕ → ℕ → I → M z (ℕ × I)
  post_rounds round zero i waiting c = pure (waiting, c)
  post_rounds round (suc n) i waiting c = do
    (waiting', c') ← round i waiting c
    post_rounds round n (i + 1) waiting' c'

module _ {z : Zmq} where
  -- The callback of a handler is there while the statement that posted it is running.
  unfoldable pub print_handler : Bool → Bool → ClientImpl → M z ClientImpl
  unfolding Async.async_receive print_message
  print_handler in_statement last =
      Async.async_receive (reference (if in_statement then last else false) print_message)

  unfoldable pub print_rounds : Schedule → ClientImpl → M z ClientImpl
  unfolding post_rounds post_handler print_handler
  print_rounds plan c = do
    (_, c') ←
        post_rounds (post_handler (print_handler true) (print_handler false) plan) iterations_num 0
          0 c
    pure c'

  unfoldable pub pub_sub_client_async : Schedule → Bool → String → M z ℤ
  unfolding run_client print_rounds
  pub_sub_client_async plan started url = do
    c ← Client.create subscribe
    run_client started c url (print_rounds plan)

  -- The message of a round is there until the round ends.
  unfoldable pub request_handler : SendMessage → Bool → Bool → ClientImpl → M z ClientImpl
  unfolding Async.async_send receive_answer
  request_handler message in_statement last =
      Async.async_send (reference last (send_message message))
        (reference (if in_statement then last else false) receive_answer)

  unfoldable pub send_round : (ℕ → ℕ) → Schedule → ℕ → ℕ → ClientImpl → M z (ℕ × ClientImpl)
  unfolding message_at post_handler request_handler
  send_round dist plan i waiting c = do
    text ← message_at (dist i)
    message ← from_string text
    (waiting', c') ←
        post_handler (request_handler message true) (request_handler message false) plan i waiting c
    Message.destroy message
    pure (waiting', c')

  -- After the last round its message has ended too, and the worker goes on until the destructor
  -- stops it.
  unfoldable pub send_rounds : (ℕ → ℕ) → Schedule → ClientImpl → M z ClientImpl
  unfolding post_rounds send_round worker_runs Async.async_send
  send_rounds dist plan c = do
    (waiting, c') ← post_rounds (send_round dist plan) iterations_num 0 0 c
    (_, c'') ← worker_runs (λ _. Async.async_send none none) plan.at_end waiting c'
    pure c''

  unfoldable pub req_rep_client_async : (ℕ → ℕ) → Schedule → Bool → String → M z ℤ
  unfolding run_client send_rounds
  req_rep_client_async dist plan started url = do
    c ← Client.create request
    run_client started c url (send_rounds dist plan)

  unfoldable pub reply_handler : Bool → Bool → ServerImpl → M z ServerImpl
  unfolding ServerAsync.async_receive reply_message
  reply_handler in_statement last =
      ServerAsync.async_receive (reference (if in_statement then last else false) reply_message)

  -- The worker goes on while the function waits for a character.
  unfoldable pub reply_handlers : Schedule → ServerImpl → M z ServerImpl
  unfolding post_rounds post_handler reply_handler worker_runs
  reply_handlers plan s = do
    (waiting, s') ←
        post_rounds (post_handler (reply_handler true) (reply_handler false) plan) iterations_num 0
          0 s
    (_, s'') ← worker_runs (reply_handler false) plan.at_end waiting s'
    pure s''

  unfoldable pub req_rep_server_async : Schedule → Bool → String → M z ℤ
  unfolding run_server reply_handlers
  req_rep_server_async plan started url = do
    s ← Server.create reply
    run_server started s url (reply_handlers plan)

-- ===== src/Agent/Posting/Queue.antt =====
-- zeromq_agent.cpp: the functions that post handlers, with the strand as a queue of handlers that
-- name what they hold. Agent.Posting counts the handlers that wait.
pub mod Rounds
pub mod Agrees
use zeromq_agent.Base.{ℕ, zero, suc, ◌+◌, Option, none, some, [], if◌then◌else◌}
use zeromq_agent.Zmq.{Zmq, M, pure, ◌>>=◌, ◌>>◌}
use zeromq_agent.Message
use zeromq_agent.Message.{SendMessage, send_message, from_string}
use zeromq_agent.Client.{ClientImpl}
use zeromq_agent.Client.Queue
use zeromq_agent.Server.{ServerImpl}
use zeromq_agent.Server.Queue as ServerQueue
use zeromq_agent.Async.Queue.{Posts, in_statement, after_statement, all_ended, run_waiting}
use zeromq_agent.Agent.{message_at, iterations_num}
use zeromq_agent.Agent.Callbacks.{print_message, receive_answer, reply_message}
use zeromq_agent.Agent.Posting.{Schedule}

module _ {z : Zmq} {I : Type 0} where
  -- A statement that posts a handler, and what the worker runs during it and after it.
  unfoldable pub strand_round :
      (Posts z I → M z (Posts z I)) → Schedule → ℕ → Posts z I → M z (Posts z I)
  strand_round statement plan i p = do
    p' ← statement p
    p'' ← run_waiting (plan.within i) (in_statement i) p'.m_rcv_strand p'.impl
    run_waiting (plan.after i) (after_statement i) p''.m_rcv_strand p''.impl

  unfoldable pub strand_rounds :
      (ℕ → Posts z I → M z (Posts z I)) → ℕ → ℕ → Posts z I → M z (Posts z I)
  strand_rounds round zero i p = pure p
  strand_rounds round (suc n) i p = do p' ← round i p; strand_rounds round n (i + 1) p'

  abbrev pub new_strand : I → Posts z I
  new_strand c = record { impl = c; m_rcv_strand = [] }

module _ {z : Zmq} where
  -- The loop of pub_sub_client_async.
  unfoldable pub strand_prints : Schedule → ClientImpl → M z (Posts z ClientImpl)
  unfolding strand_rounds strand_round
  strand_prints plan c =
      strand_rounds (λ i. strand_round (Queue.async_receive i print_message) plan i) iterations_num
        0 (new_strand c)

  -- A round of req_rep_client_async, whose message ends with it.
  unfoldable pub strand_send :
      (ℕ → ℕ) → Schedule → ℕ → Posts z ClientImpl → M z (Posts z ClientImpl)
  unfolding strand_round
  strand_send dist plan i p = do
    text ← message_at (dist i)
    message ← from_string text
    p' ← strand_round (Queue.async_send i (send_message message) receive_answer) plan i p
    Message.destroy message
    pure p'

  unfoldable pub strand_sends : (ℕ → ℕ) → Schedule → ClientImpl → M z (Posts z ClientImpl)
  unfolding strand_rounds strand_send
  strand_sends dist plan c = do
    p ← strand_rounds (strand_send dist plan) iterations_num 0 (new_strand c)
    run_waiting plan.at_end all_ended p.m_rcv_strand p.impl

  -- The loop of req_rep_server_async and what the worker runs after it.
  unfoldable pub strand_replies : Schedule → ServerImpl → M z (Posts z ServerImpl)
  unfolding strand_rounds strand_round
  strand_replies plan s = do
    p ←
        strand_rounds (λ i. strand_round (ServerQueue.async_receive i reply_message) plan i)
          iterations_num 0 (new_strand s)
    run_waiting plan.at_end all_ended p.m_rcv_strand p.impl

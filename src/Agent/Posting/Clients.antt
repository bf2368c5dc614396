-- ===== src/Agent/Posting/Clients.antt =====
-- zeromq_agent.cpp, pub_sub_client_async and req_rep_client_async: how they end.
use zeromq_agent.Base.{ℕ, Bool, true, false, String, Option, none, some, if◌then◌else◌}
use zeromq_agent.Base.Int.{to_size}
use zeromq_agent.Zmq.{Zmq, Machine, zmq_dontwait}
use zeromq_agent.Zmq.Calls.{load}
use zeromq_agent.Message
use zeromq_agent.Message.{
  SendMessage, Status, IMessage, from_string, send_message, request, subscribe,
}
use zeromq_agent.Message.Flag.{HasNoFlag}
use zeromq_agent.Client.{ClientImpl, create, receive, send_worker}
use zeromq_agent.Client.Async
use zeromq_agent.Client.Async.{client_endpoint}
use zeromq_agent.Client.Lifetime.{send_worker-Leaves, receive-Leaves}
use zeromq_agent.Async.{reference, send_handler}
use zeromq_agent.Agent.{message_at, show_message, iterations_num}
use zeromq_agent.Agent.Callbacks.{print_message, receive_answer}
use zeromq_agent.Agent.Returns.{Lasts, Lasts-bind, Lasts-after, NeverReturns}
use zeromq_agent.Agent.Clients.{
  Flagless, FlaglessPair, lasts, run_client-NeverReturns, create-Lasts,
}
use zeromq_agent.Agent.Posting.{
  Schedule, print_handler, print_rounds, pub_sub_client_async, request_handler, send_round,
  send_rounds, req_rep_client_async, worker_runs, post_handler, post_rounds,
}
use zeromq_agent.Async.Keeps.{Preserves, receive_handler-Lasts}
use zeromq_agent.Agent.Posting.Exits.{
  Second, worker_runs-Lasts, post_handler-Lasts, post_rounds-Lasts,
}

print_message-Preserves :
    (z : Zmq) (there : Bool) → Preserves {z = z} Flagless (reference there print_message)
unfolding print_message
print_message-Preserves z false = tt
print_message-Preserves z true = λ message c m h.
    Lasts-after FlaglessPair (load message.m_data (to_size message.m_size) m) _ λ _ m1. h

module _ {z : Zmq} where
  print_handler-Lasts :
      (in_statement last : Bool) (c : ClientImpl) (m : Machine z)
      → Flagless c
      → Lasts Flagless (print_handler in_statement last c m)
  unfolding print_handler Async.async_receive
  print_handler-Lasts in_statement last c m h =
      let there = if in_statement then last else false in
      receive_handler-Lasts Flagless client_endpoint (reference there print_message) c m
        (λ text c k. k) (print_message-Preserves z there) h

  print_rounds-Lasts :
      (plan : Schedule) (c : ClientImpl) (m : Machine z)
      → Flagless c
      → Lasts Flagless (print_rounds plan c m)
  unfolding print_rounds
  print_rounds-Lasts plan c m h =
      let round = post_handler (print_handler true) (print_handler false) plan in
      Lasts-bind (Second Flagless) Flagless (post_rounds round iterations_num 0 0 c m) _
        (post_rounds-Lasts Flagless round iterations_num 0 0 c m
          (λ i waiting c m.
            post_handler-Lasts Flagless (print_handler true) (print_handler false) plan i waiting c
              m (print_handler-Lasts true) (print_handler-Lasts false))
          h)
        λ (_, c') h' m'. h'

  receive_answer-Lasts :
      (status : Status) (c : ClientImpl) (m : Machine z)
      → Flagless c
      → Lasts Flagless (receive_answer status c m)
  unfolding receive_answer
  receive_answer-Lasts status c m h =
      Lasts-bind FlaglessPair Flagless (receive c m) _ (lasts _ (receive-Leaves c m h))
        λ (got, c') h' m'. Lasts-after Flagless (show_message got c'.m_message m') _ λ _ m''. h'

  -- The handler of `async_send` with its two references.
  async_send-Lasts :
      (message : Option IMessage) (there : Bool) (c : ClientImpl) (m : Machine z)
      → Flagless c
      → Lasts Flagless (Async.async_send message (reference there receive_answer) c m)
  unfolding Async.async_send send_handler
  async_send-Lasts none there c m h = tt
  async_send-Lasts (some message) false c m h =
      Lasts-after Flagless (send_worker c message zmq_dontwait m) _ λ _ m'. tt
  async_send-Lasts (some message) true c m h =
      Lasts-bind FlaglessPair Flagless (send_worker c message zmq_dontwait m) _
        (lasts _ (send_worker-Leaves c message zmq_dontwait m HasNoFlag h))
        λ (status, c') h' m'. receive_answer-Lasts status c' m' h'

  request_handler-Lasts :
      (message : SendMessage) (in_statement last : Bool) (c : ClientImpl) (m : Machine z)
      → Flagless c
      → Lasts Flagless (request_handler message in_statement last c m)
  unfolding request_handler
  request_handler-Lasts message in_statement last c m h =
      async_send-Lasts (reference last (send_message message))
        (if in_statement then last else false) c m h

  send_round-Lasts :
      (dist : ℕ → ℕ) (plan : Schedule) (i waiting : ℕ) (c : ClientImpl) (m : Machine z)
      → Flagless c
      → Lasts (Second Flagless) (send_round dist plan i waiting c m)
  unfolding send_round
  send_round-Lasts dist plan i waiting c m h =
      Lasts-after (Second Flagless) (message_at (dist i) m) _ λ text m1.
        Lasts-after (Second Flagless) (from_string text m1) _ λ message m2.
          Lasts-bind (Second Flagless) (Second Flagless)
            (post_handler (request_handler message true) (request_handler message false) plan i
              waiting c m2)
            _
            (post_handler-Lasts Flagless (request_handler message true)
              (request_handler message false) plan i waiting c m2
              (request_handler-Lasts message true) (request_handler-Lasts message false) h)
            λ (waiting', c') h' m3.
              Lasts-after (Second Flagless) (Message.destroy message m3) _ λ _ m4. h'

  -- A handler of `async_send` whose references have ended.
  ended-Lasts :
      (last : Bool) (c : ClientImpl) (m : Machine z)
      → Flagless c
      → Lasts Flagless (Async.async_send none none c m)
  unfolding Async.async_send send_handler
  ended-Lasts last c m h = tt

  send_rounds-Lasts :
      (dist : ℕ → ℕ) (plan : Schedule) (c : ClientImpl) (m : Machine z)
      → Flagless c
      → Lasts Flagless (send_rounds dist plan c m)
  unfolding send_rounds
  send_rounds-Lasts dist plan c m h =
      Lasts-bind (Second Flagless) Flagless
        (post_rounds (send_round dist plan) iterations_num 0 0 c m) _
        (post_rounds-Lasts Flagless (send_round dist plan) iterations_num 0 0 c m
          (send_round-Lasts dist plan) h)
        λ (waiting, c') h' m'.
          Lasts-bind (Second Flagless) Flagless
            (worker_runs (λ _. Async.async_send none none) plan.at_end waiting c' m') _
            (worker_runs-Lasts Flagless (λ _. Async.async_send none none) plan.at_end waiting c' m'
              ended-Lasts h')
            λ (_, c'') h'' m''. h''

  -- Neither of the two asynchronous clients returns, whatever the library answers, whatever the
  -- generator draws, and however many handlers the worker runs at each moment: each run ends in a
  -- fault or waits for ever.
  pub async_clients-NeverReturns :
      (dist : ℕ → ℕ) (plan : Schedule) (started : Bool) (url : String) (m : Machine z)
      → NeverReturns (pub_sub_client_async plan started url m)
        × NeverReturns (req_rep_client_async dist plan started url m)
  unfolding pub_sub_client_async req_rep_client_async
  async_clients-NeverReturns dist plan started url m = (
    Lasts-bind Flagless (λ _. ⊥) (create subscribe m) _ (create-Lasts subscribe m)
        λ c h m'. run_client-NeverReturns started c url _ m' (print_rounds-Lasts plan) h,
    Lasts-bind Flagless (λ _. ⊥) (create request m) _ (create-Lasts request m)
        λ c h m'. run_client-NeverReturns started c url _ m' (send_rounds-Lasts dist plan) h,
  )

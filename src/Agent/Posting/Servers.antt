-- ===== src/Agent/Posting/Servers.antt =====
-- zeromq_agent.cpp, req_rep_server_async: how it ends.
use zeromq_agent.Base.{Bool, true, false, String, if◌then◌else◌}
use zeromq_agent.Base.Int.{to_size}
use zeromq_agent.Zmq.{Zmq, Machine, no_flags}
use zeromq_agent.Zmq.Calls.{load}
use zeromq_agent.Message
use zeromq_agent.Message.{from_string, send_message, reply}
use zeromq_agent.Message.Flag.{HasNoFlag}
use zeromq_agent.Server.{ServerImpl, create, publish_worker, publish_message}
use zeromq_agent.Server.Async
use zeromq_agent.Server.Async.{server_endpoint}
use zeromq_agent.Server.Lifetime.{publish_worker-Leaves}
use zeromq_agent.Agent.{iterations_num, reply_text}
use zeromq_agent.Agent.Callbacks.{reply_message}
use zeromq_agent.Agent.Returns.{Lasts, Lasts-bind, Lasts-after, NeverReturns}
use zeromq_agent.Agent.Servers.{
  Flagless, FlaglessPair, lasts, run_server-NeverReturns, create-Lasts,
}
use zeromq_agent.Async.{reference}
use zeromq_agent.Agent.Posting.{
  Schedule, reply_handler, reply_handlers, req_rep_server_async, post_handler, post_rounds,
  worker_runs,
}
use zeromq_agent.Async.Keeps.{Preserves, receive_handler-Lasts}
use zeromq_agent.Agent.Posting.Exits.{
  Second, worker_runs-Lasts, post_handler-Lasts, post_rounds-Lasts,
}

reply_message-Preserves :
    (z : Zmq) (there : Bool) → Preserves {z = z} Flagless (reference there reply_message)
unfolding reply_message publish_message
reply_message-Preserves z false = tt
reply_message-Preserves z true = λ message s m h.
    Lasts-after FlaglessPair (load message.m_data (to_size message.m_size) m) _ λ _ m1.
      Lasts-after FlaglessPair (from_string reply_text m1) _ λ text m2.
        Lasts-bind FlaglessPair FlaglessPair (publish_worker s (send_message text) no_flags m2) _
          (lasts _ (publish_worker-Leaves s (send_message text) no_flags m2 HasNoFlag h))
          λ (_, s') h' m3. Lasts-after FlaglessPair (Message.destroy text m3) _ λ _ m4. h'

module _ {z : Zmq} where
  reply_handler-Lasts :
      (in_statement last : Bool) (s : ServerImpl) (m : Machine z)
      → Flagless s
      → Lasts Flagless (reply_handler in_statement last s m)
  unfolding reply_handler Async.async_receive
  reply_handler-Lasts in_statement last s m h =
      let there = if in_statement then last else false in
      receive_handler-Lasts Flagless server_endpoint (reference there reply_message) s m
        (λ text c k. k) (reply_message-Preserves z there) h

  reply_handlers-Lasts :
      (plan : Schedule) (s : ServerImpl) (m : Machine z)
      → Flagless s
      → Lasts Flagless (reply_handlers plan s m)
  unfolding reply_handlers
  reply_handlers-Lasts plan s m h =
      let round = post_handler (reply_handler true) (reply_handler false) plan in
      Lasts-bind (Second Flagless) Flagless (post_rounds round iterations_num 0 0 s m) _
        (post_rounds-Lasts Flagless round iterations_num 0 0 s m
          (λ i waiting s m.
            post_handler-Lasts Flagless (reply_handler true) (reply_handler false) plan i waiting s
              m (reply_handler-Lasts true) (reply_handler-Lasts false))
          h)
        λ (waiting, s') h' m'.
          Lasts-bind (Second Flagless) Flagless
            (worker_runs (reply_handler false) plan.at_end waiting s' m') _
            (worker_runs-Lasts Flagless (reply_handler false) plan.at_end waiting s' m'
              (reply_handler-Lasts false) h')
            λ (_, s'') h'' m''. h''

  -- The asynchronous server does not return, whatever the library answers, and however many handlers
  -- the worker runs at each moment: each run ends in a fault or waits for ever.
  pub req_rep_server_async-NeverReturns :
      (plan : Schedule) (started : Bool) (url : String) (m : Machine z)
      → NeverReturns (req_rep_server_async plan started url m)
  unfolding req_rep_server_async
  req_rep_server_async-NeverReturns plan started url m =
      Lasts-bind Flagless (λ _. ⊥) (create reply m) _ (create-Lasts reply m)
        λ s h m'. run_server-NeverReturns started s url _ m' (reply_handlers-Lasts plan) h

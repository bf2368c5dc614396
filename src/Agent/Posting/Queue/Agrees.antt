-- ===== src/Agent/Posting/Queue/Agrees.antt =====
-- zeromq_agent.cpp: the loops that post handlers, on the strand and on the number of handlers.
use zeromq_agent.Base.{ℕ, suc, ◌≡◌, refl, ◌∙◌, true, false, none, ◌==◌, length, All, arith}
use zeromq_agent.Zmq.{Zmq, Machine, Outcome, done, fault, blocked, M, and_then, pure}
use zeromq_agent.Message
use zeromq_agent.Message.{SendMessage, send_message, from_string}
use zeromq_agent.Client.{ClientImpl}
use zeromq_agent.Client.Async
use zeromq_agent.Client.Queue
use zeromq_agent.Server.{ServerImpl}
use zeromq_agent.Server.Async as ServerAsync
use zeromq_agent.Server.Queue as ServerQueue
use zeromq_agent.Async.{reference}
use zeromq_agent.Async.Queue.{Posts}
use zeromq_agent.Agent.{message_at, iterations_num}
use zeromq_agent.Agent.Callbacks.{print_message, receive_answer, reply_message}
use zeromq_agent.Agent.Posting.{
  Schedule, print_handler, print_rounds, request_handler, send_round, send_rounds, reply_handler,
  reply_handlers, post_handler, post_rounds, worker_runs,
}
use zeromq_agent.Agent.Posting.Counts.{Counts, Counts-impl, Counts-bind, Counts-after, Stale, IsNew}
use zeromq_agent.Agent.Posting.Queue.{
  strand_round, strand_rounds, new_strand, strand_prints, strand_send, strand_sends, strand_replies,
}
use zeromq_agent.Agent.Posting.Queue.Rounds.{
  strand_round-Counts, strand_rounds-Counts, at_end-Counts, AllDead,
}

same : (i : ℕ) → (i == i) ≡ true
same i = ground arith

module _ {z : Zmq} where
  and_then_assoc :
      {A B C : Type 0} (o : Outcome z A) (k : A → M z B) (l : B → M z C)
      → and_then o (λ a m. and_then (k a m) l) ≡ and_then (and_then o k) l
  and_then_assoc (done a m) k l = refl
  and_then_assoc (fault f m) k l = refl
  and_then_assoc (blocked m) k l = refl

  print-IsNew :
      (i : ℕ)
      → IsNew
          (Async.async_receive none)
          (print_handler {z = z} true)
          (print_handler false)
          i
          (λ scope. Async.async_receive (reference (scope.callback i) print_message))
  unfolding print_handler
  print-IsNew i = (rw (same i) refl, refl, λ scope cbk _. rw (cbk i (omega arith)) refl)

  prints-Counts :
      (plan : Schedule) (c : ClientImpl) (m : Machine z)
      → Counts
          (AllDead (Async.async_receive none))
          (post_rounds
            (post_handler (print_handler true) (print_handler false) plan)
            iterations_num
            0
            0
            c
            m)
          (strand_prints plan c m)
  unfolding strand_prints Queue.async_receive print_handler
  prints-Counts plan c m =
      strand_rounds-Counts (Async.async_receive none) _ _
        (λ i p m' stale.
          strand_round-Counts (Async.async_receive none) (print_handler true) (print_handler false)
            refl refl _ plan i p m' stale (print-IsNew i))
        iterations_num 0 (new_strand c) m tt

  reply-IsNew :
      (i : ℕ)
      → IsNew
          (ServerAsync.async_receive none)
          (reply_handler {z = z} true)
          (reply_handler false)
          i
          (λ scope. ServerAsync.async_receive (reference (scope.callback i) reply_message))
  unfolding reply_handler
  reply-IsNew i = (rw (same i) refl, refl, λ scope cbk _. rw (cbk i (omega arith)) refl)

  replies-Counts :
      (plan : Schedule) (s : ServerImpl) (m : Machine z)
      → Counts
          (AllDead (ServerAsync.async_receive none))
          (and_then
            (post_rounds
              (post_handler (reply_handler true) (reply_handler false) plan)
              iterations_num
              0
              0
              s
              m)
            λ (waiting, s'). worker_runs (reply_handler false) plan.at_end waiting s')
          (strand_replies plan s m)
  unfolding strand_replies ServerQueue.async_receive reply_handler
  replies-Counts plan s m =
      Counts-bind (AllDead (ServerAsync.async_receive none))
        (AllDead (ServerAsync.async_receive none)) _
        (strand_rounds (λ i. strand_round (ServerQueue.async_receive i reply_message) plan i)
          iterations_num 0 (new_strand s) m)
        _ _
        (strand_rounds-Counts (ServerAsync.async_receive none) _ _
          (λ i p m' stale.
            strand_round-Counts (ServerAsync.async_receive none) (reply_handler true)
              (reply_handler false) refl refl _ plan i p m' stale (reply-IsNew i))
          iterations_num 0 (new_strand s) m tt)
        λ p m' h.
          at_end-Counts (ServerAsync.async_receive none) (reply_handler false) (λ _. refl)
            plan.at_end p m' h

  request-IsNew :
      (message : SendMessage) (i : ℕ)
      → IsNew
          (Async.async_send none none)
          (request_handler {z = z} message true)
          (request_handler message false)
          i
          (λ scope.
            Async.async_send
              (reference (scope.message i) (send_message message))
              (reference (scope.callback i) receive_answer))
  unfolding request_handler
  request-IsNew message i = (
    rw (same i) refl,
    rw (same i) refl,
    λ scope cbk msg. rw (cbk i (omega arith)) (rw (msg i (omega arith)) refl),
  )

  send-Counts :
      (dist : ℕ → ℕ) (plan : Schedule) (i : ℕ) (p : Posts z ClientImpl) (m : Machine z)
      → All (Stale (Async.async_send none none) i) p.m_rcv_strand
      → Counts
          (All (Stale (Async.async_send none none) (suc i)))
          (send_round dist plan i (length p.m_rcv_strand) p.impl m)
          (strand_send dist plan i p m)
  unfolding send_round strand_send Queue.async_send request_handler
  send-Counts dist plan i p m stale =
      let later = All (Stale (Async.async_send none none) (suc i)) in
      Counts-after later (message_at (dist i) m) _ _ λ text m1.
        Counts-after later (from_string text m1) _ _ λ message m2.
          Counts-bind later later _
            (strand_round (Queue.async_send i (send_message message) receive_answer) plan i p m2) _
            _
            (strand_round-Counts (Async.async_send none none) (request_handler message true)
              (request_handler message false) refl refl _ plan i p m2 stale
              (request-IsNew message i))
            λ p' m3 h. Counts-after later (Message.destroy message m3) _ _ λ _ m4. (refl, h)

  sends-Counts :
      (dist : ℕ → ℕ) (plan : Schedule) (c : ClientImpl) (m : Machine z)
      → Counts
          (AllDead (Async.async_send none none))
          (and_then
            (post_rounds (send_round dist plan) iterations_num 0 0 c m)
            λ (waiting, c'). worker_runs (λ _. Async.async_send none none) plan.at_end waiting c')
          (strand_sends dist plan c m)
  unfolding strand_sends
  sends-Counts dist plan c m =
      let dead = Async.async_send none none in
      Counts-bind (AllDead dead) (AllDead dead) _
        (strand_rounds (strand_send dist plan) iterations_num 0 (new_strand c) m) _ _
        (strand_rounds-Counts dead _ _ (λ i p m' stale. send-Counts dist plan i p m' stale)
          iterations_num 0 (new_strand c) m tt)
        λ p m' h. at_end-Counts dead (λ _. dead) (λ _. refl) plan.at_end p m' h

  -- On an object whose strand is empty, the loops of the three asynchronous modes run the same on the
  -- queue of handlers that the methods post, each with the names of the callback and the message that
  -- it holds, as where only the number of the waiting handlers is kept: for every schedule of the
  -- worker they end in the same way, with the same object.
  pub strands-agree :
      (dist : ℕ → ℕ) (plan : Schedule) (c : ClientImpl) (s : ServerImpl) (m : Machine z)
      → (print_rounds plan c m ≡ and_then (strand_prints plan c m) λ p. pure p.impl)
        × (send_rounds dist plan c m ≡ and_then (strand_sends dist plan c m) λ p. pure p.impl)
        × (reply_handlers plan s m ≡ and_then (strand_replies plan s m) λ p. pure p.impl)
  unfolding print_rounds send_rounds reply_handlers
  strands-agree dist plan c s m = (
    Counts-impl (AllDead (Async.async_receive none)) _ (strand_prints plan c m)
        (prints-Counts plan c m),
    and_then_assoc (post_rounds (send_round dist plan) iterations_num 0 0 c m)
          (λ (waiting, c'). worker_runs (λ _. Async.async_send none none) plan.at_end waiting c')
          (λ r. pure r.1)
        ∙ Counts-impl (AllDead (Async.async_send none none)) _ (strand_sends dist plan c m)
            (sends-Counts dist plan c m),
    and_then_assoc
          (post_rounds (post_handler (reply_handler true) (reply_handler false) plan) iterations_num
            0 0 s m)
          (λ (waiting, s'). worker_runs (reply_handler false) plan.at_end waiting s')
          (λ r. pure r.1)
        ∙ Counts-impl (AllDead (ServerAsync.async_receive none)) _ (strand_replies plan s m)
            (replies-Counts plan s m),
  )

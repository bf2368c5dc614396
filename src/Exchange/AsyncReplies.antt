-- ===== src/Exchange/AsyncReplies.antt =====
-- zeromq_agent.cpp, req_rep_server_async: the texts that it sends.
use zeromq_agent.Base.{
  ℕ, zero, suc, ◌+◌, ◌≡◌, refl, Bool, true, false, some, inl, inr, Bool-cases, [], ◌∷◌,
  if◌then◌else◌, ◌==◌,
}
use zeromq_agent.Base.Int.{is_negative, to_int, to_size}
use zeromq_agent.Memory.{Ptr}
use zeromq_agent.Zmq.{Zmq, zmq_dontwait, Event, Machine, Outcome, and_then, M}
use zeromq_agent.Zmq.Calls.{content}
use zeromq_agent.Zmq.Parts.{same}
use zeromq_agent.Message
use zeromq_agent.Message.{SendMessage, own_message, borrow}
use zeromq_agent.Server.{ServerImpl, publish_message}
use zeromq_agent.Server.Async.{async_receive, server_endpoint}
use zeromq_agent.Async.{eagain, reference, receive_handler, hand_over, closed_after}
use zeromq_agent.Agent.{reply_text, iterations_num}
use zeromq_agent.Agent.Callbacks.{reply_message}
use zeromq_agent.Agent.Posting.{
  Schedule, worker_runs, post_handler, post_rounds, reply_handler, reply_handlers,
}
use zeromq_agent.Agent.Lockstep.{Post, Post-bind, Keeps-destroy}
use zeromq_agent.Exchange.Answers.{Answers, Answered, Replies, May, May-Answers, answer-Replies}
use zeromq_agent.Exchange.Publications.{server_socket, publish-SendsBytes}
use mathlib.Core.List.Sublist

module _ {z : Zmq} (t : Ptr) where
  -- The callback has returned.
  closed_after-Replies :
      (msg : z.Msg) (message : SendMessage) (c : ServerImpl) (m : Machine z)
      → Answered server_socket t c m
      → Replies server_socket t (closed_after msg message c m)
  unfolding closed_after
  closed_after-Replies msg message c m (h, hs) =
      let (rc, w, heap) = z.zmq_msg_close msg m.world m.heap in
      let m' = record m { world = w; heap = heap; trace = Event.msg_closed msg rc ∷ m.trace } in
      Post-bind (λ _ m''. Answers t m''.trace) (Answered server_socket t)
        (λ m''. Answers t m''.trace) (Message.destroy message m') _
        (Keeps-destroy (Answers t) message m' h) λ _ _ h'. (h', hs)

  hand_over-Replies :
      (found : Bool) (msg : z.Msg) (c : ServerImpl) (m : Machine z)
      → May t own_message m.trace
      → c.m_socket ≡ some t
      → Replies server_socket t (hand_over (reference found reply_message) msg c m)
  unfolding hand_over reply_message
  hand_over-Replies false msg c m may hs = May-Answers t own_message m.trace may
  hand_over-Replies true msg c m may hs =
      let message = borrow (z.zmq_msg_data msg) (to_int (z.zmq_msg_size msg)) in
      Post-bind (λ (_, c') m'. Answered server_socket t c' m') (Answered server_socket t)
        (λ m'. Answers t m'.trace) (reply_message message c m) _
        (answer-Replies server_socket t publish_message (λ c'. (message, c')) (λ (_, c'). c')
          (publish-SendsBytes t) (λ _. refl) message.m_data (to_size message.m_size) c m may hs)
        λ (message', c') m' h. closed_after-Replies msg message' c' m' h

  receive_handler-Replies :
      (found : Bool) (c : ServerImpl) (m : Machine z)
      → Answered server_socket t c m
      → Replies server_socket t
          (receive_handler server_endpoint (reference found reply_message) c m)
  unfolding receive_handler
  receive_handler-Replies found c m (h, hs) =
      let (rc, empty, w) = z.zmq_msg_init m.world in
      let (revents, w') = z.zmq_poll (t ∷ []) (λ _. false) w in
      let (n, msg, w'', heap) = z.zmq_msg_recv empty t zmq_dontwait w' m.heap in
      let m' = record m {
        world = w'';
        heap = heap;
        trace =
            Event.msg_received t zmq_dontwait msg (content z msg heap) n
            ∷ Event.polled (t ∷ []) revents
            ∷ Event.msg_made empty rc
            ∷ m.trace;
      } in
      rw hs (elim (Bool-cases (revents 0)) [
        | inr idle ↦ rw idle (h, refl)
        | inl ready ↦ rw ready (elim (Bool-cases (is_negative n)) [
          | inl minus ↦ rw minus (elim (Bool-cases (z.errno w'' == eagain)) [
            | inl nothing ↦ rw nothing (rw minus (h, refl))
            | inr bad ↦ rw bad (rw minus (h, refl))
          ])
          | inr plus ↦ rw plus (
              hand_over-Replies found msg _ m'
                (rw plus (rw (same t) (Sublist.cons-cons (some reply_text) h))) refl)
        ])
      ])

  reply_handler-Replies :
      (in_statement last : Bool) (c : ServerImpl) (m : Machine z)
      → Answered server_socket t c m
      → Replies server_socket t (reply_handler in_statement last c m)
  unfolding reply_handler async_receive
  reply_handler-Replies in_statement last c m h =
      receive_handler-Replies (if in_statement then last else false) c m h

  -- With the number of the handlers that wait.
  abbrev Waits : Outcome z (ℕ × ServerImpl) → Type 0
  Waits = Post (λ (_, c') m'. Answered server_socket t c' m') (λ m'. Answers t m'.trace)

  worker_runs-Waits :
      (in_statement : Bool) (k waiting : ℕ) (c : ServerImpl) (m : Machine z)
      → Answered server_socket t c m
      → Waits (worker_runs (reply_handler in_statement) k waiting c m)
  unfolding worker_runs
  worker_runs-Waits in_statement zero waiting c m h = h
  worker_runs-Waits in_statement (suc k) zero c m h = h
  worker_runs-Waits in_statement (suc k) (suc waiting) c m h =
      Post-bind (Answered server_socket t) (λ (_, c') m'. Answered server_socket t c' m')
        (λ m'. Answers t m'.trace) (reply_handler in_statement (waiting == 0) c m) _
        (reply_handler-Replies in_statement (waiting == 0) c m h)
        λ c' m' h'. worker_runs-Waits in_statement k waiting c' m' h'

  Waits-bind :
      (o : Outcome z (ℕ × ServerImpl)) (k : ℕ × ServerImpl → M z (ℕ × ServerImpl))
      → Waits o
      → ((waiting : ℕ) (c : ServerImpl) (m : Machine z)
          → Answered server_socket t c m
          → Waits (k (waiting, c) m))
      → Waits (and_then o k)
  Waits-bind o k h next =
      Post-bind (λ (_, c') m'. Answered server_socket t c' m') _ (λ m'. Answers t m'.trace) o k h
        λ (waiting, c) m' h'. next waiting c m' h'

  post_rounds-Waits :
      (plan : Schedule) (n i waiting : ℕ) (c : ServerImpl) (m : Machine z)
      → Answered server_socket t c m
      → Waits (
          post_rounds
            (post_handler (reply_handler true) (reply_handler false) plan)
            n
            i
            waiting
            c
            m)
  unfolding post_rounds post_handler
  post_rounds-Waits plan zero i waiting c m h = h
  post_rounds-Waits plan (suc n) i waiting c m h =
      Waits-bind (post_handler (reply_handler true) (reply_handler false) plan i waiting c m) _
        (Waits-bind (worker_runs (reply_handler true) (plan.within i) (suc waiting) c m) _
          (worker_runs-Waits true (plan.within i) (suc waiting) c m h)
          (worker_runs-Waits false (plan.after i)))
        (post_rounds-Waits plan n (i + 1))

  -- On a bound server: if `req_rep_server_async` has sent at most one reply for each text that arrived,
  -- and nothing else, then this is so after its loop and while it waits for a character, whatever the
  -- worker thread runs and when, also where the run ends in a fault. It does not block.
  pub reply_handlers-Replies :
      (plan : Schedule) (c : ServerImpl) (m : Machine z)
      → Answered server_socket t c m
      → Replies server_socket t (reply_handlers plan c m)
  unfolding reply_handlers
  reply_handlers-Replies plan c m h =
      let answered = λ (r : ℕ × ServerImpl) (m' : Machine z). Answered server_socket t r.1 m' in
      Post-bind answered (Answered server_socket t) (λ m'. Answers t m'.trace)
        (post_rounds (post_handler (reply_handler true) (reply_handler false) plan) iterations_num 0
          0 c m)
        _ (post_rounds-Waits plan iterations_num 0 0 c m h)
        λ (waiting, c') m' h'.
          Post-bind answered (Answered server_socket t) (λ m''. Answers t m''.trace)
            (worker_runs (reply_handler false) plan.at_end waiting c' m') _
            (worker_runs-Waits false plan.at_end waiting c' m' h') λ _ _ h''. h''

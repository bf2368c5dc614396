-- ===== src/Exchange/AsyncRounds.antt =====
-- zeromq_agent.cpp, req_rep_client_async: the texts that its rounds send.
use zeromq_agent.Base.{
  ℕ, zero, suc, ◌+◌, sym, subst, true, false, Option, none, some, inl, inr, get_elem?, Option-cases,
  List, ◌∷◌, Sublist,
}
use zeromq_agent.Memory.{Ptr, Bytes}
use zeromq_agent.Zmq.{Zmq, Machine, Outcome}
use zeromq_agent.Zmq.Laws.{Refers}
use zeromq_agent.Message
use zeromq_agent.Message.{
  SendMessage, Status, Received, IMessage, send_message, from_string, get_data, get_size,
}
use zeromq_agent.Message.Build.{from_string-Built, read-Built}
use zeromq_agent.Client.{ClientImpl}
use zeromq_agent.Agent.{messages, message_at, iterations_num}
use zeromq_agent.Client.Async
use zeromq_agent.Async.{send_handler}
use zeromq_agent.Agent.Posting.{
  Schedule, worker_runs, post_handler, post_rounds, request_handler, send_round, send_rounds,
}
use zeromq_agent.Agent.Lockstep.{Post, Post-bind, Keeps-destroy}
use zeromq_agent.Agent.Requests.{Wraps}
use zeromq_agent.Exchange.{texts_sent, picked, picked-Sublist}
use zeromq_agent.Exchange.Ends.{SentOf, Post-weaken, messages-short}
use mathlib.Core.List.Sublist
use zeromq_agent.Exchange.AsyncRequests.{Keeping, Pending, worker_runs-Pending}

module _ {z : Zmq} (s : Ptr) where
  -- After a round that was run on a client whose texts are among `v`.
  abbrev Round : List (Option Bytes) → Outcome z (ℕ × ClientImpl) → Type 0
  Round v = Post (λ (_, c') m'. Keeping s v c' m') (SentOf s v)

  Pending-Keeping :
      (message : SendMessage) (text : Bytes) (v : List (Option Bytes)) (waiting : ℕ)
      (c : ClientImpl) (m : Machine z)
      → Pending s message text v waiting c m
      → Keeping s (some text ∷ v) c m
  Pending-Keeping message text v zero c m h = h
  Pending-Keeping message text v (suc w) c m ((h, hs), _) = (Sublist.cons (some text) h, hs)

  send_round-Round :
      (wraps : Wraps z) (refers : Refers z) (dist : ℕ → ℕ) (plan : Schedule) (i waiting : ℕ)
      (v : List (Option Bytes)) (c : ClientImpl) (m : Machine z)
      → Keeping s v c m
      → Round (get_elem? messages (dist i) ∷ v) (send_round dist plan i waiting c m)
  unfolding send_round message_at post_handler get_data get_size
  send_round-Round wraps refers dist plan i waiting v c m (h, hs) =
      elim (Option-cases (get_elem? messages (dist i))) [
        | inl missing ↦ rw missing (Sublist.cons none h)
        | inr (text, there) ↦
            let u = some text ∷ v in
            let (message, m1, built, b) =
              from_string-Built text m (messages-short (dist i) text there) in
            let pending =
              λ (r : ℕ × ClientImpl) (m' : Machine z). Pending s message text v r.0 r.1 m' in
            let quiet = subst (λ trace. Sublist (texts_sent s trace) v) (sym b.trace) h in
            rw there (
              rw built (
                Post-bind pending (λ (_, c') m'. Keeping s u c' m') (SentOf s u)
                  (post_handler (request_handler message true) (request_handler message false) plan
                    i waiting c m1)
                  _
                  (Post-bind pending pending (SentOf s u)
                    (worker_runs (request_handler message true) (plan.within i) (suc waiting) c m1)
                    _
                    (worker_runs-Pending s wraps refers message text v true (plan.within i)
                      (suc waiting) c m1 ((quiet, hs), (read-Built b).0))
                    λ (waiting', c') m'.
                      worker_runs-Pending s wraps refers message text v false (plan.after i)
                        waiting' c' m')
                  λ (waiting', c') m' h'.
                    let (kept, hs') = Pending-Keeping message text v waiting' c' m' h' in
                    Post-bind (λ _ m''. SentOf s u m'') (λ (_, c'') m''. Keeping s u c'' m'')
                      (SentOf s u) (Message.destroy message m') _
                      (Keeps-destroy (λ trace. Sublist (texts_sent s trace) u) message m' kept)
                      λ _ m'' kept'. (kept', hs')))
      ]

  post_rounds-Round :
      (wraps : Wraps z) (refers : Refers z) (dist : ℕ → ℕ) (plan : Schedule) (n i waiting : ℕ)
      (v : List (Option Bytes)) (c : ClientImpl) (m : Machine z)
      → Keeping s v c m
      → Round (picked dist n i v) (post_rounds (send_round dist plan) n i waiting c m)
  unfolding post_rounds picked
  post_rounds-Round wraps refers dist plan zero i waiting v c m h = h
  post_rounds-Round wraps refers dist plan (suc n) i waiting v c m h =
      let first = get_elem? messages (dist i) ∷ v in
      let u = picked dist n (i + 1) first in
      Post-bind (λ (_, c') m'. Keeping s first c' m') (λ (_, c') m'. Keeping s u c' m') (SentOf s u)
        (send_round dist plan i waiting c m) _
        (Post-weaken (λ (_, c') m'. Keeping s first c' m') (SentOf s first) (SentOf s u)
          (send_round dist plan i waiting c m)
          (send_round-Round wraps refers dist plan i waiting v c m h)
          (λ m' sent. Sublist.trans sent (picked-Sublist dist n (i + 1) first)))
        λ (waiting', c') m' h'.
          post_rounds-Round wraps refers dist plan n (i + 1) waiting' first c' m' h'

  -- A handler that runs after the last round finds its message ended, and sends nothing.
  ended-Keeping :
      (k waiting : ℕ) (u : List (Option Bytes)) (c : ClientImpl) (m : Machine z)
      → Keeping s u c m
      → Post
          (λ (_, c') m'. Keeping s u c' m')
          (SentOf s u)
          (worker_runs (λ _. Async.async_send none none) k waiting c m)
  unfolding worker_runs Async.async_send send_handler
  ended-Keeping zero waiting u c m h = h
  ended-Keeping (suc k) zero u c m h = h
  ended-Keeping (suc k) (suc waiting) u c m (sent, _) = sent

  -- On a connected client, and with a library that makes messages which refer to the caller's bytes:
  -- whatever the worker thread runs and when, the loop of `req_rep_client_async` sends some of the
  -- messages that the generator picks, each at most once for the round that picked it, in order and
  -- byte by byte, also where it ends in a fault. It does not block.
  pub send_rounds-Keeping :
      (wraps : Wraps z) (refers : Refers z) (dist : ℕ → ℕ) (plan : Schedule)
      (v : List (Option Bytes)) (c : ClientImpl) (m : Machine z)
      → Keeping s v c m
      → let u = picked dist iterations_num 0 v in
        Post (Keeping s u) (SentOf s u) (send_rounds dist plan c m)
  unfolding send_rounds
  send_rounds-Keeping wraps refers dist plan v c m h =
      let u = picked dist iterations_num 0 v in
      Post-bind (λ (_, c') m'. Keeping s u c' m') (Keeping s u) (SentOf s u)
        (post_rounds (send_round dist plan) iterations_num 0 0 c m) _
        (post_rounds-Round wraps refers dist plan iterations_num 0 0 v c m h)
        λ (waiting, c') m' h'.
          Post-bind (λ (_, c'') m''. Keeping s u c'' m'') (Keeping s u) (SentOf s u)
            (worker_runs (λ _. Async.async_send none none) plan.at_end waiting c' m') _
            (ended-Keeping plan.at_end waiting u c' m' h') λ _ _ h''. h''

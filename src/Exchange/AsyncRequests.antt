-- ===== src/Exchange/AsyncRequests.antt =====
-- zeromq_agent.cpp, req_rep_client_async: the texts that its handlers send.
use zeromq_agent.Base.{
  ℕ, zero, suc, ◌≡◌, refl, sym, subst, Bool, true, false, Option, some, List, ◌∷◌, Sublist,
  if◌then◌else◌, ◌==◌, arith,
}
use zeromq_agent.Base.Int.{to_size}
use zeromq_agent.Memory.{Ptr, Bytes, read}
use zeromq_agent.Zmq.{Zmq, zmq_dontwait, Machine, ◌>>=◌}
use zeromq_agent.Zmq.Laws.{Refers}
use zeromq_agent.Message.{SendMessage, Status, send_message, get_data, get_size}
use zeromq_agent.Client.{ClientImpl, send_worker, receive}
use zeromq_agent.Client.Async.{async_send}
use zeromq_agent.Async.{reference, referred, send_handler}
use zeromq_agent.Agent.{show_message}
use zeromq_agent.Agent.Callbacks.{receive_answer}
use zeromq_agent.Agent.Posting.{worker_runs, request_handler}
use zeromq_agent.Agent.Lockstep.{Post, Post-bind}
use zeromq_agent.Agent.Requests.{Wraps}
use zeromq_agent.Exchange.{texts_sent}
use zeromq_agent.Exchange.Ends.{SentOf, TakesOne, Post-weaken, Post-mono, Adds, Takes}
use zeromq_agent.Exchange.Requests.{
  client_socket, send_worker-SendsBytes, receive-Takes, Keeps-show,
}
use mathlib.Core.List.Sublist

more_wait : (w : ℕ) → (suc w == 0) ≡ false
more_wait w = ground arith

module _ {z : Zmq} (s : Ptr) where
  -- A client on the socket, whose texts are among `v`.
  abbrev pub Keeping : List (Option Bytes) → ClientImpl → Machine z → Type 0
  Keeping v c m = SentOf s v m × (c.m_socket ≡ some s)

  -- While a handler waits the message is there, and it is not sent yet.
  abbrev pub Pending :
      SendMessage → Bytes → List (Option Bytes) → ℕ → ClientImpl → Machine z → Type 0
  Pending message text v zero c m = Keeping (some text ∷ v) c m
  Pending message text v (suc _) c m =
      Keeping v c m
      × (read (get_data (send_message message)) (to_size (get_size (send_message message))) m.heap
          ≡ some text)

  receive_answer-Keeping :
      (v : List (Option Bytes)) (status : Status) (c : ClientImpl) (m : Machine z)
      → Keeping v c m
      → Post (Keeping v) (SentOf s v) (receive_answer status c m)
  unfolding receive_answer
  receive_answer-Keeping v status c m (h, hs) =
      Post-bind (Takes client_socket s m) (Keeping v) (SentOf s v) (receive c m) _
        (Post-weaken (Takes client_socket s m) (TakesOne s m) (SentOf s v) (receive c m)
          (receive-Takes s c m hs) (λ m' (e, _). subst (λ xs. Sublist xs v) (sym e) h))
        λ (got, c') m1 (e, _, hs').
          Post-bind (λ _ m'. SentOf s v m') (Keeping v) (SentOf s v)
            (show_message got c'.m_message m1) _
            (Keeps-show (λ trace. Sublist (texts_sent s trace) v) got c'.m_message m1
              (subst (λ xs. Sublist xs v) (sym e) h))
            λ _ m2 h'. (h', hs')

  callback-Keeping :
      (v : List (Option Bytes)) (in_statement : Bool) (status : Status) (c : ClientImpl)
      (m : Machine z)
      → Keeping v c m
      → Post (Keeping v) (SentOf s v) (
          (referred (reference (if in_statement then true else false) receive_answer) >>= λ call.
          call status c)
            m)
  callback-Keeping v true status c m h = receive_answer-Keeping v status c m h
  callback-Keeping v false status c m h = h.0

  -- The last handler that waits sends the message; another finds it ended.
  request_handler-Keeping :
      (wraps : Wraps z) (refers : Refers z) (message : SendMessage) (text : Bytes)
      (v : List (Option Bytes)) (in_statement last : Bool) (c : ClientImpl) (m : Machine z)
      → Pending message text v 1 c m
      → Post
          (Keeping (some text ∷ v))
          (SentOf s (some text ∷ v))
          (request_handler message in_statement last c m)
  unfolding request_handler async_send send_handler
  request_handler-Keeping wraps refers message text v in_statement false c m ((h, hs), there) =
      Sublist.cons (some text) h
  request_handler-Keeping wraps refers message text v in_statement true c m ((h, hs), there) =
      let u = some text ∷ v in
      Post-bind (λ (_, c') m'. Keeping u c' m') (Keeping u) (SentOf s u)
        (send_worker c (send_message message) zmq_dontwait m) _
        (Post-mono (Adds client_socket s text m) (λ (_, c') m'. Keeping u c' m') (λ _. ⊥)
          (SentOf s u) (send_worker c (send_message message) zmq_dontwait m)
          (send_worker-SendsBytes s zmq_dontwait (λ _ _. refl) wraps refers c (send_message message)
            text m hs there)
          (λ (_, c') m' (e, _, hs').
            (subst (λ xs. Sublist xs u) (sym e) (Sublist.cons-cons (some text) h), hs'))
          (λ _ none. absurd none))
        λ (status, c') m' h'. callback-Keeping u in_statement status c' m' h'

  -- Another handler than the last finds the message ended.
  early-fault :
      (message : SendMessage) (v : List (Option Bytes)) (in_statement : Bool) (c : ClientImpl)
      (m : Machine z)
      → SentOf s v m
      → Post (λ _ _. ⊥) (SentOf s v) (request_handler message in_statement false c m)
  unfolding request_handler async_send send_handler
  early-fault message v in_statement c m h = h

  pub worker_runs-Pending :
      (wraps : Wraps z) (refers : Refers z) (message : SendMessage) (text : Bytes)
      (v : List (Option Bytes)) (in_statement : Bool) (k waiting : ℕ) (c : ClientImpl)
      (m : Machine z)
      → Pending message text v waiting c m
      → Post
          (λ (waiting', c') m'. Pending message text v waiting' c' m')
          (SentOf s (some text ∷ v))
          (worker_runs (request_handler message in_statement) k waiting c m)
  unfolding worker_runs
  worker_runs-Pending wraps refers message text v in_statement zero waiting c m h = h
  worker_runs-Pending wraps refers message text v in_statement (suc k) zero c m h = h
  worker_runs-Pending wraps refers message text v in_statement (suc k) (suc zero) c m h =
      Post-bind (Keeping (some text ∷ v))
        (λ (waiting', c') m'. Pending message text v waiting' c' m') (SentOf s (some text ∷ v))
        (request_handler message in_statement true c m) _
        (request_handler-Keeping wraps refers message text v in_statement true c m h)
        λ c' m' h'. worker_runs-Pending wraps refers message text v in_statement k zero c' m' h'
  worker_runs-Pending wraps refers message text v in_statement (suc k) (suc (suc w)) c m h =
      let u = some text ∷ v in
      rw (more_wait w) (
        Post-bind (λ _ _. ⊥) (λ (waiting', c') m'. Pending message text v waiting' c' m')
          (SentOf s u) (request_handler message in_statement false c m) _
          (Post-weaken (λ _ _. ⊥) (SentOf s v) (SentOf s u)
            (request_handler message in_statement false c m)
            (early-fault message v in_statement c m h.0.0) (λ m'. Sublist.cons (some text)))
          λ _ _ none. absurd none)

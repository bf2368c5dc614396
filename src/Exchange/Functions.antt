-- ===== src/Exchange/Functions.antt =====
-- zeromq_agent.cpp: all that the blocking and the asynchronous clients and servers send, from the
-- creation of the object to its destruction.
use zeromq_agent.Base.{ℕ, String, ◌≡◌, refl, subst, Bool, some, Option, List, [], Sublist}
use zeromq_agent.Memory.{Ptr, Bytes}
use zeromq_agent.Zmq.{Zmq, zmq_req, zmq_rep, Event, Machine, M, ◌>>=◌}
use zeromq_agent.Zmq.Laws.{Refers}
use zeromq_agent.Zmq.Parts.{calls_of}
use zeromq_agent.Message.{request, reply}
use zeromq_agent.Client.{ClientImpl}
use zeromq_agent.Agent.Posting.{
  Schedule, send_rounds, req_rep_client_async, reply_handlers, req_rep_server_async,
}
use zeromq_agent.Exchange.AsyncRequests.{Keeping}
use zeromq_agent.Exchange.AsyncRounds.{send_rounds-Keeping}
use zeromq_agent.Exchange.AsyncReplies.{reply_handlers-Replies}
use zeromq_agent.Exchange.Publications.{server_socket}
use zeromq_agent.Server
use zeromq_agent.Server.{ServerImpl}
use zeromq_agent.Exchange.WholeServer.{server-Within}
use zeromq_agent.Agent.{reply_rounds, req_rep_server, run_server}
use zeromq_agent.Agent.{request_rounds, work_rounds, req_rep_client, req_rep_worker, iterations_num}
use zeromq_agent.Agent.Lockstep.{Post}
use zeromq_agent.Agent.Requests.{Wraps}
use zeromq_agent.Exchange.{texts_sent, texts_arrived, picked, replies}
use zeromq_agent.Exchange.Ends.{Sent, SentOf, eq-SentOf, Post-mono}
use zeromq_agent.Exchange.Answers.{Answers, Answered, Replies}
use zeromq_agent.Exchange.Requests.{client_socket, request_rounds-Sent}
use zeromq_agent.Exchange.Replies.{work_rounds-Replies, reply_rounds-Replies}
use zeromq_agent.Exchange.Runs.{Within, Post-Within, IgnoresOthers}
use zeromq_agent.Exchange.Whole.{new_socket, client-Within}
use mathlib.Core.List.Sublist
use mathlib.Core.List.{nil-sublist}

module _ {z : Zmq} (s : Ptr) where
  abbrev pub Silent : List (Event z) → Type 0
  Silent trace = texts_sent s trace ≡ []

  abbrev pub SendsPart : List (Option Bytes) → List (Event z) → Type 0
  SendsPart v trace = Sublist (texts_sent s trace) v

  -- What is said of the texts alone.
  pub texts-IgnoresOthers :
      (P : List (Option Bytes) → List (Option Bytes) → Type 0)
      → IgnoresOthers {z = z} λ trace. P (texts_sent s trace) (texts_arrived s trace)
  texts-IgnoresOthers P = record {
    made = λ _ _ h. h;
    opened = λ _ _ _ _ h. h;
    connected = λ _ _ _ _ h. h;
    filtered = λ _ _ _ h. h;
    bound = λ _ _ _ _ h. h;
    closed = λ _ _ _ h. h;
    destroyed = λ _ _ _ h. h;
  }

  pub Silent-SendsPart :
      (v : List (Option Bytes)) (trace : List (Event z)) → Silent trace → SendsPart v trace
  Silent-SendsPart v trace h = rw h (nil-sublist v)

  rounds-Within :
      (wraps : Wraps z) (refers : Refers z) (dist : ℕ → ℕ) (n : ℕ) (c : ClientImpl) (m : Machine z)
      → Silent m.trace
      → c.m_socket ≡ some s
      → let v = picked dist n 0 [] in
        Within (λ _ m'. SendsPart v m'.trace) (SendsPart v) (request_rounds dist n 0 c m)
  rounds-Within wraps refers dist n c m silent hs =
      let v = picked dist n 0 [] in
      let sent =
        subst
          (λ old.
            let u = picked dist n 0 old in
            Post (Sent client_socket s u) (SentOf s u) (request_rounds dist n 0 c m))
          silent (request_rounds-Sent s wraps refers dist n 0 c m hs) in
      Post-Within (λ _ m'. SendsPart v m'.trace) (SendsPart v) (request_rounds dist n 0 c m)
        (Post-mono (Sent client_socket s v) (λ _ m'. SendsPart v m'.trace) (SentOf s v) (SentOf s v)
          (request_rounds dist n 0 c m) sent (λ _ m' (e, _). eq-SentOf s v m' e) (λ _ h. h))

  work-Within :
      (wraps : Wraps z) (refers : Refers z) (n : ℕ) (c : ClientImpl) (m : Machine z)
      → Answers s m.trace
      → c.m_socket ≡ some s
      → Within (λ _ m'. Answers s m'.trace) (Answers s) (work_rounds n c m)
  work-Within wraps refers n c m h hs =
      Post-Within (λ _ m'. Answers s m'.trace) (Answers s) (work_rounds n c m)
        (Post-mono (Answered client_socket s) (λ _ m'. Answers s m'.trace)
          (λ m'. Answers s m'.trace) (λ m'. Answers s m'.trace) (work_rounds n c m)
          (work_rounds-Replies s wraps refers n c m h hs) (λ _ _ (k, _). k) (λ _ k. k))

module _ {z : Zmq} where
  -- All that `req_rep_client` sends.
  pub client-Sends :
      (wraps : Wraps z) (refers : Refers z) (dist : ℕ → ℕ) (started : Bool) (url : String)
      (m : Machine z)
      → m.trace ≡ []
      → Sublist
          (texts_sent (new_socket z zmq_req m) (calls_of (req_rep_client dist started url m)))
          (picked dist iterations_num 0 [])
  unfolding req_rep_client
  client-Sends wraps refers dist started url m fresh =
      let s = new_socket z zmq_req m in
      let v = picked dist iterations_num 0 [] in
      client-Within (Silent s) (SendsPart s v) (texts-IgnoresOthers s λ sent _. sent ≡ [])
        (texts-IgnoresOthers s λ sent _. Sublist sent v) (Silent-SendsPart s v) request started url
        (request_rounds dist iterations_num 0) m (rounds-Within s wraps refers dist iterations_num)
        (rw fresh refl)

  async_rounds-Within :
      (s : Ptr) (wraps : Wraps z) (refers : Refers z) (dist : ℕ → ℕ) (plan : Schedule)
      (c : ClientImpl) (m : Machine z)
      → Silent s m.trace
      → c.m_socket ≡ some s
      → let v = picked dist iterations_num 0 [] in
        Within (λ _ m'. SendsPart s v m'.trace) (SendsPart s v) (send_rounds dist plan c m)
  async_rounds-Within s wraps refers dist plan c m silent hs =
      let v = picked dist iterations_num 0 [] in
      Post-Within (λ _ m'. SendsPart s v m'.trace) (SendsPart s v) (send_rounds dist plan c m)
        (Post-mono (Keeping s v) (λ _ m'. SendsPart s v m'.trace) (SentOf s v) (SentOf s v)
          (send_rounds dist plan c m)
          (send_rounds-Keeping s wraps refers dist plan [] c m
            (Silent-SendsPart s [] m.trace silent, hs))
          (λ _ m' (h, _). h) (λ _ h. h))

  -- All that `req_rep_client_async` sends.
  pub async_client-Sends :
      (wraps : Wraps z) (refers : Refers z) (dist : ℕ → ℕ) (plan : Schedule) (started : Bool)
      (url : String) (m : Machine z)
      → m.trace ≡ []
      → Sublist
          (texts_sent
            (new_socket z zmq_req m)
            (calls_of (req_rep_client_async dist plan started url m)))
          (picked dist iterations_num 0 [])
  unfolding req_rep_client_async
  async_client-Sends wraps refers dist plan started url m fresh =
      let s = new_socket z zmq_req m in
      let v = picked dist iterations_num 0 [] in
      client-Within (Silent s) (SendsPart s v) (texts-IgnoresOthers s λ sent _. sent ≡ [])
        (texts-IgnoresOthers s λ sent _. Sublist sent v) (Silent-SendsPart s v) request started url
        (send_rounds dist plan) m (async_rounds-Within s wraps refers dist plan) (rw fresh refl)

  -- All that `req_rep_worker` sends.
  pub worker-Sends :
      (wraps : Wraps z) (refers : Refers z) (started : Bool) (url : String) (m : Machine z)
      → m.trace ≡ []
      → Answers (new_socket z zmq_rep m) (calls_of (req_rep_worker started url m))
  unfolding req_rep_worker
  worker-Sends wraps refers started url m fresh =
      let t = new_socket z zmq_rep m in
      let answered = λ (sent arrived : List (Option Bytes)). Sublist sent (replies arrived) in
      client-Within (Answers t) (Answers t) (texts-IgnoresOthers t answered)
        (texts-IgnoresOthers t answered) (λ _ h. h) reply started url (work_rounds iterations_num) m
        (work-Within t wraps refers iterations_num) (rw fresh (Sublist.refl []))

  Answers-Within :
      (t : Ptr) (work : ServerImpl → M z ServerImpl) (c : ServerImpl) (m : Machine z)
      → Replies server_socket t (work c m)
      → Within (λ _ m'. Answers t m'.trace) (Answers t) (work c m)
  Answers-Within t work c m h =
      Post-Within (λ _ m'. Answers t m'.trace) (Answers t) (work c m)
        (Post-mono (Answered server_socket t) (λ _ m'. Answers t m'.trace)
          (λ m'. Answers t m'.trace) (λ m'. Answers t m'.trace) (work c m) h (λ _ _ (k, _). k)
          (λ _ k. k))

  server-Answers :
      (started : Bool) (url : String) (work : ServerImpl → M z ServerImpl) (m : Machine z)
      → m.trace ≡ []
      → ((c : ServerImpl) (m' : Machine z)
          → Answered server_socket (new_socket z zmq_rep m) c m'
          → Replies server_socket (new_socket z zmq_rep m) (work c m'))
      → Answers
          (new_socket z zmq_rep m)
          (calls_of ((Server.create reply >>= λ c. run_server started c url work) m))
  server-Answers started url work m fresh works =
      let t = new_socket z zmq_rep m in
      let answered = λ (sent arrived : List (Option Bytes)). Sublist sent (replies arrived) in
      server-Within (Answers t) (Answers t) (texts-IgnoresOthers t answered)
        (texts-IgnoresOthers t answered) (λ _ h. h) reply started url work m
        (λ c m' h hs. Answers-Within t work c m' (works c m' (h, hs))) (rw fresh (Sublist.refl []))

  -- All that `req_rep_server` and `req_rep_server_async` send.
  pub server-Sends :
      (started : Bool) (url : String) (m : Machine z)
      → m.trace ≡ []
      → Answers (new_socket z zmq_rep m) (calls_of (req_rep_server started url m))
  unfolding req_rep_server
  server-Sends started url m fresh =
      server-Answers started url (reply_rounds iterations_num) m fresh
        λ c m' (h, hs). reply_rounds-Replies (new_socket z zmq_rep m) iterations_num c m' h hs

  pub async_server-Sends :
      (plan : Schedule) (started : Bool) (url : String) (m : Machine z)
      → m.trace ≡ []
      → Answers (new_socket z zmq_rep m) (calls_of (req_rep_server_async plan started url m))
  unfolding req_rep_server_async
  async_server-Sends plan started url m fresh =
      server-Answers started url (reply_handlers plan) m fresh
        (reply_handlers-Replies (new_socket z zmq_rep m) plan)

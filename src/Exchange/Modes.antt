-- ===== src/Exchange/Modes.antt =====
-- zeromq_agent.cpp, main: the modes that send requests and those that answer them.
use zeromq_agent.Base.{String, ◌≡◌, ◌⊎◌, inl, inr, refl, sym, subst, some, [], Sublist}
use zeromq_agent.Base.Int.{ℤ, pos}
use zeromq_agent.Zmq.{Zmq, zmq_req, zmq_rep, Machine, Outcome, done, fault, blocked, and_then, pure}
use zeromq_agent.Zmq.Laws.{Refers}
use zeromq_agent.Zmq.Parts.{calls_of}
use zeromq_agent.Agent.{req_rep_client, req_rep_server, req_rep_worker, iterations_num}
use zeromq_agent.Agent.Posting.{req_rep_client_async, req_rep_server_async}
use zeromq_agent.Agent.Main.{
  Setting, main, dispatch, run_mode, mode_of, end_point, end_point_front_end, end_point_server,
}
use zeromq_agent.Agent.Requests.{Wraps}
use zeromq_agent.Exchange.{texts_sent, picked}
use zeromq_agent.Exchange.Answers.{Answers}
use zeromq_agent.Exchange.Whole.{new_socket}
use zeromq_agent.Exchange.Functions.{
  client-Sends, async_client-Sends, worker-Sends, server-Sends, async_server-Sends,
}

-- The arguments of `main` for the two clients that send requests, and for the two servers that answer
-- them.
abbrev pub IsRequester : String → Type 0
IsRequester arg = (arg ≡ "client") ⊎ (arg ≡ "client_req_async")

abbrev pub IsReplier : String → Type 0
IsReplier arg = (arg ≡ "server") ⊎ (arg ≡ "server_req_async")

module _ {z : Zmq} where
  -- `main` ignores what the branch of a mode returns.
  then_zero : (o : Outcome z ℤ) → calls_of (and_then o λ _. pure (pos 0)) ≡ calls_of o
  then_zero (done _ _) = refl
  then_zero (fault _ _) = refl
  then_zero (blocked _) = refl

  pub worker_main :
      (wraps : Wraps z) (refers : Refers z) (t : Setting) (m : Machine z)
      → m.trace ≡ []
      → Answers (new_socket z zmq_rep m) (calls_of (main t (some "worker") m))
  unfolding main dispatch run_mode mode_of
  worker_main wraps refers t m fresh =
      rw (then_zero (req_rep_worker t.started end_point_front_end m))
        (worker-Sends wraps refers t.started end_point_front_end m fresh)

  -- All that `main` sends for a client that sends requests.
  abbrev pub Requests : Setting → Machine z → String → Type 0
  Requests t m arg =
      Sublist (texts_sent (new_socket z zmq_req m) (calls_of (main t (some arg) m)))
        (picked t.dist iterations_num 0 [])

  client_main :
      (wraps : Wraps z) (refers : Refers z) (t : Setting) (m : Machine z)
      → m.trace ≡ []
      → Requests t m "client"
  unfolding main dispatch run_mode mode_of
  client_main wraps refers t m fresh =
      rw (then_zero (req_rep_client t.dist t.started end_point m))
        (client-Sends wraps refers t.dist t.started end_point m fresh)

  async_client_main :
      (wraps : Wraps z) (refers : Refers z) (t : Setting) (m : Machine z)
      → m.trace ≡ []
      → Requests t m "client_req_async"
  unfolding main dispatch run_mode mode_of
  async_client_main wraps refers t m fresh =
      rw (then_zero (req_rep_client_async t.dist t.plan t.started end_point m))
        (async_client-Sends wraps refers t.dist t.plan t.started end_point m fresh)

  -- With the argument "client" or "client_req_async", from the start of the process, and with a
  -- library that makes every message for a caller's bytes and refers to them: the texts that
  -- `main` gives to `zmq_msg_send` on the client's socket, each with the bytes that stand in the
  -- message's buffer at that call, are some of the messages that the generator picks in its 100
  -- rounds, in that order, each at most once for the round that picked it. This is so however the
  -- run ends, and for every choice of the handlers that the worker runs between the statements of
  -- the main thread, each of them as a whole.
  pub main-Requests :
      (wraps : Wraps z) (refers : Refers z) (arg : String) (t : Setting) (m : Machine z)
      → IsRequester arg
      → m.trace ≡ []
      → Requests t m arg
  main-Requests wraps refers arg t m (inl e) fresh =
      subst (Requests t m) (sym e) (client_main wraps refers t m fresh)
  main-Requests wraps refers arg t m (inr e) fresh =
      subst (Requests t m) (sym e) (async_client_main wraps refers t m fresh)

  -- All that `main` sends for a server that answers.
  abbrev pub Repliers : Setting → Machine z → String → Type 0
  Repliers t m arg = Answers (new_socket z zmq_rep m) (calls_of (main t (some arg) m))

  server_main : (t : Setting) (m : Machine z) → m.trace ≡ [] → Repliers t m "server"
  unfolding main dispatch run_mode mode_of
  server_main t m fresh =
      rw (then_zero (req_rep_server t.started end_point_server m))
        (server-Sends t.started end_point_server m fresh)

  async_server_main : (t : Setting) (m : Machine z) → m.trace ≡ [] → Repliers t m "server_req_async"
  unfolding main dispatch run_mode mode_of
  async_server_main t m fresh =
      rw (then_zero (req_rep_server_async t.plan t.started end_point_server m))
        (async_server-Sends t.plan t.started end_point_server m fresh)

  -- With the argument "server" or "server_req_async", from the start of the process, and with any
  -- library: what `main` gives to `zmq_send` on the server's socket is the reply text alone, at
  -- most once for each message that arrived there. This is so however the run ends, and for every
  -- choice of the handlers that the worker runs between the statements of the main thread, each of
  -- them as a whole.
  pub main-Answers :
      (arg : String) (t : Setting) (m : Machine z) → IsReplier arg → m.trace ≡ [] → Repliers t m arg
  main-Answers arg t m (inl e) fresh = subst (Repliers t m) (sym e) (server_main t m fresh)
  main-Answers arg t m (inr e) fresh = subst (Repliers t m) (sym e) (async_server_main t m fresh)

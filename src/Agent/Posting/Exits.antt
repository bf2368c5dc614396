-- ===== src/Agent/Posting/Exits.antt =====
-- zeromq_agent.cpp: how the functions end that post a handler in each round.
use zeromq_agent.Base.{ℕ, zero, suc, ◌+◌, Bool, ◌==◌}
use zeromq_agent.Zmq.{Zmq, Machine, M}
use zeromq_agent.Agent.Posting.{Schedule, worker_runs, post_handler, post_rounds}
use zeromq_agent.Agent.Returns.{Lasts, Lasts-bind}

abbrev pub Second : {I : Type 0} → (I → Type 0) → ℕ × I → Type 0
Second P (_, c) = P c

module _ {z : Zmq} {I : Type 0} (P : I → Type 0) where
  -- What a handler of either kind keeps.
  abbrev pub Handles : (Bool → I → M z I) → Type 0
  Handles handler = (last : Bool) (c : I) (m : Machine z) → P c → Lasts P (handler last c m)

  pub worker_runs-Lasts :
      (handler : Bool → I → M z I) (k waiting : ℕ) (c : I) (m : Machine z)
      → Handles handler
      → P c
      → Lasts (Second P) (worker_runs handler k waiting c m)
  unfolding worker_runs
  worker_runs-Lasts handler zero waiting c m handles h = h
  worker_runs-Lasts handler (suc k) zero c m handles h = h
  worker_runs-Lasts handler (suc k) (suc waiting) c m handles h =
      Lasts-bind P (Second P) (handler (waiting == 0) c m) _ (handles (waiting == 0) c m h)
        λ c' h' m'. worker_runs-Lasts handler k waiting c' m' handles h'

  pub post_handler-Lasts :
      (during afterwards : Bool → I → M z I) (plan : Schedule) (i waiting : ℕ) (c : I)
      (m : Machine z)
      → Handles during
      → Handles afterwards
      → P c
      → Lasts (Second P) (post_handler during afterwards plan i waiting c m)
  unfolding post_handler
  post_handler-Lasts during afterwards plan i waiting c m first second h =
      Lasts-bind (Second P) (Second P) (worker_runs during (plan.within i) (suc waiting) c m) _
        (worker_runs-Lasts during (plan.within i) (suc waiting) c m first h)
        λ (waiting', c') h' m'. worker_runs-Lasts afterwards (plan.after i) waiting' c' m' second h'

  pub post_rounds-Lasts :
      (round : ℕ → ℕ → I → M z (ℕ × I)) (n i waiting : ℕ) (c : I) (m : Machine z)
      → ((i waiting : ℕ) (c : I) (m : Machine z) → P c → Lasts (Second P) (round i waiting c m))
      → P c
      → Lasts (Second P) (post_rounds round n i waiting c m)
  unfolding post_rounds
  post_rounds-Lasts round zero i waiting c m keeps h = h
  post_rounds-Lasts round (suc n) i waiting c m keeps h =
      Lasts-bind (Second P) (Second P) (round i waiting c m) _ (keeps i waiting c m h)
        λ (waiting', c') h' m'. post_rounds-Lasts round n (i + 1) waiting' c' m' keeps h'

-- ===== src/Threads.antt =====
-- The worker thread of ClientImpl and ServerImpl next to the thread that owns the object: the
-- constructor starts it, the destructor stops it and waits for it. What both read and write is
-- `m_running` and the io context, to which the owner posts handlers and which the destructor stops.
-- As documented for boost::asio, `run` goes on while there is work and nothing has stopped the
-- context, also before `run` was called; a handler that it has begun is not broken off.
pub mod Joins
mod Tests
use zeromq_agent.Base.{ℕ, suc, ◌+◌, Bool, true, false, ◌≡◌, refl, List, [], ◌∷◌}

-- The statements of the lambda that the constructor passes to `std::thread`.
pub data Statement : Type 0 where
  make_work set_running run_io : Statement

abbrev pub client_worker : List Statement
client_worker = make_work ∷ set_running ∷ run_io ∷ []

abbrev pub server_worker : List Statement
server_worker = set_running ∷ make_work ∷ run_io ∷ []

-- Where the owner of the object stands: it uses the object, it has read `m_running` in the
-- destructor, it has stopped the context where it saw the flag, or `m_worker.join ()` has returned.
pub data Owner : Type 0 where
  uses : Owner
  has_read : (saw : Bool) → Owner
  waits : (saw : Bool) → Owner
  joined : (saw : Bool) → Owner

-- What the worker does in `m_io.run ()`: it is between two handlers, in one that will return, or in
-- one that will not, as in a `zmq_poll` without an end.
pub data Handling : Type 0 where
  between returning endless : Handling

pub record Threads : Type 0 where
  -- the statements of the worker that are still to come
  pub rest : List Statement
  pub m_running : Bool
  pub has_work : Bool
  pub stopped : Bool
  -- the handlers that wait, and what the worker does
  pub posted : ℕ
  pub handling : Handling
  pub owner : Owner

-- After the constructor.
abbrev pub started : List Statement → Threads
started worker = record {
  rest = worker;
  m_running = false;
  has_work = false;
  stopped = false;
  posted = 0;
  handling = between;
  owner = uses;
}

pub data Step (t : Threads) : Threads → Type 0 where
  makes_work :
      {rest : List Statement}
      → t.rest ≡ make_work ∷ rest
      → Step t (record t { rest = rest; has_work = true })
  sets_running :
      {rest : List Statement}
      → t.rest ≡ set_running ∷ rest
      → Step t (record t { rest = rest; m_running = true })
  -- `m_io.run ()` returns
  leaves_run :
      {rest : List Statement}
      → t.rest ≡ run_io ∷ rest
      → t.stopped ≡ true
      → t.handling ≡ between
      → Step t (record t { rest = rest })
  runs_out :
      {rest : List Statement}
      → t.rest ≡ run_io ∷ rest
      → t.has_work ≡ false
      → t.posted ≡ 0
      → t.handling ≡ between
      → Step t (record t { rest = rest })
  -- the worker begins a handler in `m_io.run ()`, and comes back from it
  begins :
      {rest : List Statement} {n : ℕ} (handler : Handling)
      → t.rest ≡ run_io ∷ rest
      → t.stopped ≡ false
      → t.handling ≡ between
      → t.posted ≡ suc n
      → Step t (record t { posted = n; handling = handler })
  comes_back : t.handling ≡ returning → Step t (record t { handling = between })
  posts : t.owner ≡ uses → Step t (record t { posted = t.posted + 1 })
  reads_running : t.owner ≡ uses → Step t (record t { owner = has_read t.m_running })
  stops : t.owner ≡ has_read true → Step t (record t { stopped = true; owner = waits true })
  skips_stop : t.owner ≡ has_read false → Step t (record t { owner = waits false })
  joins :
      {saw : Bool} → t.owner ≡ waits saw → t.rest ≡ [] → Step t (record t { owner = joined saw })

pub data Reach (worker : List Statement) : Threads → Type 0 where
  here : Reach worker (started worker)
  next : {t u : Threads} → Reach worker t → Step t u → Reach worker u

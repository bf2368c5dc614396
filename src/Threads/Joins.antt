-- ===== src/Threads/Joins.antt =====
-- ClientImpl and ServerImpl: whether `m_worker.join ()` in the destructor returns.
use zeromq_agent.Base.{Bool, true, false, ◌≡◌, refl, sym, ◌∙◌, ◌⊎◌, inl, inr, List, [], ◌∷◌}
use zeromq_agent.Zmq.{Zmq, Machine, done, blocked}
use zeromq_agent.Worker.{Worker, free, in_handler}
use zeromq_agent.Client
use zeromq_agent.Server
use zeromq_agent.Threads.{
  Statement, make_work, set_running, run_io, client_worker, server_worker, Owner, uses, has_read,
  waits, joined, Threads, Step, makes_work, sets_running, leaves_run, runs_out, reads_running,
  stops, skips_stop, joins, begins, comes_back, posts, Handling, between, returning, endless, Reach,
  here, next,
}

-- The work is made before `run`, so that `run` does not return for lack of it.
abbrev pub HasWork : List Statement → Bool → Type 0
HasWork [] work = Unit
HasWork (make_work ∷ rest) work = HasWork rest true
HasWork (set_running ∷ rest) work = HasWork rest work
HasWork (run_io ∷ rest) work = (work ≡ true) × HasWork rest work

abbrev pub Runs : List Statement → Type 0
Runs [] = ⊥
Runs (make_work ∷ rest) = Runs rest
Runs (set_running ∷ rest) = Runs rest
Runs (run_io ∷ rest) = Unit

-- The context is stopped by an owner that saw the flag, and by no other; `join` has returned only
-- after the worker's last statement.
abbrev pub ByOwner : Owner → Bool → List Statement → Type 0
ByOwner uses stopped rest = stopped ≡ false
ByOwner (has_read saw) stopped rest = stopped ≡ false
ByOwner (waits saw) stopped rest = stopped ≡ saw
ByOwner (joined saw) stopped rest = (saw ≡ true) × (rest ≡ [])

pub record Inv (t : Threads) : Type 0 where
  pub work : HasWork t.rest t.has_work
  pub running : Runs t.rest ⊎ (t.stopped ≡ true)
  pub busy : (t.handling ≡ between) ⊎ Runs t.rest
  pub by_owner : ByOwner t.owner t.stopped t.rest

only : {B : Type 0} → ⊥ ⊎ B → B
only (inl h) = absurd h
only (inr b) = b

-- Where the worker still has a statement, the owner has not joined it.
next-ByOwner :
    (owner : Owner) (stopped : Bool) (first : Statement) (rest rest' : List Statement)
    → ByOwner owner stopped (first ∷ rest)
    → ByOwner owner stopped rest'
next-ByOwner uses stopped first rest rest' h = h
next-ByOwner (has_read _) stopped first rest rest' h = h
next-ByOwner (waits _) stopped first rest rest' h = h
next-ByOwner (joined _) stopped first rest rest' (_, e) = absurd (cc e)

Step-Inv : {t u : Threads} → Step t u → Inv t → Inv u
Step-Inv {t} (makes_work {rest} e) inv = record {
  work = rw e at (inv.work);
  running = rw e at (inv.running);
  busy = rw e at (inv.busy);
  by_owner = next-ByOwner t.owner t.stopped make_work rest rest (rw e at (inv.by_owner));
}
Step-Inv {t} (sets_running {rest} e) inv = record {
  work = rw e at (inv.work);
  running = rw e at (inv.running);
  busy = rw e at (inv.busy);
  by_owner = next-ByOwner t.owner t.stopped set_running rest rest (rw e at (inv.by_owner));
}
Step-Inv {t} (leaves_run {rest} e stop idle) inv = record {
  work = (rw e at (inv.work)).1;
  running = inr stop;
  busy = inl idle;
  by_owner = next-ByOwner t.owner t.stopped run_io rest rest (rw e at (inv.by_owner));
}
Step-Inv {t} (runs_out e none_left nothing idle) inv = cc ((rw e at (inv.work)).0)
Step-Inv {t} (begins handler e go idle some_left) inv = record {
  work = inv.work;
  running = inv.running;
  busy = inr (rw e tt);
  by_owner = inv.by_owner;
}
Step-Inv {t} (comes_back e) inv = record {
  work = inv.work;
  running = inv.running;
  busy = inl refl;
  by_owner = inv.by_owner;
}
Step-Inv {t} (posts e) inv = record {
  work = inv.work;
  running = inv.running;
  busy = inv.busy;
  by_owner = inv.by_owner;
}
Step-Inv {t} (reads_running e) inv = record {
  work = inv.work;
  running = inv.running;
  busy = inv.busy;
  by_owner = rw e at (inv.by_owner);
}
Step-Inv {t} (stops e) inv = record {
  work = inv.work;
  running = inr refl;
  busy = inv.busy;
  by_owner = refl;
}
Step-Inv {t} (skips_stop e) inv = record {
  work = inv.work;
  running = inv.running;
  busy = inv.busy;
  by_owner = rw e at (inv.by_owner);
}
Step-Inv {t} (joins {saw} e over) inv = record {
  work = inv.work;
  running = inv.running;
  busy = inv.busy;
  by_owner = (sym (rw e at (inv.by_owner)) ∙ only (rw over at (inv.running)), over);
}

-- A worker's lambda, before it runs.
pub record IsWorker (worker : List Statement) : Type 0 where
  pub work : HasWork worker false
  pub running : Runs worker

client_worker-IsWorker : IsWorker client_worker
client_worker-IsWorker = record { work = (refl, tt); running = tt }

server_worker-IsWorker : IsWorker server_worker
server_worker-IsWorker = record { work = (refl, tt); running = tt }

Reach-Inv : {worker : List Statement} {t : Threads} → IsWorker worker → Reach worker t → Inv t
Reach-Inv w here = record {
  work = w.work;
  running = inl w.running;
  busy = inl refl;
  by_owner = refl;
}
Reach-Inv w (next r st) = Step-Inv st (Reach-Inv w r)

-- The worker as the destructor of the sequential model finds it.
abbrev pub held : Handling → Worker
held endless = in_handler
held _ = free

-- The end of a run as the destructor of the sequential model has it, with the flag that was read and
-- what the worker does.
module _ {z : Zmq} (m : Machine z) where
  abbrev pub EndsAs : Owner → Handling → Type 0
  EndsAs (joined saw) handling =
      (Client.join_worker saw (held handling) m ≡ done tt m)
      × (Server.join_worker saw (held handling) m ≡ done tt m)
  EndsAs (waits saw) handling =
      (Client.join_worker saw (held handling) m ≡ blocked m)
      × (Server.join_worker saw (held handling) m ≡ blocked m)
  EndsAs uses handling = ⊥
  EndsAs (has_read _) handling = ⊥

  -- The owner waits after it saw the flag, and the worker is in `m_io.run ()`.
  running-EndsAs :
      (t : Threads) (rest : List Statement) (handling : Handling)
      → ((u : Threads) → ¬ Step t u)
      → t.stopped ≡ true
      → t.rest ≡ run_io ∷ rest
      → t.handling ≡ handling
      → EndsAs (waits true) handling
  running-EndsAs t rest between stuck stop e h = absurd (stuck _ (leaves_run e stop h))
  running-EndsAs t rest returning stuck stop e h = absurd (stuck _ (comes_back h))
  running-EndsAs t rest endless stuck stop e h = (refl, refl)

  -- The owner waits and the worker has these statements left.
  waits-EndsAs :
      (t : Threads) (saw : Bool) (rest : List Statement)
      → Inv t
      → ((u : Threads) → ¬ Step t u)
      → t.owner ≡ waits saw
      → t.rest ≡ rest
      → EndsAs (waits saw) t.handling
  waits-EndsAs t saw [] inv stuck o e = absurd (stuck _ (joins o e))
  waits-EndsAs t saw (make_work ∷ _) inv stuck o e = absurd (stuck _ (makes_work e))
  waits-EndsAs t saw (set_running ∷ _) inv stuck o e = absurd (stuck _ (sets_running e))
  waits-EndsAs t true (run_io ∷ rest) inv stuck o e =
      running-EndsAs t rest t.handling stuck (rw o at (inv.by_owner)) e refl
  waits-EndsAs t false (run_io ∷ _) inv stuck o e = (refl, refl)

  -- The worker has no statement left, so that it is in no handler.
  idle : (t : Threads) → Inv t → t.rest ≡ [] → t.handling ≡ between
  idle t inv e = elim inv.busy [ inl h ↦ h | inr runs ↦ absurd (rw e at runs) ]

  owner-EndsAs :
      (t : Threads) (owner : Owner)
      → Inv t
      → ((u : Threads) → ¬ Step t u)
      → t.owner ≡ owner
      → EndsAs owner t.handling
  owner-EndsAs t uses inv stuck o = stuck _ (reads_running o)
  owner-EndsAs t (has_read true) inv stuck o = stuck _ (stops o)
  owner-EndsAs t (has_read false) inv stuck o = stuck _ (skips_stop o)
  owner-EndsAs t (waits saw) inv stuck o = waits-EndsAs t saw t.rest inv stuck o refl
  owner-EndsAs t (joined saw) inv stuck o =
      let (saw_it, over) = rw o at (inv.by_owner) in rw saw_it (rw (idle t inv over) (refl, refl))

  worker-EndsAs :
      {worker : List Statement} {t : Threads}
      → IsWorker worker
      → Reach worker t
      → ((u : Threads) → ¬ Step t u)
      → EndsAs t.owner t.handling
  worker-EndsAs {t} w r stuck = owner-EndsAs t t.owner (Reach-Inv w r) stuck refl

  -- However the worker, its handlers and the owner of a client or a server interleave: where neither
  -- thread can make a step any more, the owner is in its destructor. `join` has returned there exactly
  -- if the destructor saw `m_running` set and the worker is in no handler that does not return;
  -- otherwise it waits for ever. This is how the sequential model of the destructor ends for the value
  -- that was read and for that worker.
  pub threads-EndsAs :
      (t : Threads)
      → Reach client_worker t ⊎ Reach server_worker t
      → ((u : Threads) → ¬ Step t u)
      → EndsAs t.owner t.handling
  threads-EndsAs t (inl r) stuck = worker-EndsAs client_worker-IsWorker r stuck
  threads-EndsAs t (inr r) stuck = worker-EndsAs server_worker-IsWorker r stuck

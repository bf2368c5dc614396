-- ===== src/Threads/Tests.antt =====
-- The theorems on the two threads at examples.
use zeromq_agent.Base.{true, refl, [], ◌∷◌, inl}
use zeromq_agent.Zmq.Sample.{fresh}
use zeromq_agent.Threads.{
  run_io, client_worker, waits, Threads, Step, makes_work, sets_running, leaves_run, runs_out,
  reads_running, stops, skips_stop, joins, begins, comes_back, posts, endless, Reach, here, next,
}
use zeromq_agent.Threads.Joins.{EndsAs, threads-EndsAs}

-- The destructor has stopped the context, but the worker is in a handler that does not return.
abbrev held_up : Threads
held_up = record {
  rest = run_io ∷ [];
  m_running = true;
  has_work = true;
  stopped = true;
  posted = 0;
  handling = endless;
  owner = waits true;
}

held_up-Reach : Reach client_worker held_up
held_up-Reach =
    next
      (next
        (next (next (next (next here (makes_work refl)) (sets_running refl)) (posts refl))
          (begins endless refl refl refl refl))
        (reads_running refl))
      (stops refl)

held_up_stuck : (u : Threads) → ¬ Step held_up u
held_up_stuck u (makes_work e) = cc
held_up_stuck u (sets_running e) = cc
held_up_stuck u (leaves_run e stop idle) = cc
held_up_stuck u (runs_out e none_left nothing idle) = cc
held_up_stuck u (begins handler e go idle some_left) = cc
held_up_stuck u (comes_back e) = cc
held_up_stuck u (posts e) = cc
held_up_stuck u (reads_running e) = cc
held_up_stuck u (stops e) = cc
held_up_stuck u (skips_stop e) = cc
held_up_stuck u (joins e over) = cc

threads-EndsAs_example : EndsAs fresh held_up.owner held_up.handling
threads-EndsAs_example = threads-EndsAs fresh held_up (inl held_up-Reach) held_up_stuck

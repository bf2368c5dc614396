-- ===== src/Worker.antt =====
-- The member `m_worker` of ClientImpl and ServerImpl, the thread that runs the handlers, as the
-- destructor finds it.
use zeromq_agent.Base.{Bool, true, false, ◌≡◌, ◌⊎◌, inl, inr, refl}
use zeromq_agent.Zmq.{Zmq, M, pure, blocked}

-- It is in `m_io.run ()` or before it, or in a handler that does not return, as in a `zmq_poll`
-- without an end.
pub data Worker : Type 0 where
  free in_handler : Worker

pub Worker-cases : (worker : Worker) → (worker ≡ free) ⊎ (worker ≡ in_handler)
Worker-cases free = inl refl
Worker-cases in_handler = inr refl

module _ {z : Zmq} where
  -- `m_worker.join ()`: the loop of the worker ends only if it is stopped, which the destructor does
  -- only where it sees `m_running`, and not before the handler in it returns.
  abbrev pub join : Bool → Worker → M z (Unit {0})
  join true free m = pure tt m
  join true in_handler m = blocked m
  join false worker m = blocked m

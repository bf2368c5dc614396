-- ===== src/Exchange/Runs.antt =====
-- What holds of the calls of a run, however it ends.
use zeromq_agent.Base.{String, List, [], ◌∷◌}
use zeromq_agent.Base.Int.{ℤ}
use zeromq_agent.Memory.{Ptr}
use zeromq_agent.Zmq.Calls.{value_of, zmq_close, zmq_ctx_destroy}
use zeromq_agent.Client.{join_worker}
use zeromq_agent.Worker.{Worker, free, in_handler}
use zeromq_agent.Base.{Bool, true, false, none, some, Option}
use zeromq_agent.Zmq.{
  ◌>>=◌, ◌>>◌, Zmq, zmq_subscribe, SocketKind, Event, Machine, Outcome, done, fault, blocked,
  and_then, M,
}
use zeromq_agent.Zmq.Parts.{calls_of}
use zeromq_agent.Message.{IMessage, delete_message, send_message, base, receive_message}
use zeromq_agent.Agent.Lockstep.{Post, Keeps-destroy}

module _ {z : Zmq} where
  -- A run that ends where `P` holds, or anywhere else with calls of which `Q` holds.
  abbrev pub Within :
      {A : Type 0} → (A → Machine z → Type 0) → (List (Event z) → Type 0) → Outcome z A → Type 0
  Within P Q (done a m) = P a m
  Within P Q (fault _ m) = Q m.trace
  Within P Q (blocked m) = Q m.trace

  pub Within-bind :
      {A B : Type 0} (P : A → Machine z → Type 0) (R : B → Machine z → Type 0)
      (Q : List (Event z) → Type 0) (o : Outcome z A) (k : A → M z B)
      → Within P Q o
      → ((a : A) (m : Machine z) → P a m → Within R Q (k a m))
      → Within R Q (and_then o k)
  Within-bind P R Q (done a m) k h next = next a m h
  Within-bind P R Q (fault _ _) k h next = h
  Within-bind P R Q (blocked _) k h next = h

  pub Within-weaken :
      {A : Type 0} (P : A → Machine z → Type 0) (Q R : List (Event z) → Type 0) (o : Outcome z A)
      → ((trace : List (Event z)) → Q trace → R trace)
      → Within P Q o
      → Within P R o
  Within-weaken P Q R (done _ _) weaken h = h
  Within-weaken P Q R (fault _ m) weaken h = weaken m.trace h
  Within-weaken P Q R (blocked m) weaken h = weaken m.trace h

  pub Post-Within :
      {A : Type 0} (P : A → Machine z → Type 0) (Q : List (Event z) → Type 0) (o : Outcome z A)
      → Post P (λ m. Q m.trace) o
      → Within P Q o
  Post-Within P Q (done _ _) h = h
  Post-Within P Q (fault _ _) h = h
  Post-Within P Q (blocked _) h = absurd h

  pub calls-Within :
      {A : Type 0} (Q : List (Event z) → Type 0) (o : Outcome z A)
      → Within (λ _ m. Q m.trace) Q o
      → Q (calls_of o)
  calls-Within Q (done _ _) h = h
  calls-Within Q (fault _ _) h = h
  calls-Within Q (blocked _) h = h

  pub delete-Within :
      (Q : List (Event z) → Type 0) (i : IMessage) (m : Machine z)
      → Q m.trace
      → Within (λ _ m'. Q m'.trace) Q (delete_message i m)
  unfolding delete_message
  delete-Within Q base m h = h
  delete-Within Q receive_message m h = h
  delete-Within Q (send_message s) m h =
      Post-Within (λ _ m'. Q m'.trace) Q _ (Keeps-destroy Q s m h)

  -- What does not depend on the calls of a set-up and of a destructor.
  pub record IgnoresOthers (Q : List (Event z) → Type 0) : Type 0 where
    pub made : (ctx : Ptr) (trace : List (Event z)) → Q trace → Q (Event.ctx_new ctx ∷ trace)
    pub opened :
        (ctx s : Ptr) (c : SocketKind) (trace : List (Event z))
        → Q trace
        → Q (Event.socket_made ctx c s ∷ trace)
    pub connected :
        (s : Ptr) (url : String) (rc : ℤ) (trace : List (Event z))
        → Q trace
        → Q (Event.connected s url rc ∷ trace)
    pub filtered :
        (s : Ptr) (rc : ℤ) (trace : List (Event z))
        → Q trace
        → Q (Event.option_set s zmq_subscribe [] rc ∷ trace)
    pub bound :
        (s : Ptr) (url : String) (rc : ℤ) (trace : List (Event z))
        → Q trace
        → Q (Event.bound s url rc ∷ trace)
    pub closed :
        (s : Ptr) (rc : ℤ) (trace : List (Event z)) → Q trace → Q (Event.closed s rc ∷ trace)
    pub destroyed :
        (ctx : Ptr) (rc : ℤ) (trace : List (Event z))
        → Q trace
        → Q (Event.ctx_destroyed ctx rc ∷ trace)

module _ {z : Zmq} (Q : List (Event z) → Type 0) (ignores : IgnoresOthers Q) where
  -- The destructor of a client or a server.
  pub end-Within :
      (running : Bool) (worker : Worker) (socket : Option Ptr) (ctx : Ptr) (i : IMessage)
      (m : Machine z)
      → Q m.trace
      → Within
          (λ _ m'. Q m'.trace)
          Q
          ((join_worker running worker
              >> (value_of socket >>= λ s.
                  zmq_close s >>= λ _. zmq_ctx_destroy ctx >>= λ _. delete_message i))
            m)
  end-Within false worker socket ctx i m h = h
  end-Within true in_handler socket ctx i m h = h
  end-Within true free none ctx i m h = h
  end-Within true free (some s) ctx i m h =
      let (rc, w) = z.zmq_close s m.world in
      let (rc', w') = z.zmq_ctx_destroy ctx w in
      let m' = record m {
        world = w';
        trace = Event.ctx_destroyed ctx rc' ∷ Event.closed s rc ∷ m.trace;
      } in
      delete-Within Q i m' (ignores.destroyed ctx rc' _ (ignores.closed s rc m.trace h))

-- ===== src/Exchange/WholeServer.antt =====
-- zeromq_agent.cpp: the whole functions of the blocking servers, from the creation of the object to its
-- destruction.
use zeromq_agent.Worker.{free}
use zeromq_agent.Base.{
  String, ◌≡◌, refl, ◌==◌, Bool, true, false, none, some, inl, inr, Bool-cases, List, ◌∷◌,
}
use zeromq_agent.Base.Int.{ℤ, pos, negsuc, is_nonzero}
use zeromq_agent.Memory.{Ptr, null}
use zeromq_agent.Zmq.{Zmq, Event, Machine, M, ◌>>=◌}
use zeromq_agent.Zmq.Parts.{calls_of}
use zeromq_agent.Message.{ErrorType, ok, not_ok, SocketType, empty_message, send_message}
use zeromq_agent.Server.{ServerImpl, create, bind, destroy, worker_starts, socket_kind}
use zeromq_agent.Exchange.Whole.{new_socket}
use zeromq_agent.Exchange.Runs.{
  Within, Within-bind, Within-weaken, calls-Within, end-Within, IgnoresOthers,
}
use zeromq_agent.Agent.{leave_server, enter_server, run_server}

module _ {z : Zmq} (Q : List (Event z) → Type 0) (ignores : IgnoresOthers Q) where
  destroy-Within :
      (c : ServerImpl) (m : Machine z) → Q m.trace → Within (λ _ m'. Q m'.trace) Q (destroy c m)
  unfolding destroy
  destroy-Within c m h =
      end-Within Q ignores c.m_running c.m_worker c.m_socket c.m_ctx c.m_message m h

  pub leave-Within :
      (started : Bool) (c : ServerImpl) (code : ℤ) (m : Machine z)
      → Q m.trace
      → Within (λ _ m'. Q m'.trace) Q (leave_server started c code m)
  unfolding leave_server worker_starts
  leave-Within true c code m h =
      Within-bind (λ _ m'. Q m'.trace) (λ _ m'. Q m'.trace) Q (destroy (worker_starts c) m) _
        (destroy-Within (worker_starts c) m h) λ _ m' h'. h'
  leave-Within false c code m h =
      Within-bind (λ _ m'. Q m'.trace) (λ _ m'. Q m'.trace) Q (destroy c m) _ (destroy-Within c m h)
        λ _ m' h'. h'

  -- The new socket of a server that is bound.
  bind-Within :
      (c : ServerImpl) (url : String) (m : Machine z)
      → Q m.trace
      → let (s, _) = z.zmq_socket c.m_ctx (socket_kind c.m_type) m.world in
        Within (λ (_, c') m'. Q m'.trace × (c'.m_socket ≡ some s)) Q (bind c url m)
  unfolding bind
  bind-Within c url m h =
      let (s, w) = z.zmq_socket c.m_ctx (socket_kind c.m_type) m.world in
      let (rc, _) = z.zmq_bind s url w in
      let made = ignores.opened c.m_ctx s (socket_kind c.m_type) m.trace h in
      elim (Bool-cases (s == null)) [
        | inl e ↦ rw e (made, refl)
        | inr e ↦ rw e (elim (Bool-cases (is_nonzero rc)) [
          | inl bad ↦ rw bad (ignores.bound s url rc _ made, refl)
          | inr good ↦ rw good (ignores.bound s url rc _ made, refl)
        ])
      ]

abbrev new_server : Ptr → SocketType → ServerImpl
new_server ctx type = record {
  m_ctx = ctx;
  m_socket = none;
  m_type = type;
  m_message = send_message empty_message;
  m_running = false;
  m_worker = free;
  m_str_error = "";
}

-- `Q₀` holds before the work and `Q` after it.
module _ {z : Zmq} (Q₀ Q : List (Event z) → Type 0) (ignores₀ : IgnoresOthers Q₀)
    (ignores : IgnoresOthers Q) (weaken : (trace : List (Event z)) → Q₀ trace → Q trace) where
  -- Work on a server with this socket.
  abbrev pub Works : Ptr → (ServerImpl → M z ServerImpl) → Type 0
  Works s work =
      (c : ServerImpl) (m : Machine z)
      → Q₀ m.trace
      → c.m_socket ≡ some s
      → Within (λ _ m'. Q m'.trace) Q (work c m)

  enter-Within :
      (started : Bool) (work : ServerImpl → M z ServerImpl) (s : Ptr) (r : ErrorType)
      (c : ServerImpl) (m : Machine z)
      → Works s work
      → Q₀ m.trace
      → c.m_socket ≡ some s
      → Within (λ _ m'. Q m'.trace) Q (enter_server started work r c m)
  unfolding enter_server
  enter-Within started work s not_ok c m works h hs =
      leave-Within Q ignores started c (negsuc 0) m (weaken m.trace h)
  enter-Within started work s ok c m works h hs =
      Within-bind (λ _ m'. Q m'.trace) (λ _ m'. Q m'.trace) Q (work c m) _ (works c m h hs)
        λ c' m' h'. leave-Within Q ignores started c' (pos 0) m' h'

  pub server-Within :
      (type : SocketType) (started : Bool) (url : String) (work : ServerImpl → M z ServerImpl)
      (m : Machine z)
      → Works (new_socket z (socket_kind type) m) work
      → Q₀ m.trace
      → Q (calls_of ((create type >>= λ c. run_server started c url work) m))
  unfolding create run_server
  server-Within type started url work m works h =
      let (ctx, w) = z.zmq_ctx_new m.world in
      let s = new_socket z (socket_kind type) m in
      let c = new_server ctx type in
      let m1 = record m { world = w; trace = Event.ctx_new ctx ∷ m.trace } in
      calls-Within Q _ (
        Within-bind (λ (_, c') m'. Q₀ m'.trace × (c'.m_socket ≡ some s)) (λ _ m'. Q m'.trace) Q
          (bind c url m1) _
          (Within-weaken (λ (_, c') m'. Q₀ m'.trace × (c'.m_socket ≡ some s)) Q₀ Q (bind c url m1)
            weaken (bind-Within Q₀ ignores₀ c url m1 (ignores₀.made ctx m.trace h)))
          λ (r, c') m' (h', hs). enter-Within started work s r c' m' works h' hs)

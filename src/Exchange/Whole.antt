-- ===== src/Exchange/Whole.antt =====
-- zeromq_agent.cpp: the whole functions of the blocking clients, from the creation of the object to its
-- destruction.
use zeromq_agent.Worker.{free}
use zeromq_agent.Base.{
  String, ◌≡◌, refl, ◌==◌, Bool, true, false, none, some, inl, inr, Bool-cases, List, [], ◌∷◌,
}
use zeromq_agent.Base.Int.{ℤ, pos, negsuc, is_nonzero}
use zeromq_agent.Memory.{Ptr, null}
use zeromq_agent.Zmq.{Zmq, zmq_subscribe, SocketKind, Event, Machine, M, ◌>>=◌}
use zeromq_agent.Zmq.Parts.{calls_of}
use zeromq_agent.Message.{ErrorType, ok, not_ok, SocketType, empty_message, send_message}
use zeromq_agent.Client.{
  ClientImpl, create, connect, subscribe_all, destroy, worker_starts, socket_kind, is_subscribe,
}
use zeromq_agent.Exchange.Runs.{
  Within, Within-bind, Within-weaken, calls-Within, end-Within, IgnoresOthers,
}
use zeromq_agent.Agent.{leave_client, enter_client, run_client}

module _ {z : Zmq} (Q : List (Event z) → Type 0) (ignores : IgnoresOthers Q) where
  destroy-Within :
      (c : ClientImpl) (m : Machine z) → Q m.trace → Within (λ _ m'. Q m'.trace) Q (destroy c m)
  unfolding destroy
  destroy-Within c m h =
      end-Within Q ignores c.m_running c.m_worker c.m_socket c.m_context c.m_message m h

  pub leave-Within :
      (started : Bool) (c : ClientImpl) (code : ℤ) (m : Machine z)
      → Q m.trace
      → Within (λ _ m'. Q m'.trace) Q (leave_client started c code m)
  unfolding leave_client worker_starts
  leave-Within true c code m h =
      Within-bind (λ _ m'. Q m'.trace) (λ _ m'. Q m'.trace) Q (destroy (worker_starts c) m) _
        (destroy-Within (worker_starts c) m h) λ _ m' h'. h'
  leave-Within false c code m h =
      Within-bind (λ _ m'. Q m'.trace) (λ _ m'. Q m'.trace) Q (destroy c m) _ (destroy-Within c m h)
        λ _ m' h'. h'

  -- The new socket of a client that is connected.
  pub connect-Within :
      (c : ClientImpl) (url : String) (m : Machine z)
      → Q m.trace
      → let (s, _) = z.zmq_socket c.m_context (socket_kind c.m_type) m.world in
        Within (λ (_, c') m'. Q m'.trace × (c'.m_socket ≡ some s)) Q (connect c url m)
  unfolding connect subscribe_all
  connect-Within c url m h =
      let (s, w) = z.zmq_socket c.m_context (socket_kind c.m_type) m.world in
      let (rc, w') = z.zmq_connect s url w in
      let (rc', w'') = z.zmq_setsockopt s zmq_subscribe [] w' in
      let made = ignores.opened c.m_context s (socket_kind c.m_type) m.trace h in
      let tried = ignores.connected s url rc _ made in
      elim (Bool-cases (s == null)) [
        | inl e ↦ rw e (made, refl)
        | inr e ↦ rw e (elim (Bool-cases (is_nonzero rc)) [
          | inl bad ↦ rw bad (tried, refl)
          | inr good ↦ rw good (elim (Bool-cases (is_subscribe c.m_type)) [
            | inr other ↦ rw other (tried, refl)
            | inl subscriber ↦ rw subscriber (elim (Bool-cases (is_nonzero rc')) [
              | inl bad ↦ rw bad (ignores.filtered s rc' _ tried, refl)
              | inr good' ↦ rw good' (ignores.filtered s rc' _ tried, refl)
            ])
          ])
        ])
      ]

-- The socket that a new object makes.
abbrev pub new_socket : (z : Zmq) → SocketKind → Machine z → Ptr
new_socket z kind m = let (ctx, w) = z.zmq_ctx_new m.world in (z.zmq_socket ctx kind w).0

abbrev new_client : Ptr → SocketType → ClientImpl
new_client ctx type = record {
  m_context = ctx;
  m_socket = none;
  m_type = type;
  m_message = send_message empty_message;
  m_running = false;
  m_worker = free;
  m_str_error = "";
}

-- `Q₀` holds before the work and `Q` after it.
module _ {z : Zmq} (Q₀ Q : List (Event z) → Type 0) (ignores₀ : IgnoresOthers Q₀)
    (ignores : IgnoresOthers Q) (weaken : (trace : List (Event z)) → Q₀ trace → Q trace) where
  -- Work on a client with this socket.
  abbrev pub Works : Ptr → (ClientImpl → M z ClientImpl) → Type 0
  Works s work =
      (c : ClientImpl) (m : Machine z)
      → Q₀ m.trace
      → c.m_socket ≡ some s
      → Within (λ _ m'. Q m'.trace) Q (work c m)

  enter-Within :
      (started : Bool) (work : ClientImpl → M z ClientImpl) (s : Ptr) (r : ErrorType)
      (c : ClientImpl) (m : Machine z)
      → Works s work
      → Q₀ m.trace
      → c.m_socket ≡ some s
      → Within (λ _ m'. Q m'.trace) Q (enter_client started work r c m)
  unfolding enter_client
  enter-Within started work s not_ok c m works h hs =
      leave-Within Q ignores started c (negsuc 0) m (weaken m.trace h)
  enter-Within started work s ok c m works h hs =
      Within-bind (λ _ m'. Q m'.trace) (λ _ m'. Q m'.trace) Q (work c m) _ (works c m h hs)
        λ c' m' h'. leave-Within Q ignores started c' (pos 0) m' h'

  pub client-Within :
      (type : SocketType) (started : Bool) (url : String) (work : ClientImpl → M z ClientImpl)
      (m : Machine z)
      → Works (new_socket z (socket_kind type) m) work
      → Q₀ m.trace
      → Q (calls_of ((create type >>= λ c. run_client started c url work) m))
  unfolding create run_client
  client-Within type started url work m works h =
      let (ctx, w) = z.zmq_ctx_new m.world in
      let s = new_socket z (socket_kind type) m in
      let c = new_client ctx type in
      let m1 = record m { world = w; trace = Event.ctx_new ctx ∷ m.trace } in
      calls-Within Q _ (
        Within-bind (λ (_, c') m'. Q₀ m'.trace × (c'.m_socket ≡ some s)) (λ _ m'. Q m'.trace) Q
          (connect c url m1) _
          (Within-weaken (λ (_, c') m'. Q₀ m'.trace × (c'.m_socket ≡ some s)) Q₀ Q
            (connect c url m1) weaken
            (connect-Within Q₀ ignores₀ c url m1 (ignores₀.made ctx m.trace h)))
          λ (r, c') m' (h', hs). enter-Within started work s r c' m' works h' hs)

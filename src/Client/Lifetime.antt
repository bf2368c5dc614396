-- ===== src/Client/Lifetime.antt =====
-- client_api.cpp, ClientImpl: from the constructor to the destructor.
use zeromq_agent.Base.{
  String, ◌⊎◌, ◌≡◌, refl, sym, Option, some, none, List, ◌∷◌, true, false, inl, inr, Bool-cases,
  Option-cases, arith, subst,
}
use zeromq_agent.Base.Int.{ℤ, is_nonzero, is_negative, to_int, to_size}
use zeromq_agent.Memory.{Ptr, read}
use zeromq_agent.Zmq.{
  Zmq, Event, Flags, Machine, Fault, done, fault, blocked, Outcome, no_flags, zmq_dontwait,
}
use zeromq_agent.Message.{SocketType, ErrorType, IMessage, Status, Received}
use zeromq_agent.Message.Flag.{HasNoFlag, set_message-HasNoFlag, delete_message-HasNoFlag}
use zeromq_agent.Client.Async
use zeromq_agent.Async.{SendCallback, ReceiveCallback}
use zeromq_agent.Async.Keeps.{Preserves, PreservesSent, receive_handler-Lasts, send_handler-Lasts}
use zeromq_agent.Agent.Returns.{Lasts}
use zeromq_agent.Worker.{Worker-cases, free, in_handler}
use zeromq_agent.Client.{
  worker_waits, ClientImpl, create, connect, send_worker, send_made, receive, keep_message,
  worker_starts, destroy,
}
use zeromq_agent.Client.Connect.{Connected, connect-Connected}

-- The message of a client is one whose flag has no value. It is private, and the methods leave it so.
abbrev pub KeepsFlagUnset : ClientImpl → Type 0
KeepsFlagUnset c = HasNoFlag c.m_message

-- The clients that the class can bring about, with any results of the library.
pub data Reachable (z : Zmq) : ClientImpl → Type 0 where
  creates :
      {c : ClientImpl} (type : SocketType) (m m' : Machine z)
      → create type m ≡ done c m'
      → Reachable z c
  starts : {c : ClientImpl} → Reachable z c → Reachable z (worker_starts c)
  waits : {c : ClientImpl} → Reachable z c → Reachable z (worker_waits c)
  connects :
      {c c' : ClientImpl} (url : String) (r : ErrorType) (m m' : Machine z)
      → Reachable z c
      → connect c url m ≡ done (r, c') m'
      → Reachable z c'
  sends :
      {c c' : ClientImpl} (message : IMessage) (flags : Flags) (st : Status) (m m' : Machine z)
      → Reachable z c
      → send_worker c message flags m ≡ done (st, c') m'
      → Reachable z c'
  receives :
      {c c' : ClientImpl} (r : Received) (m m' : Machine z)
      → Reachable z c
      → receive c m ≡ done (r, c') m'
      → Reachable z c'
  -- a handler of `async_send`, with a callback that can use the client as its class allows
  async_sends :
      {c c' : ClientImpl} (message : Option IMessage) (cbk : Option (SendCallback z ClientImpl))
      (m m' : Machine z)
      → PreservesSent KeepsFlagUnset cbk
      → Reachable z c
      → Async.async_send message cbk c m ≡ done c' m'
      → Reachable z c'
  -- and one of `async_receive`
  async_receives :
      {c c' : ClientImpl} (cbk : Option (ReceiveCallback z ClientImpl)) (m m' : Machine z)
      → Preserves KeepsFlagUnset cbk
      → Reachable z c
      → Async.async_receive cbk c m ≡ done c' m'
      → Reachable z c'

module _ {z : Zmq} where
  -- Whatever comes back with the client, its message is as `P` wants.
  abbrev pub Leaves : {A : Type 0} → (IMessage → Type 0) → Outcome z (A × ClientImpl) → Type 0
  Leaves P (done (_, c) _) = P c.m_message
  Leaves P (fault _ _) = Unit
  Leaves P (blocked _) = Unit

  pub connect-Leaves :
      (c : ClientImpl) (url : String) (m : Machine z) (P : IMessage → Type 0)
      → P c.m_message
      → Leaves P (connect c url m)
  connect-Leaves c url m P h = go (connect c url m) (connect-Connected c url m)
    where
      go : (o : Outcome z (ErrorType × ClientImpl)) → Connected c url m o → Leaves P o
      go (done (r, c') m') (s, e, _) = subst (λ d. P d.m_message) (sym e) h
      go (fault _ _) _ = tt
      go (blocked _) _ = tt

  pub send_worker-Leaves :
      (c : ClientImpl) (message : IMessage) (flags : Flags) (m : Machine z) (P : IMessage → Type 0)
      → P c.m_message
      → Leaves P (send_worker c message flags m)
  unfolding send_worker send_made
  send_worker-Leaves c message flags m P h = ground arith

  pub receive-Leaves :
      (c : ClientImpl) (m : Machine z) → HasNoFlag c.m_message → Leaves HasNoFlag (receive c m)
  unfolding receive keep_message
  receive-Leaves c m h =
      let (error, empty, w) = z.zmq_msg_init m.world in
      elim (Bool-cases (is_nonzero error)) [
        | inl bad ↦ rw bad h
        | inr good ↦ rw good (elim (Option-cases c.m_socket) [
          | inl e ↦ rw e tt
          | inr (s, e) ↦
              let (n, msg, w', h') = z.zmq_msg_recv empty s no_flags w m.heap in
              let size = to_int (z.zmq_msg_size msg) in
              rw e (elim (Bool-cases (is_negative n)) [
                | inl minus ↦ rw minus h
                | inr plus ↦
                    rw plus (elim (Option-cases (read (z.zmq_msg_data msg) (to_size size) h')) [
                      | inl missing ↦ rw missing tt
                      | inr (xs, there) ↦
                          rw there (set_message-HasNoFlag size (z.zmq_msg_data msg) c.m_message h)
                    ])
              ])
        ])
      ]

  abbrev pub Makes : (ClientImpl → Type 0) → Outcome z ClientImpl → Type 0
  Makes P (done c _) = P c
  Makes P (fault _ _) = ⊥
  Makes P (blocked _) = ⊥

  pub create-Makes :
      (type : SocketType) (m : Machine z) → Makes (λ c. HasNoFlag c.m_message) (create type m)
  unfolding create
  create-Makes type m = refl

  leaves :
      {A : Type 0} (o : Outcome z (A × ClientImpl))
      → Leaves HasNoFlag o
      → Lasts (λ (_, c). KeepsFlagUnset c) o
  leaves (done _ _) h = h
  leaves (fault _ _) h = h
  leaves (blocked _) h = h

  Reachable-HasNoFlag : {c : ClientImpl} → Reachable z c → HasNoFlag c.m_message
  unfolding worker_starts worker_waits Async.async_send Async.async_receive
  Reachable-HasNoFlag (creates type m m' e) =
      subst (Makes λ c. HasNoFlag c.m_message) e (create-Makes type m)
  Reachable-HasNoFlag (starts r) = Reachable-HasNoFlag r
  Reachable-HasNoFlag (waits r) = Reachable-HasNoFlag r
  Reachable-HasNoFlag (connects {c} url r m m' h e) =
      subst (Leaves HasNoFlag) e (connect-Leaves c url m HasNoFlag (Reachable-HasNoFlag h))
  Reachable-HasNoFlag (sends {c} message flags st m m' h e) =
      subst (Leaves HasNoFlag) e
        (send_worker-Leaves c message flags m HasNoFlag (Reachable-HasNoFlag h))
  Reachable-HasNoFlag (receives {c} r m m' h e) =
      subst (Leaves HasNoFlag) e (receive-Leaves c m (Reachable-HasNoFlag h))
  Reachable-HasNoFlag (async_sends {c} message cbk m m' keeps h e) =
      subst (Lasts KeepsFlagUnset) e (
        send_handler-Lasts KeepsFlagUnset (λ d message'. send_worker d message' zmq_dontwait)
          message cbk c m
          (λ message' d n k.
            leaves (send_worker d message' zmq_dontwait n)
              (send_worker-Leaves d message' zmq_dontwait n HasNoFlag k))
          keeps (Reachable-HasNoFlag h))
  Reachable-HasNoFlag (async_receives {c} cbk m m' keeps h e) = subst (Lasts KeepsFlagUnset) e (
      receive_handler-Lasts KeepsFlagUnset Async.client_endpoint cbk c m (λ text d k. k) keeps
        (Reachable-HasNoFlag h))

  -- The calls of the destructor, the latest first: the socket is closed before the context.
  abbrev pub Closes : Ptr → Option Ptr → List (Event z) → List (Event z) → Type 0
  Closes context none before after = after ≡ before
  Closes context (some s) before after =
      (rc : ℤ) × (rc' : ℤ) × (after ≡ Event.ctx_destroyed context rc' ∷ Event.closed s rc ∷ before)

  -- How the destructor ends: never properly.
  abbrev pub Destroyed : ClientImpl → Machine z → Outcome z (Unit {0}) → Type 0
  Destroyed c m (done _ _) = ⊥
  Destroyed c m (blocked m') = ((c.m_running ≡ false) ⊎ (c.m_worker ≡ in_handler)) × (m' ≡ m)
  Destroyed c m (fault f m') =
      (c.m_running ≡ true)
      × (c.m_worker ≡ free)
      × (f ≡ Fault.uninitialised)
      × Closes c.m_context c.m_socket m.trace m'.trace

  pub destroy-HasNoFlag :
      (c : ClientImpl) (m : Machine z) → HasNoFlag c.m_message → Destroyed c m (destroy c m)
  unfolding destroy
  destroy-HasNoFlag c m h = elim (Bool-cases c.m_running) [
    | inr idle ↦ rw idle (inl refl, refl)
    | inl running ↦ rw running (elim (Worker-cases c.m_worker) [
      | inr waiting ↦ rw waiting (inr refl, refl)
      | inl over ↦ rw over (elim (Option-cases c.m_socket) [
        | inl e ↦ rw e (refl, refl, refl, refl)
        | inr (s, e) ↦
            rw e (rw (delete_message-HasNoFlag c.m_message) (refl, refl, refl, (_, _, refl)))
      ])
    ])
  ]

  -- The destructor of a client does not end properly, whatever was done with the client before by
  -- its blocking methods and by handlers of its asynchronous ones, whose callbacks leave the flag
  -- of its message without a value as its methods do, and whatever the library answers. Where the
  -- worker thread has not yet set `m_running`, or is in a handler that does not return, it waits
  -- for ever, with the socket open. Otherwise it reads a variable that was never given a value:
  -- the socket, if `connect` was not called, and then nothing is closed; and else the flag of the
  -- client's own message, after the socket and the context were closed, in this order.
  pub destroy-Destroyed :
      {c : ClientImpl} (m : Machine z) → Reachable z c → Destroyed c m (destroy c m)
  destroy-Destroyed {c} m r = destroy-HasNoFlag c m (Reachable-HasNoFlag r)

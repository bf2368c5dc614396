-- ===== src/Server/Publish.antt =====
-- server_api.cpp, ServerImpl::publish_worker: what it sends and what it reports.
use zeromq_agent.Base.{◌≡◌, refl, some, inl, inr, Bool-cases, ◌∷◌, if◌then◌else◌}
use zeromq_agent.Base.Int.{ℤ, pos, is_negative, to_size}
use zeromq_agent.Memory.{Ptr, Bytes, read}
use zeromq_agent.Zmq.{Zmq, Event, Flags, no_flags, Machine, Outcome, done, fault, blocked}
use zeromq_agent.Message.{Status, IMessage, ok, not_ok, get_data, get_size}
use zeromq_agent.Server.{ServerImpl, publish_worker}

module _ {z : Zmq} where
  abbrev pub Publishes :
      ServerImpl → Ptr → Bytes → Machine z → Outcome z (Status × ServerImpl) → Type 0
  Publishes c s xs m (done (st, c') m') =
      (rc : ℤ) × (m'.trace ≡ Event.sent s xs no_flags rc ∷ m.trace)
      × (m'.heap ≡ m.heap)
      × (st ≡ record {
        error = if is_negative rc then not_ok else ok;
        bytes_send = pos 0;
        error_str = "";
      })
      × (c' ≡ record c {
        m_str_error = if is_negative rc then z.zmq_strerror (z.errno m'.world) else c.m_str_error;
      })
  Publishes c s xs m (fault _ _) = ⊥
  Publishes c s xs m (blocked _) = ⊥

  -- On a bound server and for a message whose bytes can be read, `publish_worker` ends without a
  -- fault and sends exactly these bytes, in one call and without flags, whatever flags it was given.
  -- It reports NOT_OK exactly where the call returned a negative number, and then keeps the error
  -- text in the server; but its status says 0 bytes and has no text, after a success and a failure
  -- alike.
  pub publish_worker-Publishes :
      (c : ServerImpl) (message : IMessage) (s : Ptr) (xs : Bytes) (flags : Flags) (m : Machine z)
      → c.m_socket ≡ some s
      → read (get_data message) (to_size (get_size message)) m.heap ≡ some xs
      → Publishes c s xs m (publish_worker c message flags m)
  unfolding publish_worker
  publish_worker-Publishes c message s xs flags m hs there =
      let (sent, w) = z.zmq_send s xs no_flags m.world in
      rw hs (
        rw there (elim (Bool-cases (is_negative sent)) [
          | inl minus ↦ rw minus (sent, refl, refl, rw minus, rw minus)
          | inr plus ↦ rw plus (sent, refl, refl, rw plus, rw plus)
        ]))

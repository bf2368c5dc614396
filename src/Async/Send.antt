-- ===== src/Async/Send.antt =====
-- The handlers of `async_send` and `async_publish`: what is sent, and what their callbacks get.
use zeromq_agent.Base.{◌≡◌, refl, Option, none, some}
use zeromq_agent.Base.Int.{to_size}
use zeromq_agent.Memory.{Ptr, Bytes, read}
use zeromq_agent.Zmq.{Zmq, Fault, zmq_dontwait, Machine, Outcome, done, fault, blocked, M, and_then}
use zeromq_agent.Message.{Status, IMessage, get_data, get_size}
use zeromq_agent.Client.{ClientImpl, send_worker}
use zeromq_agent.Client.Send.{Sends, send_worker-Sends}
use zeromq_agent.Client.Async
use zeromq_agent.Server.{ServerImpl, publish_worker}
use zeromq_agent.Server.Publish.{Publishes, publish_worker-Publishes}
use zeromq_agent.Server.Async as ServerAsync
use zeromq_agent.Async.{SendCallback, referred, send_handler}

module _ {z : Zmq} {I : Type 0} where
  -- `P` holds of a status, an object and a machine, and with these the callback is called last; a
  -- fault is met there if it has ended.
  abbrev pub Delivers :
      (Outcome z (Status × I) → Type 0) → Option (SendCallback z I) → Outcome z I → Type 0
  Delivers P cbk o =
      (st : Status) × (c : I) × (m : Machine z) × P (done (st, c) m)
      × (o ≡ and_then (referred cbk m) λ call. call st c)

  -- A call that ends without a fault.
  abbrev Returns : (Outcome z (Status × I) → Type 0) → Type 0
  Returns P = ((f : Fault) (m : Machine z) → ¬ P (fault f m)) × ((m : Machine z) → ¬ P (blocked m))

  send_handler-Delivers :
      (P : Outcome z (Status × I) → Type 0) (worker : I → IMessage → M z (Status × I))
      (message : IMessage) (cbk : Option (SendCallback z I)) (c : I) (m : Machine z)
      → Returns P
      → P (worker c message m)
      → Delivers P cbk (send_handler worker (some message) cbk c m)
  unfolding send_handler
  send_handler-Delivers P worker message cbk c m returns h = delivered (worker c message m) h
    where
      delivered :
          (o : Outcome z (Status × I))
          → P o
          → Delivers P cbk (and_then o λ r m'. and_then (referred cbk m') λ call. call r.0 r.1)
      delivered (done (st, c') m') h = (st, c', m', h, refl)
      delivered (fault f m') h = absurd (returns.0 f m' h)
      delivered (blocked m') h = absurd (returns.1 m' h)

module _ {z : Zmq} where
  -- On a connected client and a bound server, for a message that is still there and whose bytes can
  -- be read: the handler of `async_send` does what `send_worker` promises, with the flag
  -- ZMQ_DONTWAIT, that of `async_publish` what `publish_worker` promises, and then each calls its
  -- callback once with the status of that. If the callback has ended, this call is a fault, which
  -- is met only after all the calls of the library were made. Where the message has ended, both
  -- fault before they call the library.
  pub send_handlers-Deliver :
      (c : ClientImpl) (s : ServerImpl) (message : IMessage) (cs ss : Ptr) (xs : Bytes)
      (cbk : Option (SendCallback z ClientImpl)) (cbk' : Option (SendCallback z ServerImpl))
      (m : Machine z)
      → c.m_socket ≡ some cs
      → s.m_socket ≡ some ss
      → read (get_data message) (to_size (get_size message)) m.heap ≡ some xs
      → Delivers (Sends c message cs zmq_dontwait m) cbk (Async.async_send (some message) cbk c m)
        × Delivers (Publishes s ss xs m) cbk' (ServerAsync.async_publish (some message) cbk' s m)
        × (Async.async_send none cbk c m ≡ fault Fault.bad_access m)
        × (ServerAsync.async_publish none cbk' s m ≡ fault Fault.bad_access m)
  unfolding Async.async_send ServerAsync.async_publish send_handler
  send_handlers-Deliver c s message cs ss xs cbk cbk' m hc hs there = (
    send_handler-Delivers (Sends c message cs zmq_dontwait m)
        (λ c' message'. send_worker c' message' zmq_dontwait) message cbk c m
        (λ f m' h. h, λ m' h. h) (send_worker-Sends c message cs zmq_dontwait m hc),
    send_handler-Delivers (Publishes s ss xs m)
        (λ s' message'. publish_worker s' message' zmq_dontwait) message cbk' s m
        (λ f m' h. h, λ m' h. h) (publish_worker-Publishes s message ss xs zmq_dontwait m hs there),
    refl,
    refl,
  )

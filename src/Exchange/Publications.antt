-- ===== src/Exchange/Publications.antt =====
-- zeromq_agent.cpp, pub_sub_server: the texts that it sends.
use zeromq_agent.Message
use zeromq_agent.Base.{
  ◌<◌, ◌∷◌, List, ap, ◌∙◌, none, arith, get_elem?, subst, ℕ, zero, suc, ◌+◌, ◌≡◌, refl, some,
  Option, inl, inr, Bool-cases,
}
use zeromq_agent.Base.Int.{is_negative}
use zeromq_agent.Memory.{Bytes, put, Ptr}
use zeromq_agent.Zmq.{Outcome, done, fault, blocked, and_then, Zmq, no_flags, Machine, pure}
use zeromq_agent.Message.{SendMessage, Status, send_message, from_string, get_data, get_size}
use zeromq_agent.Message.Build.{Built, from_string-Built, read-Built, release-Built}
use zeromq_agent.Server.Publish.{Publishes, publish_worker-Publishes}
use zeromq_agent.Agent.{messages, message_at, publish_round, publish_rounds}
use zeromq_agent.Exchange.Ends.{messages-short, Sent, SendsBytes}
use zeromq_agent.Zmq.Parts.{same}
use zeromq_agent.Server.{ServerImpl, publish_message, publish_worker}
use zeromq_agent.Agent.Lockstep.{Post, Post-bind}
use zeromq_agent.Exchange.{texts_sent, picked}

message_there : (i : ℕ) → i < 3 → (text : Bytes) × (get_elem? messages i ≡ some text)
unfolding messages
message_there zero h = (_, refl)
message_there (suc zero) h = (_, refl)
message_there (suc (suc zero)) h = (_, refl)
message_there (suc (suc (suc i))) h = absurd (omega (arith, h))

abbrev pub server_socket : ServerImpl → Option Ptr
server_socket c = c.m_socket

module _ {z : Zmq} (s : Ptr) where
  pub publish-SendsBytes : SendsBytes {z = z} server_socket s publish_message
  unfolding publish_message publish_worker
  publish-SendsBytes c message text m hs there =
      let (sent, _) = z.zmq_send s text no_flags m.world in
      rw hs (
        rw there (elim (Bool-cases (is_negative sent)) [
          | inl minus ↦ rw minus (rw (same s) (refl, refl, refl))
          | inr plus ↦ rw plus (rw (same s) (refl, refl, refl))
        ]))

  -- A server on the socket that has sent these texts, with memory to allocate.
  abbrev pub Published : List (Option Bytes) → ServerImpl → Machine z → Type 0
  Published v c m = Sent server_socket s v c m × (0 < m.heap.next)

  -- The message ends after it was sent, which leaves the memory alone.
  destroy-after :
      {text : Bytes} {m m1 : Machine z} {message : SendMessage} (b : Built text m message m1)
      (m2 : Machine z)
      → m2.heap ≡ m1.heap
      → 0 < m.heap.next
      → Message.destroy message m2 ≡ done tt (record m2 { heap = put m1.heap m.heap.next none })
  unfolding Message.destroy
  destroy-after b m2 e some_address = rw (b.owned) (rw e (rw (release-Built b some_address) refl))

  ends-Published :
      (c : ServerImpl) (text : Bytes) (m : Machine z) (message : SendMessage) (m1 : Machine z)
      → Built text m message m1
      → c.m_socket ≡ some s
      → 0 < m.heap.next
      → (o : Outcome z (Status × ServerImpl)) → Publishes c s text m1 o
      → Post
          (Published (some text ∷ texts_sent s m.trace))
          (λ _. ⊥)
          (and_then o λ (_, c') m2. and_then (Message.destroy message m2) λ _. pure c')
  unfolding put
  ends-Published c text m message m1 b hs some_address (done (_, c') m2)
        (rc, trace, heap, _, same_c) =
      rw (destroy-after b m2 heap some_address) (
        rw trace (
          rw (b.trace)
            (rw (same s) ((refl, ap (λ c. c.m_socket) same_c ∙ hs), rw (b.next) (omega arith)))))
  ends-Published c text m message m1 b hs some_address (fault _ _) h = absurd h
  ends-Published c text m message m1 b hs some_address (blocked _) h = absurd h

  publish_round-Published :
      (dist : ℕ → ℕ) (i : ℕ) (c : ServerImpl) (m : Machine z)
      → dist i < 3
      → c.m_socket ≡ some s
      → 0 < m.heap.next
      → Post
          (Published (get_elem? messages (dist i) ∷ texts_sent s m.trace))
          (λ _. ⊥)
          (publish_round dist i c m)
  unfolding publish_round message_at publish_message get_data get_size
  publish_round-Published dist i c m below hs some_address =
      let (text, there) = message_there (dist i) below in
      let (message, m1, built, b) = from_string-Built text m (messages-short (dist i) text there) in
      let sent =
        publish_worker-Publishes c (send_message message) s text no_flags m1 hs (read-Built b).0 in
      rw there (rw built (ends-Published c text m message m1 b hs some_address _ sent))

  -- On a bound server, with a generator that picks one of the three messages each time and memory
  -- to allocate: `n` rounds of `pub_sub_server` end, without a fault and without blocking, and have
  -- sent exactly the messages that the generator picked, in order and byte by byte, whatever the
  -- library returned for each of them.
  pub publish_rounds-Published :
      (dist : ℕ → ℕ) (n i : ℕ) (c : ServerImpl) (m : Machine z)
      → ((j : ℕ) → dist j < 3)
      → c.m_socket ≡ some s
      → 0 < m.heap.next
      → Post
          (Published (picked dist n i (texts_sent s m.trace)))
          (λ _. ⊥)
          (publish_rounds dist n i c m)
  unfolding publish_rounds picked
  publish_rounds-Published dist zero i c m below hs some_address = ((refl, hs), some_address)
  publish_rounds-Published dist (suc n) i c m below hs some_address =
      let first = get_elem? messages (dist i) ∷ texts_sent s m.trace in
      Post-bind (Published first) (Published (picked dist n (i + 1) first)) (λ _. ⊥)
        (publish_round dist i c m) _ (publish_round-Published dist i c m (below i) hs some_address)
        λ c' m' ((e, hs'), some_address').
          subst
            (λ old.
              Post (Published (picked dist n (i + 1) old)) (λ _. ⊥)
                (publish_rounds dist n (i + 1) c' m'))
            e (publish_rounds-Published dist n (i + 1) c' m' below hs' some_address')

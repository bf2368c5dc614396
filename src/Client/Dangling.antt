-- ===== src/Client/Dangling.antt =====
-- client_api.cpp, ClientImpl::send_worker: it hands the buffer of the message to the library, which
-- does not copy it (`zmq_msg_init_data` without a function that frees).
use zeromq_agent.Base.{
  ◌^◌, ◌-◌, ◌<◌, ◌≡◌, refl, ◌∙◌, Bool-cases, inl, inr, true, some, none, List, ◌∷◌, ◌++◌, length,
}
use zeromq_agent.Base.Int.{ℤ, pos, is_nonzero, is_negative, to_size}
use zeromq_agent.Memory.{Ptr, Bytes, Block, put}
use zeromq_agent.Memory.Laws.{block-put, release-put}
use zeromq_agent.Zmq.{
  Zmq, Event, no_flags, Machine, Outcome, done, fault, blocked, M, pure, ◌>>=◌, ◌>>◌,
}
use zeromq_agent.Zmq.Calls.{content}
use zeromq_agent.Zmq.Laws.{KeepsBuffers}
use zeromq_agent.Message
use zeromq_agent.Message.{Status, send_message, from_string, get_data, get_size}
use zeromq_agent.Message.Build.{built_heap, filled, from_string-done}
use zeromq_agent.Client
use zeromq_agent.Client.{ClientImpl, send, send_worker, send_made}
use zeromq_agent.Client.Send.{SendRun}

module _ {z : Zmq} where
  -- A message is made from a text, sent, and ends, as in the rounds of the clients.
  abbrev pub send_text : Bytes → ClientImpl → M z (Status × ClientImpl)
  send_text text c = do
    message ← from_string text
    (status, c') ← Client.send c (send_message message)
    Message.destroy message
    pure (status, c')

  -- The calls are those of one `send_worker`, on the bytes of the text at an address where there is no
  -- block any more.
  abbrev pub Dangles : Bytes → Ptr → Machine z → Outcome z (Status × ClientImpl) → Type 0
  Dangles text s m (done (status, _) m') =
      (p : Ptr) × (calls : List (Event z)) × (m'.trace ≡ calls ++ m.trace)
      × SendRun p (length text) s no_flags m.world (built_heap text m.heap) status calls
      × (m'.heap.block p ≡ none)
  Dangles text s m (fault _ _) = ⊥
  Dangles text s m (blocked _) = ⊥

  destroy-owned :
      (n : ℤ) (p : Ptr) (b : Block) (m : Machine z)
      → 0 < p
      → m.heap.block p ≡ some b
      → Message.destroy (record { m_size = n; m_data = p; m_is_allocated = some true }) m
        ≡ done tt (record m { heap = put m.heap p none })
  unfolding Message.destroy
  destroy-owned n p b m some_address there = rw (release-put m.heap p some_address there) refl

  -- By the end the library has a message on the bytes of the text, and their block is freed.
  pub send_text-Dangles :
      (text : Bytes) (c : ClientImpl) (s : Ptr) (m : Machine z)
      → KeepsBuffers z
      → length text < 2 ^ 31 - 1
      → 0 < m.heap.next
      → c.m_socket ≡ some s
      → Dangles text s m (send_text text c m)
  unfolding send send_worker send_made to_size get_data get_size
  send_text-Dangles text c s m keeps short some_address h =
      let p = m.heap.next in
      let n = length text in
      let heap = built_heap text m.heap in
      let (rc, msg, w) = z.zmq_msg_init_data p n m.world in
      let (sent, rest, w') = z.zmq_msg_send msg s no_flags w heap in
      let (rc', w'', heap') = z.zmq_msg_close rest w' heap in
      let wrapped = Event.msg_wrapped p n msg rc ∷ m.trace in
      let m1 = record m { world = w; heap = heap; trace = wrapped } in
      let m2 = record m {
        world = w'';
        heap = heap';
        trace =
            Event.msg_closed rest rc'
            ∷ Event.msg_sent s msg (content z msg heap) no_flags sent
            ∷ wrapped;
      } in
      let there : heap.block p ≡ some (filled text) = block-put _ p _ in
      let still = keeps p n s no_flags m.world heap some_address ∙ there in
      rw (from_string-done text m short) (elim (Bool-cases (is_nonzero rc)) [
        | inl bad ↦ rw bad (
            rw (destroy-owned (pos n) p (filled text) m1 some_address there)
              (p, _, refl, SendRun.not_wrapped bad, block-put heap p none))
        | inr good ↦ rw good (
            rw h (elim (Bool-cases (is_negative sent)) [
              | inl minus ↦ rw minus (
                  rw (destroy-owned (pos n) p (filled text) m2 some_address still)
                    (p, _, refl, SendRun.refused good minus, block-put heap' p none))
              | inr plus ↦ rw plus (
                  rw (destroy-owned (pos n) p (filled text) m2 some_address still)
                    (p, _, refl, SendRun.accepted good plus, block-put heap' p none))
            ]))
      ])

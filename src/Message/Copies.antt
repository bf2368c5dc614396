-- ===== src/Message/Copies.antt =====
-- general_api.h, SendMessage: copies and the assignment.
use zeromq_agent.Base.{◌<◌, ◌-◌, ◌^◌, ◌≡◌, refl, ◌∙◌, true, some, none, [], ◌∷◌, arith, length}
use zeromq_agent.Base.Int.{to_size}
use zeromq_agent.Memory.{Bytes, read, put}
use zeromq_agent.Memory.Laws.{block-put, block-put_ne, read-block, read_cells-defined, release-put}
use zeromq_agent.Zmq.{Zmq, Machine, Fault, done, fault, ◌>>=◌}
use zeromq_agent.Message.{SendMessage, copy, assign, from_string}
use zeromq_agent.Message.Build.{Built, from_string-Built, filled}

module _ {z : Zmq} where
  -- The end of a copy reads a flag that the copy constructor did not set, so that an assignment
  -- from a copied message is undefined, for any two messages and in any state.
  pub assign-copy :
      (this s : SendMessage) (m : Machine z) → assign this (copy s) m ≡ fault Fault.uninitialised m
  unfolding assign
  assign-copy this s m = refl

  module _ {s t : Bytes} {m m' m'' : Machine z} {a b : SendMessage} (p : Built s m a m')
      (q : Built t m' b m'') (h : 0 < m.heap.next) where
    -- The heap after `delete[]` of the old buffer.
    abbrev after : Machine z
    after = record m'' { heap = put m''.heap m.heap.next none }

    assign-done : assign a b m'' ≡ done (record a { m_size = b.m_size; m_data = b.m_data }) after
    unfolding assign
    assign-done = rw (q.owned) (
        rw p.start (
          rw (
            release-put m''.heap m.heap.next {b = filled s} h
              (q.others m.heap.next (omega (arith, p.next)) ∙ p.holds))))

    read-assign : read b.m_data (to_size b.m_size) after.heap ≡ some t
    unfolding to_size
    read-assign =
        rw (q.size, q.start)
          (read-block _ _ (length t)
            (block-put_ne _ _ _ m'.heap.next (omega (arith, p.next)) ∙ q.holds)
            (read_cells-defined t (none ∷ [])))

  -- A message made from `s` to which one made from `t` is assigned, with no copy between: the buffer
  -- of `s` is freed, and the assigned message owns a buffer in which `t` is read back.
  pub assign-from_string :
      (s t : Bytes) (m : Machine z)
      → length s < 2 ^ 31 - 1
      → length t < 2 ^ 31 - 1
      → 0 < m.heap.next
      → (a : SendMessage) × (m' : Machine z) × ((do
        this ← from_string s
        message ← from_string t
        assign this message)
            m
          ≡ done a m')
        × (a.m_is_allocated ≡ some true)
        × (read a.m_data (to_size a.m_size) m'.heap ≡ some t)
        × (m'.heap.block m.heap.next ≡ none)
  assign-from_string s t m hs ht h =
      let (a, m1, e, p) = from_string-Built s m hs in
      let (b, m2, f, q) = from_string-Built t m1 ht in
      (
        record a { m_size = b.m_size; m_data = b.m_data },
        after p q h,
        rw e (rw f (assign-done p q h)),
        p.owned,
        read-assign p q h,
        block-put _ _ _,
      )

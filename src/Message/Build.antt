-- ===== src/Message/Build.antt =====
-- general_api.h, SendMessage: a message made from a string, and its destructor.
use zeromq_agent.Base.{
  ℕ, zero, suc, ◌+◌, ◌-◌, ◌^◌, ◌<◌, ◌≡◌, refl, sym, ap, ◌∙◌, ◌≢◌, true, Option, none, some, [], ◌∷◌,
  ◌++◌, arith, length, replicate, length-replicate, take-length,
}
use zeromq_agent.Base.Int.{pos, to_size, to_int-eq_of_lt, increment-pos}
use zeromq_agent.Memory.{Ptr, Bytes, Block, Heap, grow, put, read, write, release, write_cells}
use zeromq_agent.Memory.Laws.{
  defined, write_cells-replicate, write_cells-defined, read_cells-defined, read_cells-past,
  block-put, write-put, read-block, read-none, release-put, IsHeap, block-grow, heap_laws,
  block-put_ne,
}
use zeromq_agent.Zmq.{Zmq, Machine, done, ◌>>=◌}
use zeromq_agent.Message.{SendMessage, from_string, destroy}
use native.Mathlib.Numerals.{add-one}
use native.Mathlib.Decide.{ℕ_discrete}

abbrev zeros : ℕ → Bytes
zeros n = replicate n 0

-- A block with room for one byte more than `s`, which is left without a value.
abbrev pub filled : Bytes → Block
filled s = defined s (none ∷ [])

replicate-suc : (n : ℕ) (c : Option ℕ) → replicate (suc n) c ≡ replicate n c ++ c ∷ []
replicate-suc zero c = refl
replicate-suc (suc n) c = ap (λ b. c ∷ b) (replicate-suc n c)

-- The heap after `new char[]`, `memset` and `memcpy`.
abbrev pub built_heap : Bytes → Heap → Heap
built_heap s h =
    put (put (grow (replicate (length s + 1) none) h) h.next (some (filled (zeros (length s)))))
      h.next (some (filled s))

write_cells-new : (n : ℕ) → write_cells (zeros n) (replicate (n + 1) none) ≡ some (filled (zeros n))
write_cells-new n = rw (add-one, replicate-suc n none) (write_cells-replicate n (none ∷ []))

clear_new :
    (n : ℕ) (h : Heap)
    → let h' = grow (replicate (n + 1) none) h in
      write h.next (zeros n) h' ≡ some (put h' h.next (some (filled (zeros n))))
clear_new n h = write-put _ h.next (zeros n) (block-grow _ h) (write_cells-new n)

copy_in :
    (s : Bytes) (h : Heap) (p : Ptr)
    → let h' = put h p (some (filled (zeros (length s)))) in
      write p s h' ≡ some (put h' p (some (filled s)))
copy_in s h p =
    write-put _ p s (block-put h p _)
      (write_cells-defined s (zeros (length s)) (none ∷ []) (sym (length-replicate (length s) 0)))

module _ {z : Zmq} where
  -- What a message made from `s` is, and how little of the machine has changed.
  pub record Built (s : Bytes) (m : Machine z) (msg : SendMessage) (m' : Machine z) : Type 0 where
    pub size : msg.m_size ≡ pos (length s)
    pub start : msg.m_data ≡ m.heap.next
    pub owned : msg.m_is_allocated ≡ some true
    pub holds : m'.heap.block m.heap.next ≡ some (filled s)
    pub others : (q : Ptr) → q ≢ m.heap.next → m'.heap.block q ≡ m.heap.block q
    pub next : m'.heap.next ≡ m.heap.next + 1
    pub world : m'.world ≡ m.world
    pub trace : m'.trace ≡ m.trace

  pub from_string-done :
      (s : Bytes) (m : Machine z)
      → length s < 2 ^ 31 - 1
      → from_string s m
        ≡ done
            (record { m_size = pos (length s); m_data = m.heap.next; m_is_allocated = some true })
            (record m { heap = built_heap s m.heap })
  unfolding from_string to_size
  from_string-done s m h =
      rw (to_int-eq_of_lt (length s) (omega arith), increment-pos (length s) h)
        (rw (clear_new (length s) m.heap)
          (rw (take-length s) (rw (copy_in s (grow _ m.heap) m.heap.next))))

  pub from_string-Built :
      (s : Bytes) (m : Machine z)
      → length s < 2 ^ 31 - 1
      → (msg : SendMessage) × (m' : Machine z) × (from_string s m ≡ done msg m') × Built s m msg m'
  from_string-Built s m h = (
    _,
    _,
    from_string-done s m h,
    record {
      size = refl;
      start = refl;
      owned = refl;
      holds = block-put _ _ _;
      others = λ q ne. grind (heap_laws, ne);
      next = grind heap_laws;
      world = refl;
      trace = refl;
    },
  )

  module _ {s : Bytes} {m m' : Machine z} {msg : SendMessage} (b : Built s m msg m') where
    -- The content is read back, and no terminating zero stands behind it.
    pub read-Built :
        (read msg.m_data (to_size msg.m_size) m'.heap ≡ some s)
        × (read msg.m_data (length s + 1) m'.heap ≡ none)
    unfolding to_size
    read-Built =
        rw (b.size, b.start, add-one)
          (
            read-block _ _ (length s) b.holds (read_cells-defined s (none ∷ [])),
            read-none _ _ (length s) b.holds (read_cells-past s []),
          )

    pub release-Built :
        0 < m.heap.next → release msg.m_data m'.heap ≡ some (put m'.heap m.heap.next none)
    release-Built h = rw b.start (release-put _ _ h b.holds)

    pub IsHeap-Built : IsHeap m.heap → IsHeap m'.heap
    IsHeap-Built h = record {
      next_pos = omega (arith, b.next);
      no_null = grind (arith, b.others, h.no_null, h.next_pos);
      unused = λ q le. grind (arith, b.others, h.unused, b.next);
    }

    pub destroy-Built :
        0 < m.heap.next
        → destroy msg m' ≡ done tt (record m' { heap = put m'.heap m.heap.next none })
    unfolding destroy
    destroy-Built h = rw b.owned (rw (release-Built h))

  -- For every string shorter than 2^31 - 1 bytes the constructor ends without a fault, the bytes at
  -- `get_data ()` are the string, and the byte behind them has no value: the buffer is one byte
  -- longer than the string, but holds no terminating zero.
  pub read-from_string :
      (s : Bytes) (m : Machine z)
      → length s < 2 ^ 31 - 1
      → (msg : SendMessage) × (m' : Machine z) × (from_string s m ≡ done msg m')
        × (read msg.m_data (to_size msg.m_size) m'.heap ≡ some s)
        × (read msg.m_data (length s + 1) m'.heap ≡ none)
  read-from_string s m h =
      let (msg, m', e, b) = from_string-Built s m h in
      (msg, m', e, (read-Built b).0, (read-Built b).1)

  -- A message that is made from a string shorter than 2^31 - 1 bytes and then destroyed leaves every
  -- block of the memory as it was, and no call of the library is made.
  pub destroy-from_string :
      (s : Bytes) (m : Machine z)
      → length s < 2 ^ 31 - 1
      → IsHeap m.heap
      → (m' : Machine z) × ((from_string s >>= destroy) m ≡ done tt m')
        × ((q : Ptr) → m'.heap.block q ≡ m.heap.block q)
        × (m'.trace ≡ m.trace)
  destroy-from_string s m h ih =
      let (msg, m', e, b) = from_string-Built s m h in
      (
        record m' { heap = put m'.heap m.heap.next none },
        rw e (destroy-Built b ih.next_pos),
        λ q. same b q (ℕ_discrete q m.heap.next),
        b.trace,
      )
    where
      same :
          {m' : Machine z} {msg : SendMessage}
          → Built s m msg m'
          → (q : Ptr) → Dec (q ≡ m.heap.next)
          → (put m'.heap m.heap.next none).block q ≡ m.heap.block q
      same b q (yes p) = rw p (block-put _ _ _ ∙ sym (ih.unused m.heap.next (omega arith)))
      same b q (no p) = block-put_ne _ _ _ q p ∙ b.others q p

-- ===== src/Message/Tests.antt =====
-- The theorems on messages at an example, and a run.
use zeromq_agent.Base.{◌+◌, ◌-◌, ◌^◌, ◌≡◌, refl, some, none, [], ◌∷◌, arith, length}
use zeromq_agent.Base.Int.{to_size, to_int, negsuc}
use zeromq_agent.Memory.{Ptr, Bytes, read}
use zeromq_agent.Zmq.{Machine, done, ◌>>=◌}
use zeromq_agent.Zmq.Sample.{sample, fresh, fresh-IsHeap, hi}
use zeromq_agent.Message.{SendMessage, from_string, destroy}
use zeromq_agent.Message.Build.{read-from_string, destroy-from_string}

abbrev yes_text : Bytes
yes_text = b'y' ∷ b'e' ∷ b's' ∷ []

read-from_string_example :
    (msg : SendMessage) × (m' : Machine sample) × (from_string hi fresh ≡ done msg m')
    × (read msg.m_data (to_size msg.m_size) m'.heap ≡ some hi)
    × (read msg.m_data (length hi + 1) m'.heap ≡ none)
read-from_string_example = read-from_string hi fresh (omega arith)

destroy-from_string_example :
    (m' : Machine sample) × ((from_string hi >>= destroy) fresh ≡ done tt m')
    × ((q : Ptr) → m'.heap.block q ≡ none)
    × (m'.trace ≡ [])
destroy-from_string_example = destroy-from_string hi fresh (omega arith) fresh-IsHeap

-- A size of 2^31 becomes a negative `int`.
to_int_wraps : to_int (2 ^ 31) ≡ negsuc (2 ^ 31 - 1)
unfolding to_int
to_int_wraps = refl

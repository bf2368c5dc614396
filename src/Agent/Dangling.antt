-- ===== src/Agent/Dangling.antt =====
-- zeromq_agent.cpp, req_rep_worker: the reply is a local variable of the round that sends it.
use zeromq_agent.Base.{◌^◌, ◌-◌, ◌<◌, ◌≡◌, some, none, List, ◌++◌, length, arith}
use zeromq_agent.Base.Int.{to_size}
use zeromq_agent.Memory.{Ptr, Bytes, read}
use zeromq_agent.Zmq.{Zmq, Event, no_flags, Machine, Outcome, done, fault, blocked, and_then, pure}
use zeromq_agent.Zmq.Laws.{KeepsBuffers}
use zeromq_agent.Message
use zeromq_agent.Message.{
  SendMessage, Status, own_message, send_message, from_string, get_data, get_size,
}
use zeromq_agent.Message.Build.{built_heap}
use zeromq_agent.Client
use zeromq_agent.Client.{ClientImpl}
use zeromq_agent.Client.Send.{SendRun}
use zeromq_agent.Client.Dangling.{Dangles, send_text-Dangles}
use zeromq_agent.Agent.{reply_text, work_answer}

length-reply : length reply_text < 2 ^ 31 - 1
length-reply = omega arith

module _ {z : Zmq} where
  -- After the round: the calls are those of one `send_worker` on the bytes of the reply, which stand
  -- at an address where there is no block any more.
  abbrev pub LeavesFreed : Ptr → Machine z → Outcome z ClientImpl → Type 0
  LeavesFreed s m (done _ m') =
      (p : Ptr) × (status : Status) × (calls : List (Event z)) × (m'.trace ≡ calls ++ m.trace)
      × SendRun p (length reply_text) s no_flags m.world (built_heap reply_text m.heap) status calls
      × (m'.heap.block p ≡ none)
  LeavesFreed s m (fault _ _) = ⊥
  LeavesFreed s m (blocked _) = ⊥

  -- The end of the message and of the round.
  ended :
      (s : Ptr) (m : Machine z) (r : Status × ClientImpl) (o : Outcome z (Unit {0}))
      → Dangles reply_text s m (and_then o λ _. pure r)
      → LeavesFreed s m (and_then o λ _. pure r.1)
  ended s m (status, c) (done _ m') (p, calls, trace, run, freed) =
      (p, status, calls, trace, run, freed)
  ended s m r (fault _ _) h = h
  ended s m r (blocked _) h = h

  -- From `send` on.
  after_send :
      (s : Ptr) (m : Machine z) (message : SendMessage) (o : Outcome z (Status × ClientImpl))
      → Dangles reply_text s m
          (and_then o λ r m1. and_then (Message.destroy message m1) λ _. pure r)
      → LeavesFreed s m (and_then o λ r m1. and_then (Message.destroy message m1) λ _. pure r.1)
  after_send s m message (done r m1) h = ended s m r (Message.destroy message m1) h
  after_send s m message (fault _ _) h = h
  after_send s m message (blocked _) h = h

  after_text :
      (s : Ptr) (m : Machine z) (c : ClientImpl) (o : Outcome z SendMessage)
      → Dangles reply_text s m (
          and_then o λ message m1.
            and_then
              (Client.send c (send_message message) m1)
              λ r m2. and_then (Message.destroy message m2) λ _. pure r)
      → LeavesFreed s m (
          and_then o λ message m1.
            and_then
              (Client.send c (send_message message) m1)
              λ r m2. and_then (Message.destroy message m2) λ _. pure r.1)
  after_text s m c (done message m1) h =
      after_send s m message (Client.send c (send_message message) m1) h
  after_text s m c (fault _ _) h = h
  after_text s m c (blocked _) h = h

  -- On a connected client whose last message can be read, the answer of req_rep_worker ends without a
  -- fault, and the library is left with a freed buffer: the message that it was given wraps the bytes
  -- of the reply at an address, whose block is freed by the end of the round. Where the status is OK
  -- the library has taken that message. The library must not free the buffer itself, and NULL must not
  -- be the next address of the memory.
  pub work_answer-LeavesFreed :
      (c : ClientImpl) (s : Ptr) (xs : Bytes) (m : Machine z)
      → KeepsBuffers z
      → 0 < m.heap.next
      → c.m_socket ≡ some s
      → read (get_data c.m_message) (to_size (get_size c.m_message)) m.heap ≡ some xs
      → LeavesFreed s m (work_answer own_message c m)
  unfolding work_answer
  work_answer-LeavesFreed c s xs m keeps some_address h there = rw there (
      after_text s m c (from_string reply_text m)
        (send_text-Dangles reply_text c s m keeps length-reply some_address h))

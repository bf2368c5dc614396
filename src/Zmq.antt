-- ===== src/Zmq.antt =====
-- libzmq (zmq.h) as the program calls it. It is not part of the repository, so it is a parameter:
-- a record of functions over an unknown state. The record says nothing of what they do. With it
-- stand the machine that the C++ code runs on, the record of the calls that it made, and the
-- monad of its methods.
pub mod Calls
pub mod Laws
pub mod Arrivals
pub mod Parts
pub mod Sample
use zeromq_agent.Base.{ℕ, Bool, String, Option, List, ◌∷◌}
use zeromq_agent.Base.Int.{ℤ}
use zeromq_agent.Memory.{Ptr, Bytes, Heap}

-- The socket types that the source asks for: ZMQ_PUB, ZMQ_SUB and so on.
pub data SocketKind : Type 0 where
  zmq_pub zmq_sub zmq_req zmq_rep zmq_router zmq_dealer zmq_xpub zmq_xsub : SocketKind

pub data SocketOption : Type 0 where
  zmq_subscribe : SocketOption

-- The flags that the source passes: 0, ZMQ_SNDMORE, and ZMQ_DONTWAIT, whose older name is
-- ZMQ_NOBLOCK.
pub data Flags : Type 0 where
  no_flags zmq_sndmore zmq_dontwait : Flags

pub record Zmq : Type 1 where
  -- the state of the library, of the network and of `errno`
  pub World : Type 0
  -- `zmq_msg_t`
  pub Msg : Type 0
  pub errno : World → ℕ
  pub zmq_strerror : ℕ → String
  pub zmq_ctx_new : World → Ptr × World
  pub zmq_ctx_destroy : Ptr → World → ℤ × World
  pub zmq_socket : Ptr → SocketKind → World → Ptr × World
  pub zmq_close : Ptr → World → ℤ × World
  pub zmq_connect : Ptr → String → World → ℤ × World
  pub zmq_bind : Ptr → String → World → ℤ × World
  pub zmq_setsockopt : Ptr → SocketOption → Bytes → World → ℤ × World
  pub zmq_send : Ptr → Bytes → Flags → World → ℤ × World
  -- the result and the bytes that it writes to the buffer, whose size it is told
  pub zmq_recv : Ptr → ℕ → Flags → World → ℤ × Bytes × World
  pub zmq_proxy : Ptr → Ptr → World → ℤ × World
  -- sockets, and for each place which had ZMQ_POLLIN in `revents` before and has it afterwards
  pub zmq_poll : List Ptr → (ℕ → Bool) → World → (ℕ → Bool) × World
  pub zmq_msg_init : World → ℤ × Msg × World
  pub zmq_msg_init_data : Ptr → ℕ → World → ℤ × Msg × World
  -- allocates the buffer of the message that it stores
  pub zmq_msg_recv : Msg → Ptr → Flags → World → Heap → ℤ × Msg × World × Heap
  pub zmq_msg_send : Msg → Ptr → Flags → World → Heap → ℤ × Msg × World
  pub zmq_msg_data : Msg → Ptr
  pub zmq_msg_size : Msg → ℕ
  pub zmq_msg_more : Msg → ℤ
  -- may free the buffer
  pub zmq_msg_close : Msg → World → Heap → ℤ × World × Heap

-- A call of the library, with its arguments and its result.
pub data Event (z : Zmq) : Type 0 where
  ctx_new : Ptr → Event z
  ctx_destroyed : Ptr → ℤ → Event z
  socket_made : Ptr → SocketKind → Ptr → Event z
  closed : Ptr → ℤ → Event z
  connected bound : Ptr → String → ℤ → Event z
  option_set : Ptr → SocketOption → Bytes → ℤ → Event z
  sent : Ptr → Bytes → Flags → ℤ → Event z
  received : Ptr → Bytes → ℤ → Event z
  proxied : Ptr → Ptr → ℤ → Event z
  polled : List Ptr → (ℕ → Bool) → Event z
  msg_made : z.Msg → ℤ → Event z
  msg_wrapped : Ptr → ℕ → z.Msg → ℤ → Event z
  -- with the bytes of the message after the call that receives it, and before the one that sends it;
  -- `none` where they can not be read
  msg_received : Ptr → Flags → z.Msg → Option Bytes → ℤ → Event z
  msg_sent : Ptr → z.Msg → Option Bytes → Flags → ℤ → Event z
  msg_closed : z.Msg → ℤ → Event z

-- The latest call stands first in `trace`.
pub record Machine (z : Zmq) : Type 0 where
  pub world : z.World
  pub heap : Heap
  pub trace : List (Event z)

-- Undefined behaviour, or an exception that nothing catches.
pub data Fault : Type 0 where
  -- a variable is read that was never given a value
  uninitialised : Fault
  -- memory is read or written outside a live block, or a byte without a value is read
  bad_access : Fault
  bad_free : Fault
  -- std::bad_array_new_length
  bad_length : Fault
  int_overflow : Fault
  -- a failed `assert`
  assertion : Fault

-- `blocked` is a run that does not end within its fuel, or waits for ever.
pub data Outcome (z : Zmq) (A : Type 0) : Type 0 where
  done : A → Machine z → Outcome z A
  fault : Fault → Machine z → Outcome z A
  blocked : Machine z → Outcome z A

abbrev pub M : Zmq → Type 0 → Type 0
M z A = Machine z → Outcome z A

module _ {z : Zmq} where
  abbrev pub pure : {A : Type 0} → A → M z A
  pure a m = done a m

  abbrev pub fail_with : {A : Type 0} → Fault → M z A
  fail_with f m = fault f m

  abbrev pub and_then : {A B : Type 0} → Outcome z A → (A → M z B) → Outcome z B
  and_then (done a m) k = k a m
  and_then (fault f m) k = fault f m
  and_then (blocked m) k = blocked m

  infixl 5 ◌>>=◌ ◌>>◌
  abbrev pub ◌>>=◌ : {A B : Type 0} → M z A → (A → M z B) → M z B
  ◌>>=◌ c k m = and_then (c m) k

  abbrev pub ◌>>◌ : {B : Type 0} → M z (Unit {0}) → M z B → M z B
  c >> k = c >>= λ _. k

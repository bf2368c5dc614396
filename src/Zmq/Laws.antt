-- ===== src/Zmq/Laws.antt =====
-- What the manual of libzmq says of the buffers of messages, as far as the program relies on it.
use zeromq_agent.Base.{ℕ, ◌<◌, ◌≤◌, ◌≡◌, true, false, some, none}
use zeromq_agent.Base.Int.{is_negative, is_nonzero}
use zeromq_agent.Memory.{Ptr, Bytes, Heap, read}
use zeromq_agent.Zmq.{Zmq, Flags}

pub record ManagesBuffers (z : Zmq) : Type 0 where
  -- after a successful `zmq_msg_recv` the content stands at `zmq_msg_data`, `zmq_msg_size` bytes long
  pub delivers :
      (msg : z.Msg) (s : Ptr) (flags : Flags) (w : z.World) (h : Heap)
      → let (n, msg', _, h') = z.zmq_msg_recv msg s flags w h in
        is_negative n ≡ false
        → (xs : Bytes) × (read (z.zmq_msg_data msg') (z.zmq_msg_size msg') h' ≡ some xs)
  -- `zmq_msg_init` makes a message with no bytes, and a `zmq_msg_recv` that fails leaves it so
  pub starts_empty : (w : z.World) → z.zmq_msg_size (z.zmq_msg_init w).1 ≡ 0
  pub stays_empty :
      (msg : z.Msg) (s : Ptr) (flags : Flags) (w : z.World) (h : Heap)
      → let (n, msg', _, _) = z.zmq_msg_recv msg s flags w h in
        is_negative n ≡ true → z.zmq_msg_size msg ≡ 0 → z.zmq_msg_size msg' ≡ 0
  -- after `zmq_msg_close` the content of a message that was received is not there any more
  pub frees :
      (msg : z.Msg) (s : Ptr) (flags : Flags) (w : z.World) (h : Heap) (k : ℕ)
      → let (n, msg', w', h') = z.zmq_msg_recv msg s flags w h in
        is_negative n ≡ false
        → 0 < k
        → read (z.zmq_msg_data msg') k (z.zmq_msg_close msg' w' h').2 ≡ none

-- Every message of several parts ends, and none has more than `bound` parts. `parts` counts those
-- that are still to come of the message that is being received on a socket.
pub record EndsMessages (z : Zmq) : Type 0 where
  pub parts : Ptr → z.World → ℕ
  pub bound : ℕ
  pub below : (s : Ptr) (w : z.World) → parts s w < bound
  pub made : (s : Ptr) (w : z.World) → parts s (z.zmq_msg_init w).2 ≤ parts s w
  pub received :
      (msg : z.Msg) (s : Ptr) (flags : Flags) (w : z.World) (h : Heap)
      → let (_, msg', w', _) = z.zmq_msg_recv msg s flags w h in
        is_nonzero (z.zmq_msg_more msg') ≡ true → parts s w' < parts s w
  pub sent :
      (msg : z.Msg) (t : Ptr) (flags : Flags) (w : z.World) (h : Heap) (s : Ptr)
      → parts s (z.zmq_msg_send msg t flags w h).2 ≤ parts s w
  pub closed :
      (msg : z.Msg) (w : z.World) (h : Heap) (s : Ptr)
      → parts s (z.zmq_msg_close msg w h).1 ≤ parts s w

-- As documented, the library does not free a buffer that came without a function for it: to close
-- what is left of a message after `zmq_msg_send` leaves the buffer as it was.
abbrev pub KeepsBuffers : Zmq → Type 0
KeepsBuffers z =
    (p : Ptr) (n : ℕ) (s : Ptr) (flags : Flags) (w : z.World) (h : Heap)
    → 0 < p
    → let (_, msg, w1) = z.zmq_msg_init_data p n w in
      let (_, rest, w2) = z.zmq_msg_send msg s flags w1 h in
      let (_, _, h') = z.zmq_msg_close rest w2 h in h'.block p ≡ h.block p

-- A message that `zmq_msg_init_data` makes has its bytes where the caller says.
abbrev pub Refers : Zmq → Type 0
Refers z =
    (p : Ptr) (n : ℕ) (w : z.World)
    → let (_, msg, _) = z.zmq_msg_init_data p n w in
      (z.zmq_msg_data msg ≡ p) × (z.zmq_msg_size msg ≡ n)

-- ===== src/Zmq/Calls.antt =====
-- The calls of libzmq and of the language's memory operations as methods of the machine. A call
-- that hands memory to the library reads it first, and so faults where the memory is not there.
use zeromq_agent.Base.{ℕ, Bool, String, Option, none, some, List, ◌∷◌, replicate}
use zeromq_agent.Base.Int.{ℤ, pos, negsuc, to_size, increment}
use zeromq_agent.Memory.{Ptr, Bytes, Block, Heap, allocate, release, read, write, write_cells}
use zeromq_agent.Zmq.{
  Zmq, SocketKind, SocketOption, Flags, Event, Machine, Fault, Outcome, M, done, fault,
}
use zeromq_agent.Zmq

-- The bytes of a message.
abbrev pub content : (z : Zmq) → z.Msg → Heap → Option Bytes
content z msg h = read (z.zmq_msg_data msg) (z.zmq_msg_size msg) h

module _ {z : Zmq} where
  -- A call that changes the state of the library, and is put on the record.
  abbrev pub perform : {A : Type 0} → (z.World → A × z.World) → (A → Event z) → M z A
  perform f event m =
      let (a, w) = f m.world in done a (record m { world = w; trace = event a ∷ m.trace })

  -- `zmq_strerror (errno)`
  abbrev pub last_error : M z String
  last_error m = done (z.zmq_strerror (z.errno m.world)) m

  abbrev pub zmq_ctx_new : M z Ptr
  zmq_ctx_new = perform z.zmq_ctx_new Event.ctx_new

  abbrev pub zmq_ctx_destroy : Ptr → M z ℤ
  zmq_ctx_destroy ctx = perform (z.zmq_ctx_destroy ctx) (Event.ctx_destroyed ctx)

  abbrev pub zmq_socket : Ptr → SocketKind → M z Ptr
  zmq_socket ctx kind = perform (z.zmq_socket ctx kind) (Event.socket_made ctx kind)

  abbrev pub zmq_close : Ptr → M z ℤ
  zmq_close s = perform (z.zmq_close s) (Event.closed s)

  abbrev pub zmq_connect : Ptr → String → M z ℤ
  zmq_connect s url = perform (z.zmq_connect s url) (Event.connected s url)

  abbrev pub zmq_bind : Ptr → String → M z ℤ
  zmq_bind s url = perform (z.zmq_bind s url) (Event.bound s url)

  abbrev pub zmq_setsockopt : Ptr → SocketOption → Bytes → M z ℤ
  zmq_setsockopt s option value =
      perform (z.zmq_setsockopt s option value) (Event.option_set s option value)

  abbrev pub zmq_proxy : Ptr → Ptr → M z ℤ
  zmq_proxy front back = perform (z.zmq_proxy front back) (Event.proxied front back)

  abbrev pub zmq_poll : List Ptr → (ℕ → Bool) → M z (ℕ → Bool)
  zmq_poll sockets revents = perform (z.zmq_poll sockets revents) (Event.polled sockets)

  -- The value, or a fault where there is none.
  abbrev pub or_fault : {A : Type 0} → Fault → Option A → M z A
  or_fault f none m = fault f m
  or_fault f (some a) m = done a m

  abbrev pub set_heap : Fault → Option Heap → M z (Unit {0})
  set_heap f none m = fault f m
  set_heap f (some h) m = done tt (record m { heap = h })

  -- The `n` bytes at `p`.
  abbrev pub load : Ptr → ℕ → M z Bytes
  load p n m = or_fault Fault.bad_access (read p n m.heap) m

  -- `memcpy` or `memset`.
  abbrev pub store : Ptr → Bytes → M z (Unit {0})
  store p xs m = set_heap Fault.bad_access (write p xs m.heap) m

  -- `new char[n]`
  abbrev pub new_array : ℤ → M z Ptr
  new_array (negsuc _) m = fault Fault.bad_length m
  new_array (pos n) m =
      let (p, h) = allocate (replicate n none) m.heap in done p (record m { heap = h })

  -- `delete[] p`
  abbrev pub delete_array : Ptr → M z (Unit {0})
  delete_array p m = set_heap Fault.bad_free (release p m.heap) m

  -- The value of a variable, which is `none` where none was given to it.
  abbrev pub value_of : {A : Type 0} → Option A → M z A
  value_of = or_fault Fault.uninitialised

  -- `x + 1` on `int`
  abbrev pub plus_one : ℤ → M z ℤ
  plus_one x = or_fault Fault.int_overflow (increment x)

  abbrev pub zmq_send : Ptr → Ptr → ℤ → Flags → M z ℤ
  zmq_send s p size flags =
      Zmq.◌>>=◌ (load p (to_size size))
        λ xs. perform (z.zmq_send s xs flags) (Event.sent s xs flags)

  -- What is written over a local array. A byte past its end is a fault.
  abbrev pub zmq_recv : Ptr → Block → ℕ → Flags → M z (ℤ × Block)
  zmq_recv s buffer len flags m =
      let (n, xs, w) = z.zmq_recv s len flags m.world in
      let m' = record m { world = w; trace = Event.received s xs n ∷ m.trace } in
      Zmq.and_then (or_fault Fault.bad_access (write_cells xs buffer) m')
        λ buffer' m''. done (n, buffer') m''

  abbrev pub zmq_msg_init : M z (ℤ × z.Msg)
  zmq_msg_init m =
      let (rc, msg, w) = z.zmq_msg_init m.world in
      done (rc, msg) (record m { world = w; trace = Event.msg_made msg rc ∷ m.trace })

  -- The library reads the buffer when it sends the message.
  abbrev pub zmq_msg_init_data : Ptr → ℤ → M z (ℤ × z.Msg)
  zmq_msg_init_data p size m =
      let n = to_size size in
      let (rc, msg, w) = z.zmq_msg_init_data p n m.world in
      done (rc, msg) (record m { world = w; trace = Event.msg_wrapped p n msg rc ∷ m.trace })

  abbrev pub zmq_msg_recv : z.Msg → Ptr → Flags → M z (ℤ × z.Msg)
  zmq_msg_recv msg s flags m =
      let (rc, msg', w, h) = z.zmq_msg_recv msg s flags m.world m.heap in
      done (rc, msg')
        (record m {
          world = w;
          heap = h;
          trace = Event.msg_received s flags msg' (content z msg' h) rc ∷ m.trace;
        })

  -- The message is passed by its address; the library takes its content.
  abbrev pub zmq_msg_send : z.Msg → Ptr → Flags → M z (ℤ × z.Msg)
  zmq_msg_send msg s flags m =
      let (rc, msg', w) = z.zmq_msg_send msg s flags m.world m.heap in
      let event = Event.msg_sent s msg (content z msg m.heap) flags rc in
      done (rc, msg') (record m { world = w; trace = event ∷ m.trace })

  abbrev pub zmq_msg_close : z.Msg → M z ℤ
  zmq_msg_close msg m =
      let (rc, w, h) = z.zmq_msg_close msg m.world m.heap in
      done rc (record m { world = w; heap = h; trace = Event.msg_closed msg rc ∷ m.trace })

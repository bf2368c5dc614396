-- ===== src/Weather/Subscriber/Unterminated.antt =====
-- wuclient.c next to wuserver.c: the text that the client prints has no end.
use zeromq_agent.Base.{ℕ, String, suc, ◌≤◌, ◌≡◌, refl, false, [], ◌∷◌, length, arith}
use zeromq_agent.Base.Int.{ℤ, pos}
use zeromq_agent.Memory.{Ptr, Bytes, Block}
use zeromq_agent.Memory.Text.{
  Unterminated, has_no_zero-Unterminated, c_string-indeterminate, write_cells-new,
}
use zeromq_agent.Zmq.{
  Zmq, zmq_sub, zmq_subscribe, no_flags, Event, Machine, Fault, Outcome, done, fault, blocked,
}
use zeromq_agent.Weather.{test_size}
use zeromq_agent.Weather.Timing.{Statistics, at_start, is_failed}
use zeromq_agent.Weather.Publisher.{buffer_to_send}
use zeromq_agent.Weather.Subscriber.{
  Clock, end_point, new_buffer, update_round, packets, client_main,
}
use zeromq_agent.Weather.Subscriber.Ends.{set_up}

-- The client gets through to the server: its calls succeed, and `zmq_recv` brings the text of the
-- server.
pub record Connects (z : Zmq) : Type 0 where
  pub connects : (s : Ptr) (url : String) (w : z.World) → (z.zmq_connect s url w).0 ≡ pos 0
  pub subscribes :
      (s : Ptr) (filter : Bytes) (w : z.World)
      → (z.zmq_setsockopt s zmq_subscribe filter w).0 ≡ pos 0
  pub succeeds :
      (s : Ptr) (len : ℕ) (w : z.World) → is_failed (z.zmq_recv s len no_flags w).0 ≡ false
  pub delivers :
      (s : Ptr) (len : ℕ) (w : z.World)
      → length buffer_to_send ≤ len
      → (z.zmq_recv s len no_flags w).1 ≡ buffer_to_send

pub text-Unterminated : Unterminated buffer_to_send
unfolding buffer_to_send
text-Unterminated = has_no_zero-Unterminated buffer_to_send refl

pub length-text : length buffer_to_send ≡ 74
unfolding buffer_to_send
length-text = refl

module _ {z : Zmq} where
  -- The first message is the server's text, and its output reads an indeterminate byte.
  abbrev pub PrintsPast : {A : Type 0} → Machine z → Outcome z A → Type 0
  PrintsPast m (fault f m') =
      (context : Ptr) × (subscriber : Ptr) × (size : ℤ) × (f ≡ Fault.bad_access)
      × (m'.trace
          ≡ Event.received subscriber buffer_to_send size ∷ set_up context subscriber m.trace)
  PrintsPast m (done _ _) = ⊥
  PrintsPast m (blocked _) = ⊥

  update_round-fault :
      (clock : Clock) (i : ℕ) (sub : Ptr) (s : Statistics) (m : Machine z)
      → Connects z
      → let (n, _, w) = z.zmq_recv sub test_size no_flags m.world in
        update_round clock i sub (new_buffer test_size) s m
        ≡ fault Fault.bad_access
            (record m { world = w; trace = Event.received sub buffer_to_send n ∷ m.trace })
  unfolding update_round new_buffer
  update_round-fault clock i sub s m c =
      let fits = length-text in
      let (rest, e) = write_cells-new buffer_to_send test_size (omega arith) in
      rw (c.delivers sub test_size m.world (omega arith)) (
        rw e (
          rw (c.succeeds sub test_size m.world)
            (rw (c_string-indeterminate buffer_to_send rest text-Unterminated) refl)))

  packets-fault :
      (clock : Clock) (n i : ℕ) (sub : Ptr) (b : Block) (s : Statistics) (m m' : Machine z)
      → update_round clock i sub b s m ≡ fault Fault.bad_access m'
      → packets clock (suc n) i sub b s m ≡ fault Fault.bad_access m'
  unfolding packets
  packets-fault clock n i sub b s m m' e = rw e refl

  -- A client whose calls succeed, and which the text that wuserver.c sends reaches as its first
  -- message, reads past that text: `zmq_recv` stores its 74 bytes without a 0 in a buffer that is not
  -- initialised, and the output of the buffer as a text goes on to a byte that has no value. Nothing
  -- is called after the first message.
  pub client_main-PrintsPast :
      (clock : Clock) (m : Machine z) → Connects z → PrintsPast m (client_main clock m)
  unfolding client_main
  client_main-PrintsPast clock m c =
      let (context, w1) = z.zmq_ctx_new m.world in
      let (sub, w2) = z.zmq_socket context zmq_sub w1 in
      let (rc, w3) = z.zmq_connect sub end_point w2 in
      let (rc', w4) = z.zmq_setsockopt sub zmq_subscribe [] w3 in
      let ready = record m { world = w4; trace = set_up context sub m.trace } in
      let stop = update_round-fault clock 0 sub at_start ready c in
      rw (c.connects sub end_point w2) (
        rw (c.subscribes sub [] w3) (
          rw (packets-fault clock 999 0 sub (new_buffer test_size) at_start ready _ stop)
            (context, sub, _, refl, refl)))

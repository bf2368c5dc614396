-- ===== src/Weather/Broadcast.antt =====
-- wuclient.c and wuserver.c together: the server's text on the client's output.
use zeromq_agent.Base.{
  ℕ, suc, ◌≡◌, ◌⊎◌, inl, inr, refl, ◌∙◌, ap, Bool-cases, false, Option, none, List, [], ◌∷◌, All,
  arith,
}
use zeromq_agent.Base.Int.{ℤ, negsuc, is_nonzero}
use zeromq_agent.Memory.{Ptr, Bytes}
use zeromq_agent.Memory.Text.{c_string-indeterminate, write_cells-new, write_cells-fits}
use zeromq_agent.Zmq.{
  Zmq, zmq_sub, zmq_subscribe, no_flags, Event, Machine, Fault, Outcome, done, fault, blocked, M,
  and_then,
}
use zeromq_agent.Zmq.Parts.{calls_of}
use zeromq_agent.Weather.{test_size}
use zeromq_agent.Weather.Timing.{Statistics, at_start, is_failed}
use zeromq_agent.Weather.Publisher.{buffer_to_send, server_main}
use zeromq_agent.Weather.Publisher.Publishes.{
  SendsText, ServerEnds, after_sends, server_main-ServerEnds,
}
use zeromq_agent.Weather.Subscriber.{
  Clock, end_point, new_buffer, update_round, packets, client_main, finish,
}
use zeromq_agent.Weather.Subscriber.Packets.{Truncates, Failed}
use zeromq_agent.Weather.Subscriber.Ends.{set_up, Refused, is_zero, length-new_buffer}
use zeromq_agent.Weather.Subscriber.Unterminated.{text-Unterminated, length-text}
use mathlib.Core.List.{Memᴰ}

abbrev IsText : Bytes → Type 0
IsText xs = xs ≡ buffer_to_send

All-Memᴰ : {x : Bytes} {xs : List Bytes} → All IsText xs → Memᴰ x xs → IsText x
All-Memᴰ all (Memᴰ.head e) = e ∙ all.0
All-Memᴰ all (Memᴰ.tail h) = All-Memᴰ all.1 h

-- What `zmq_recv` brings to the client is one of the messages. They fit its buffer, so that they
-- are not cut.
abbrev pub Brings : Zmq → List Bytes → Type 0
Brings z messages =
    (s : Ptr) (w : z.World)
    → let (size, xs, _) = z.zmq_recv s test_size no_flags w in
      is_failed size ≡ false → Memᴰ xs messages

module _ {z : Zmq} where
  -- The messages that were sent with `zmq_send`.
  abbrev pub texts : List (Event z) → List Bytes
  texts [] = []
  texts (Event.sent _ xs _ _ ∷ trace) = xs ∷ texts trace
  texts (_ ∷ trace) = texts trace

  after_sends-IsText :
      (s : Ptr) (results : List ℤ) (trace : List (Event z))
      → All IsText (texts trace)
      → All IsText (texts (after_sends s results trace))
  after_sends-IsText s [] trace h = h
  after_sends-IsText s (n ∷ results) trace h =
      after_sends-IsText s results (Event.sent s buffer_to_send no_flags n ∷ trace) (refl, h)

  server-IsText :
      (n : ℕ) (m : Machine z) (o : Outcome z ℤ)
      → texts m.trace ≡ []
      → ServerEnds n m o
      → All IsText (texts (calls_of o))
  server-IsText n m (done _ _) silent h = absurd h
  server-IsText n m (fault _ m') silent (_, _, _, _, _, e) = rw e (rw silent tt)
  server-IsText n m (blocked m') silent (context, s, rc, _, (results, _, e)) =
      rw e (after_sends-IsText s results _ (rw silent tt))

  -- How the client ends, which never prints its statistics.
  abbrev pub ReadsPast : Machine z → Outcome z (ℤ × Option Statistics) → Type 0
  ReadsPast m (done (code, s) m') = (code ≡ negsuc 0) × (s ≡ none) × Failed m'.trace
  ReadsPast m (fault f m') =
      ((f ≡ Fault.assertion) × Refused m'.trace)
      ⊎ ((context : Ptr) × (sub : Ptr) × (size : ℤ) × (f ≡ Fault.bad_access)
          × (is_failed size ≡ false)
          × (m'.trace ≡ Event.received sub buffer_to_send size ∷ set_up context sub m.trace))
  ReadsPast m (blocked _) = ⊥

  -- A first message that is the server's text.
  first-ReadsPast :
      (clock : Clock) (n : ℕ) (context sub : Ptr) (m0 m : Machine z)
      → m.trace ≡ set_up context sub m0.trace
      → let (size, xs, _) = z.zmq_recv sub test_size no_flags m.world in
        is_failed size ≡ false
        → IsText xs
        → ReadsPast m0 (
            and_then
              (packets clock (suc n) 0 sub (new_buffer test_size) at_start m)
              (finish context sub))
  unfolding packets update_round new_buffer
  first-ReadsPast clock n context sub m0 m e good text =
      let (size, _, _) = z.zmq_recv sub test_size no_flags m.world in
      let len = length-text in
      let (rest, written) = write_cells-new buffer_to_send test_size (omega (arith, len)) in
      rw text (
        rw written (
          rw good (
            rw (c_string-indeterminate buffer_to_send rest text-Unterminated) (
              inr (
                context,
                sub,
                _,
                refl,
                good,
                ap (λ trace. Event.received sub buffer_to_send size ∷ trace) e,
              )))))

  -- The loop, from its first round on.
  packets-ReadsPast :
      (clock : Clock) (n : ℕ) (context sub : Ptr) (m0 m : Machine z)
      → m.trace ≡ set_up context sub m0.trace
      → Truncates z
      → let (size, xs, _) = z.zmq_recv sub test_size no_flags m.world in
        (is_failed size ≡ false → IsText xs)
        → ReadsPast m0 (
            and_then
              (packets clock (suc n) 0 sub (new_buffer test_size) at_start m)
              (finish context sub))
  unfolding packets update_round
  packets-ReadsPast clock n context sub m0 m e truncates only =
      let (size, xs, w) = z.zmq_recv sub test_size no_flags m.world in
      let fits = truncates sub test_size no_flags m.world in
      let room = length-new_buffer test_size in
      let (c, written, _) = write_cells-fits xs (new_buffer test_size) (rw room fits) in
      elim (Bool-cases (is_failed size)) [
        | inl failed ↦ rw written (rw failed (refl, refl, failed))
        | inr good ↦ first-ReadsPast clock n context sub m0 m e good (only good)
      ]

  module _ (clock : Clock) (m : Machine z) where
    pub reads_past :
        (messages : List Bytes)
        → Truncates z
        → Brings z messages
        → All IsText messages
        → ReadsPast m (client_main clock m)
    unfolding client_main
    reads_past messages truncates brings all =
        let (context, w1) = z.zmq_ctx_new m.world in
        let (sub, w2) = z.zmq_socket context zmq_sub w1 in
        let (rc, w3) = z.zmq_connect sub end_point w2 in
        let (rc', w4) = z.zmq_setsockopt sub zmq_subscribe [] w3 in
        let ready = record m {
          world = w4;
          trace =
              Event.option_set sub zmq_subscribe [] rc'
              ∷ Event.connected sub end_point rc
              ∷ Event.socket_made context zmq_sub sub
              ∷ Event.ctx_new context
              ∷ m.trace;
        } in
        elim (Bool-cases (is_nonzero rc)) [
          | inl bad ↦ rw bad (inl (refl, (refl, bad)))
          | inr good ↦ rw good (elim (Bool-cases (is_nonzero rc')) [
            | inl bad ↦ rw bad (inl (refl, (refl, bad)))
            | inr good' ↦ rw good' (
                packets-ReadsPast clock 999 context sub m ready
                  (rw (is_zero rc good) (rw (is_zero rc' good') refl)) truncates
                  (λ came. All-Memᴰ all (brings sub w4 came)))
          ])
        ]

module _ {zc zs : Zmq} where
  -- wuclient.c and wuserver.c run, each on a library of its own, and the network brings the client
  -- nothing but messages that the server has sent. Whatever rounds the server makes, the client never
  -- prints its statistics: it ends with -1 where its first receive fails, or in a failed assertion
  -- where it can not connect or subscribe, or it reads past the server's text, the first message that
  -- it gets, in a buffer that is not initialised. `s_send` sends the text it is given as one message;
  -- the library must not write past the client's buffer.
  pub weather-ReadsPast :
      (s_send : Ptr → Bytes → M zs ℤ) (sends : SendsText s_send) (rounds : ℕ) (clock : Clock)
      (mc : Machine zc) (ms : Machine zs)
      → texts ms.trace ≡ []
      → Truncates zc
      → Brings zc (texts (calls_of (server_main s_send rounds ms)))
      → ReadsPast mc (client_main clock mc)
  weather-ReadsPast s_send sends rounds clock mc ms silent truncates brings =
      reads_past clock mc (texts (calls_of (server_main s_send rounds ms))) truncates brings (
        server-IsText rounds ms (server_main s_send rounds ms) silent
          (server_main-ServerEnds s_send sends rounds ms))

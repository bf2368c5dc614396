-- ===== src/Weather/Publisher/Publishes.antt =====
-- wuserver.c, main: what it sends.
use zeromq_agent.Base.{
  ℕ, zero, suc, ◌≡◌, refl, ◌∙◌, Bool-cases, inl, inr, true, false, List, [], ◌∷◌, length, ap,
}
use zeromq_agent.Base.Int.{ℤ, is_nonzero}
use zeromq_agent.Memory.{Ptr, Bytes}
use zeromq_agent.Zmq.{
  Zmq, zmq_pub, no_flags, Event, Machine, Fault, Outcome, done, fault, blocked, M, and_then,
}
use zeromq_agent.Zmq.Calls.{perform}
use zeromq_agent.Weather.Publisher.{end_point, buffer_to_send, send_updates, server_main}

module _ {z : Zmq} where
  -- As documented, `s_send` sends the bytes of the text before its 0 as one message.
  abbrev pub SendsText : (Ptr → Bytes → M z ℤ) → Type 0
  SendsText s_send =
      (s : Ptr) (xs : Bytes) (m : Machine z)
      → s_send s xs m ≡ perform (z.zmq_send s xs no_flags) (Event.sent s xs no_flags) m

  -- The trace after these results of `zmq_send`, each for the same text.
  abbrev pub after_sends : Ptr → List ℤ → List (Event z) → List (Event z)
  after_sends s [] trace = trace
  after_sends s (n ∷ results) trace =
      after_sends s results (Event.sent s buffer_to_send no_flags n ∷ trace)

  -- From the first trace to the second the text was sent `n` times, and nothing else was called.
  abbrev pub Sent : ℕ → Ptr → List (Event z) → List (Event z) → Type 0
  Sent n s before end =
      (results : List ℤ) × (length results ≡ n) × (end ≡ after_sends s results before)

  abbrev SendsEnd : ℕ → Ptr → Machine z → Outcome z (Unit {0}) → Type 0
  SendsEnd n s m (done _ m') = Sent n s m.trace m'.trace
  SendsEnd n s m (fault _ _) = ⊥
  SendsEnd n s m (blocked _) = ⊥

  abbrev pub ServerEnds : ℕ → Machine z → Outcome z ℤ → Type 0
  ServerEnds n m (done _ _) = ⊥
  ServerEnds n m (fault f m') =
      (context : Ptr) × (publisher : Ptr) × (rc : ℤ) × (f ≡ Fault.assertion)
      × (is_nonzero rc ≡ true)
      × (m'.trace
          ≡ Event.bound publisher end_point rc
            ∷ Event.socket_made context zmq_pub publisher
            ∷ Event.ctx_new context
            ∷ m.trace)
  ServerEnds n m (blocked m') =
      (context : Ptr) × (publisher : Ptr) × (rc : ℤ) × (is_nonzero rc ≡ false)
      × Sent n publisher
          (Event.bound publisher end_point rc
            ∷ Event.socket_made context zmq_pub publisher
            ∷ Event.ctx_new context
            ∷ m.trace)
          m'.trace

  module _ (s_send : Ptr → Bytes → M z ℤ) (sends : SendsText s_send) where
    rest-SendsEnd :
        (n : ℕ) (s : Ptr) (rc : ℤ) (m m' : Machine z) (o : Outcome z (Unit {0}))
        → m'.trace ≡ Event.sent s buffer_to_send no_flags rc ∷ m.trace
        → SendsEnd n s m' o
        → SendsEnd (suc n) s m o
    rest-SendsEnd n s rc m m' (done _ m'') e (results, len, there) =
        (rc ∷ results, ap suc len, there ∙ ap (after_sends s results) e)
    rest-SendsEnd n s rc m m' (fault _ _) e h = h
    rest-SendsEnd n s rc m m' (blocked _) e h = h

    send_updates-SendsEnd :
        (n : ℕ) (s : Ptr) (m : Machine z) → SendsEnd n s m (send_updates s_send n s m)
    unfolding send_updates
    send_updates-SendsEnd zero s m = ([], refl, refl)
    send_updates-SendsEnd (suc n) s m =
        let (rc, w) = z.zmq_send s buffer_to_send no_flags m.world in
        let m' = record m {
          world = w;
          trace = Event.sent s buffer_to_send no_flags rc ∷ m.trace;
        } in
        rw (sends s buffer_to_send m) (
          rest-SendsEnd n s rc m m' (send_updates s_send n s m') refl
            (send_updates-SendsEnd n s m'))

    blocked-ServerEnds :
        (n : ℕ) (context s : Ptr) (rc : ℤ) (m m' : Machine z) (o : Outcome z (Unit {0}))
        → is_nonzero rc ≡ false
        → m'.trace
          ≡ Event.bound s end_point rc
            ∷ Event.socket_made context zmq_pub s
            ∷ Event.ctx_new context
            ∷ m.trace
        → SendsEnd n s m' o
        → ServerEnds n m (and_then o λ _ m''. blocked m'')
    blocked-ServerEnds n context s rc m m' (done _ m'') good e (results, len, there) =
        (context, s, rc, good, (results, len, there ∙ ap (after_sends s results) e))
    blocked-ServerEnds n context s rc m m' (fault _ _) good e h = absurd h
    blocked-ServerEnds n context s rc m m' (blocked _) good e h = absurd h

    -- The program never returns. Where the socket can be bound, its first rounds send the same text
    -- once in each round, without the 0 at its end, and nothing else; where it cannot, the assertion
    -- fails before anything is sent. `s_send` sends the text it is given as one message.
    pub server_main-ServerEnds :
        (rounds : ℕ) (m : Machine z) → ServerEnds rounds m (server_main s_send rounds m)
    unfolding server_main
    server_main-ServerEnds rounds m =
        let (context, w1) = z.zmq_ctx_new m.world in
        let (s, w2) = z.zmq_socket context zmq_pub w1 in
        let (rc, w3) = z.zmq_bind s end_point w2 in
        let ready = record m {
          world = w3;
          trace =
              Event.bound s end_point rc
              ∷ Event.socket_made context zmq_pub s
              ∷ Event.ctx_new context
              ∷ m.trace;
        } in
        elim (Bool-cases (is_nonzero rc)) [
          | inl bad ↦ rw bad (context, s, rc, refl, bad, refl)
          | inr good ↦ rw good (
              blocked-ServerEnds rounds context s rc m ready _ good refl
                (send_updates-SendsEnd rounds s ready))
        ]

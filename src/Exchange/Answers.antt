-- ===== src/Exchange/Answers.antt =====
-- The rounds of req_rep_worker and req_rep_server: a message is received and answered.
use zeromq_agent.Base.{
  ℕ, ap, ◌∙◌, ◌≡◌, some, Option, List, ◌∷◌, Sublist, ◌<◌, ◌-◌, ◌^◌, length, arith,
}
use zeromq_agent.Memory.{Ptr}
use zeromq_agent.Zmq.{Zmq, Event, Machine, Outcome, M, pure, and_then, ◌>>=◌, ◌>>◌}
use zeromq_agent.Zmq.Calls.{load}
use zeromq_agent.Message
use zeromq_agent.Message.{
  IMessage, Status, Received, own_message, no_message, send_message, from_string, get_data,
  get_size,
}
use zeromq_agent.Message.Build.{from_string-Built, read-Built}
use zeromq_agent.Agent.{reply_text}
use zeromq_agent.Agent.Lockstep.{Post, Post-bind, Keeps-load, Keeps-destroy}
use zeromq_agent.Exchange.{texts_sent, texts_arrived, replies, Came}
use zeromq_agent.Exchange.Ends.{TakesOne, Post-weaken, Post-mono, Adds, SendsBytes, Takes}
use mathlib.Core.List.Sublist

reply-short : length reply_text < 2 ^ 31 - 1
reply-short = omega arith

module _ {z : Zmq} (s : Ptr) where
  -- What was sent is at most one reply for each text that arrived.
  abbrev pub Answers : List (Event z) → Type 0
  Answers trace = Sublist (texts_sent s trace) (replies (texts_arrived s trace))

  -- After a message was received there is one text more than there must be, so that another reply
  -- may be sent.
  abbrev pub May : Received → List (Event z) → Type 0
  May no_message trace = Answers trace
  May own_message trace =
      Sublist (some reply_text ∷ texts_sent s trace) (replies (texts_arrived s trace))

  pub May-Answers : (got : Received) (trace : List (Event z)) → May got trace → Answers trace
  May-Answers no_message trace h = h
  May-Answers own_message trace h = Sublist.trans (Sublist.cons _ (Sublist.refl _)) h

  Came-May :
      (got : Received) (before after : List (Event z))
      → texts_sent s after ≡ texts_sent s before
      → Came got (texts_arrived s before) (texts_arrived s after)
      → Answers before
      → May got after
  Came-May no_message before after e came h = rw (e, came) h
  Came-May own_message before after e (xs, came) h =
      rw (e, came) (Sublist.cons-cons (some reply_text) h)

module _ {z : Zmq} {I : Type 0} (socket : I → Option Ptr) (s : Ptr) where
  abbrev pub Answered : I → Machine z → Type 0
  Answered c' m' = Answers s m'.trace × (socket c' ≡ some s)

  abbrev pub Replies : Outcome z I → Type 0
  Replies = Post Answered (λ m'. Answers s m'.trace)

  -- The answer to a message: its `n` bytes are read for the output, and the reply is made, sent and
  -- ended. The object is a part of the result.
  pub answer-Replies :
      {R : Type 0} (sends : I → IMessage → M z (Status × I)) (result : I → R) (object : R → I)
      → SendsBytes {z = z} socket s sends
      → ((c : I) → object (result c) ≡ c)
      → (start : Ptr) (n : ℕ) (c : I) (m : Machine z) → May s own_message m.trace
      → socket c ≡ some s
      → Post
          (λ r m'. Answered (object r) m')
          (λ m'. Answers s m'.trace)
          ((load start n >>= λ _. from_string reply_text >>= λ text.
              sends c (send_message text) >>= λ (_, c'). Message.destroy text >> pure (result c'))
            m)
  unfolding get_data get_size
  answer-Replies sends result object bytes same start n c m may hs =
      Post-bind (λ _ m'. May s own_message m'.trace) (λ r m'. Answered (object r) m')
        (λ m'. Answers s m'.trace) (load start n m) _
        (Post-weaken (λ _ m'. May s own_message m'.trace) (λ m'. May s own_message m'.trace)
          (λ m'. Answers s m'.trace) (load start n m) (Keeps-load (May s own_message) start n m may)
          (λ m'. May-Answers s own_message m'.trace))
        λ _ m1 may1.
          let (text, m2, built, b) = from_string-Built reply_text m1 reply-short in
          rw built (
            Post-bind (Adds socket s reply_text m2) (λ r m'. Answered (object r) m')
              (λ m'. Answers s m'.trace) (sends c (send_message text) m2) _
              (Post-weaken (Adds socket s reply_text m2) (λ _. ⊥) (λ m'. Answers s m'.trace)
                (sends c (send_message text) m2)
                (bytes c (send_message text) reply_text m2 hs (read-Built b).0)
                (λ _ none. absurd none))
              λ (_, c') m3 (sent, arrived, hs').
                Post-bind (λ _ m'. Answers s m'.trace) (λ r m'. Answered (object r) m')
                  (λ m'. Answers s m'.trace) (Message.destroy text m3) _
                  (Keeps-destroy (Answers s) text m3 (rw (sent, arrived) (rw (b.trace) may1)))
                  λ _ m4 h. (h, ap socket (same c') ∙ hs'))

  -- A round: what `receive` takes, and the answer.
  pub round-Replies :
      (o : Outcome z (Received × I)) (k : Received × I → M z I) (m : Machine z)
      → Post (Takes socket s m) (TakesOne s m) o
      → Answers s m.trace
      → ((got : Received) (c : I) (m' : Machine z)
          → May s got m'.trace
          → socket c ≡ some s
          → Replies (k (got, c) m'))
      → Replies (and_then o k)
  round-Replies o k m takes h next =
      Post-bind (λ (got, c') m'. May s got m'.trace × (socket c' ≡ some s)) Answered
        (λ m'. Answers s m'.trace) o k
        (Post-mono (Takes socket s m) _ (TakesOne s m) (λ m'. Answers s m'.trace) o takes
          (λ (got, _) m' (sent, came, hs'). (Came-May s got m.trace m'.trace sent came h, hs'))
          (λ m' (sent, came).
            May-Answers s own_message m'.trace
              (Came-May s own_message m.trace m'.trace sent came h)))
        λ (got, c') m' (may, hs'). next got c' m' may hs'

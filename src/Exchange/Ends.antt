-- ===== src/Exchange/Ends.antt =====
-- One end of a connection, a client or a server: what its calls send and take on its socket.
use zeromq_agent.Base.{
  ℕ, zero, suc, ◌-◌, ◌<◌, ◌^◌, ◌≡◌, ◌∙◌, sym, ap, subst, none, some, inl, inr, get_elem?,
  Option-cases, List, ◌∷◌, Sublist, length, arith, Option,
}
use zeromq_agent.Base.Int.{to_size}
use zeromq_agent.Memory.{Ptr, Bytes, read}
use zeromq_agent.Zmq.{Zmq, Machine, Outcome, done, fault, blocked, and_then, M}
use zeromq_agent.Message.{
  IMessage, SendMessage, Status, Received, own_message, send_message, from_string, get_data,
  get_size,
}
use zeromq_agent.Message.Build.{from_string-Built, read-Built}
use zeromq_agent.Agent.{messages, message_at}
use zeromq_agent.Agent.Lockstep.{Post, Post-bind}
use zeromq_agent.Exchange.{texts_sent, texts_arrived, Came, picked, picked-Sublist}
use mathlib.Core.List.Sublist
use mathlib.Core.Option.{some-injective, none-ne-some}

pub messages-short :
    (i : ℕ) (text : Bytes) → get_elem? messages i ≡ some text → length text < 2 ^ 31 - 1
unfolding messages
messages-short zero text e = subst (λ t. length t < 2 ^ 31 - 1) (some-injective _ _ e) (omega arith)
messages-short (suc zero) text e =
    subst (λ t. length t < 2 ^ 31 - 1) (some-injective _ _ e) (omega arith)
messages-short (suc (suc zero)) text e =
    subst (λ t. length t < 2 ^ 31 - 1) (some-injective _ _ e) (omega arith)
messages-short (suc (suc (suc i))) text e = absurd (none-ne-some text e)

module _ {z : Zmq} where
  pub Post-mono :
      {A : Type 0} (P Q : A → Machine z → Type 0) (F G : Machine z → Type 0) (o : Outcome z A)
      → Post P F o
      → ((a : A) (m : Machine z) → P a m → Q a m)
      → ((m : Machine z) → F m → G m)
      → Post Q G o
  Post-mono P Q F G (done a m) h result faulty = result a m h
  Post-mono P Q F G (fault _ m) h result faulty = faulty m h
  Post-mono P Q F G (blocked _) h result faulty = h

  pub Post-weaken :
      {A : Type 0} (P : A → Machine z → Type 0) (F G : Machine z → Type 0) (o : Outcome z A)
      → Post P F o
      → ((m : Machine z) → F m → G m)
      → Post P G o
  Post-weaken P F G o h = Post-mono P P F G o h (λ _ _ k. k)

  -- After a run, or by a fault in it.
  abbrev pub SentOf : Ptr → List (Option Bytes) → Machine z → Type 0
  SentOf s v m' = Sublist (texts_sent s m'.trace) v

  pub eq-SentOf :
      (s : Ptr) (v : List (Option Bytes)) (m' : Machine z)
      → texts_sent s m'.trace ≡ v
      → SentOf s v m'
  eq-SentOf s v m' e = subst (λ xs. Sublist xs v) (sym e) (Sublist.refl v)

  -- After a `receive`, which sends nothing, by a fault where it reads the message.
  abbrev pub TakesOne : Ptr → Machine z → Machine z → Type 0
  TakesOne s m m' =
      (texts_sent s m'.trace ≡ texts_sent s m.trace)
      × Came own_message (texts_arrived s m.trace) (texts_arrived s m'.trace)

-- `I` are the objects, with their socket.
module _ {z : Zmq} {I : Type 0} (socket : I → Option Ptr) (s : Ptr) where
  -- After a call that sends `text`.
  abbrev pub Adds : Bytes → Machine z → Status × I → Machine z → Type 0
  Adds text m (_, c') m' =
      (texts_sent s m'.trace ≡ some text ∷ texts_sent s m.trace)
      × (texts_arrived s m'.trace ≡ texts_arrived s m.trace)
      × (socket c' ≡ some s)

  -- A call that sends the bytes of its message.
  abbrev pub SendsBytes : (I → IMessage → M z (Status × I)) → Type 0
  SendsBytes sends =
      (c : I) (message : IMessage) (text : Bytes) (m : Machine z)
      → socket c ≡ some s
      → read (get_data message) (to_size (get_size message)) m.heap ≡ some text
      → Post (Adds text m) (λ _. ⊥) (sends c message m)

  -- After a call of `receive`, which sends nothing.
  abbrev pub Takes : Machine z → Received × I → Machine z → Type 0
  Takes m (got, c') m' =
      (texts_sent s m'.trace ≡ texts_sent s m.trace)
      × Came got (texts_arrived s m.trace) (texts_arrived s m'.trace)
      × (socket c' ≡ some s)

  abbrev pub Sent : List (Option Bytes) → I → Machine z → Type 0
  Sent v c' m' = (texts_sent s m'.trace ≡ v) × (socket c' ≡ some s)

  -- What follows the sending of a message in a round, and sends nothing more.
  abbrev pub SendsNoMore : (SendMessage → I → M z I) → Type 0
  SendsNoMore rest =
      (message : SendMessage) (c : I) (v : List (Option Bytes)) (m : Machine z)
      → texts_sent s m.trace ≡ v
      → socket c ≡ some s
      → Post (Sent v) (λ m'. texts_sent s m'.trace ≡ v) (rest message c m)

  -- A round that sends the message which was picked.
  pub round-Sent :
      (sends : I → IMessage → M z (Status × I)) (rest : SendMessage → I → M z I)
      → SendsBytes sends
      → SendsNoMore rest
      → (j : ℕ) (c : I) (m : Machine z) → socket c ≡ some s
      → let v = get_elem? messages j ∷ texts_sent s m.trace in
        Post (Sent v) (SentOf s v) (
          and_then (message_at j m) λ text m1. and_then (from_string text m1) λ message m2.
            and_then (sends c (send_message message) m2) λ (_, c') m3. rest message c' m3)
  unfolding message_at get_data get_size
  round-Sent sends rest bytes silent j c m hs = elim (Option-cases (get_elem? messages j)) [
    | inl missing ↦ rw missing (Sublist.cons none (Sublist.refl (texts_sent s m.trace)))
    | inr (text, there) ↦
        let v = some text ∷ texts_sent s m.trace in
        let (message, m1, built, b) = from_string-Built text m (messages-short j text there) in
        rw there (
          rw built (
            Post-bind (Adds text m1) (Sent v) (SentOf s v) (sends c (send_message message) m1) _
              (Post-weaken (Adds text m1) (λ _. ⊥) (SentOf s v) (sends c (send_message message) m1)
                (bytes c (send_message message) text m1 hs (read-Built b).0)
                (λ _ none. absurd none))
              λ (_, c') m2 (e, _, hs').
                Post-weaken (Sent v) (λ m'. texts_sent s m'.trace ≡ v) (SentOf s v) _
                  (silent message c' v m2 (e ∙ ap (λ trace. some text ∷ texts_sent s trace) b.trace)
                    hs')
                  (eq-SentOf s v)))
  ]

  -- A round, and the rounds after it.
  pub next-Sent :
      (dist : ℕ → ℕ) (n i : ℕ) (first : List (Option Bytes)) (o : Outcome z I) (k : I → M z I)
      → Post (Sent first) (SentOf s first) o
      → ((c' : I) (m' : Machine z)
          → socket c' ≡ some s
          → let v = picked dist n i (texts_sent s m'.trace) in Post (Sent v) (SentOf s v) (k c' m'))
      → let v = picked dist n i first in Post (Sent v) (SentOf s v) (and_then o k)
  next-Sent dist n i first o k h next =
      let v = picked dist n i first in
      Post-bind (Sent first) (Sent v) (SentOf s v) o k
        (Post-weaken (Sent first) (SentOf s first) (SentOf s v) o h
          (λ m' sent. Sublist.trans sent (picked-Sublist dist n i first)))
        λ c' m' (e, hs').
          subst (λ old. let v = picked dist n i old in Post (Sent v) (SentOf s v) (k c' m')) e
            (next c' m' hs')

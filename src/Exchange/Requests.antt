-- ===== src/Exchange/Requests.antt =====
-- zeromq_agent.cpp, req_rep_client: the texts that it sends.
use zeromq_agent.Base.{
  ℕ, zero, suc, ◌+◌, ◌≡◌, refl, ap, ◌∙◌, some, inl, inr, Option, Bool-cases, Option-cases, ◌∷◌,
  List,
}
use zeromq_agent.Base.Int.{is_nonzero, is_negative, to_int, to_size}
use zeromq_agent.Memory.{Ptr, Bytes, read}
use zeromq_agent.Zmq.{Zmq, Event, Flags, no_flags, Machine, pure, ◌>>=◌, ◌>>◌}
use zeromq_agent.Zmq.Calls.{load, content}
use zeromq_agent.Zmq.Laws.{Refers}
use zeromq_agent.Zmq.Parts.{same, last_sent}
use zeromq_agent.Message
use zeromq_agent.Message.{IMessage, Received, own_message, no_message, get_data, get_size}
use zeromq_agent.Client.{ClientImpl, send_worker, send_made, receive, keep_message, send}
use zeromq_agent.Agent.{show_message, request_round, request_rounds}
use zeromq_agent.Agent.Lockstep.{Post, Post-bind, Keeps, Keeps-load, Keeps-destroy, Keeps-bind}
use zeromq_agent.Agent.Requests.{Wraps}
use zeromq_agent.Exchange.{texts_sent, picked}
use zeromq_agent.Exchange.Ends.{
  SentOf, TakesOne, Post-weaken, SendsBytes, Takes, Sent, SendsNoMore, round-Sent, next-Sent,
}

abbrev pub client_socket : ClientImpl → Option Ptr
client_socket c = c.m_socket

module _ {z : Zmq} where
  pub Keeps-show :
      (Q : List (Event z) → Type 0) (got : Received) (own : IMessage) (m : Machine z)
      → Q m.trace
      → Keeps Q (show_message got own m)
  unfolding show_message
  Keeps-show Q no_message own m h = h
  Keeps-show Q own_message own m h =
      let n = to_size (get_size own) in
      Keeps-bind Q (load (get_data own) n m) _ (Keeps-load Q (get_data own) n m h) λ _ m' h'. h'

module _ {z : Zmq} (s : Ptr) where
  -- With flags that end a message.
  pub send_worker-SendsBytes :
      (flags : Flags)
      → ((xs : Option Bytes) (rest : List (Option Bytes × Flags))
          → last_sent ((xs, flags) ∷ rest) ≡ xs ∷ last_sent rest)
      → Wraps z
      → Refers z
      → SendsBytes {z = z} client_socket s λ c message. send_worker c message flags
  unfolding send_worker send_made
  send_worker-SendsBytes flags ends wraps refers c message text m hs there =
      let n = to_size (get_size message) in
      let (_, msg, w) = z.zmq_msg_init_data (get_data message) n m.world in
      let (start, size) = refers (get_data message) n m.world in
      let (sent, _, _) = z.zmq_msg_send msg s flags w m.heap in
      let whole : content z msg m.heap ≡ some text = rw (start, size) there in
      rw (wraps (get_data message) n m.world) (
        rw hs (elim (Bool-cases (is_negative sent)) [
          | inl minus ↦
              rw minus
                (rw (same s) (ends _ _ ∙ ap (λ x. x ∷ texts_sent s m.trace) whole, refl, refl))
          | inr plus ↦
              rw plus
                (rw (same s) (ends _ _ ∙ ap (λ x. x ∷ texts_sent s m.trace) whole, refl, refl))
        ]))

  pub send-SendsBytes : Wraps z → Refers z → SendsBytes {z = z} client_socket s send
  unfolding send
  send-SendsBytes = send_worker-SendsBytes no_flags (λ _ _. refl)

  pub receive-Takes :
      (c : ClientImpl) (m : Machine z)
      → c.m_socket ≡ some s
      → Post (Takes client_socket s m) (TakesOne s m) (receive c m)
  unfolding receive keep_message
  receive-Takes c m hs =
      let (error, empty, w) = z.zmq_msg_init m.world in
      let (n, msg, w', h') = z.zmq_msg_recv empty s no_flags w m.heap in
      let size = to_int (z.zmq_msg_size msg) in
      elim (Bool-cases (is_nonzero error)) [
        | inl bad ↦ rw bad (refl, refl, hs)
        | inr good ↦ rw good (
            rw hs (elim (Bool-cases (is_negative n)) [
              | inl minus ↦ rw minus (rw minus (refl, refl, refl))
              | inr plus ↦
                  rw plus (elim (Option-cases (read (z.zmq_msg_data msg) (to_size size) h')) [
                    | inl missing ↦ rw missing (rw plus (rw (same s) (refl, (_, refl))))
                    | inr (xs, there) ↦ rw there (rw plus (rw (same s) (refl, (_, refl), refl)))
                  ])
            ]))
      ]

  round_end : SendsNoMore {z = z} client_socket s λ message c. receive c >>= λ (got, c').
      show_message got c'.m_message >> (Message.destroy message >> pure c')
  round_end message c v m e hs =
      Post-bind (Takes client_socket s m) _ _ (receive c m) _
        (Post-weaken (Takes client_socket s m) (TakesOne s m) (λ m'. texts_sent s m'.trace ≡ v)
          (receive c m) (receive-Takes c m hs) (λ m' (k, _). k ∙ e))
        λ (got, c') m1 (k, _, hs').
          Post-bind (λ _ m'. texts_sent s m'.trace ≡ v) _ _ (show_message got c'.m_message m1) _
            (Keeps-show (λ trace. texts_sent s trace ≡ v) got c'.m_message m1 (k ∙ e))
            λ _ m2 e2.
              Post-bind (λ _ m'. texts_sent s m'.trace ≡ v) _ _ (Message.destroy message m2) _
                (Keeps-destroy (λ trace. texts_sent s trace ≡ v) message m2 e2) λ _ m3 e3. (e3, hs')

  -- On a connected client, and with a library that makes messages which refer to the caller's
  -- bytes: `n` rounds of `req_rep_client` that end have sent exactly the messages that the generator
  -- picked, one in each round, in order and byte by byte. Where they end in a fault, what was sent
  -- by then is a part of these messages, in the same order. They do not block.
  pub request_rounds-Sent :
      (wraps : Wraps z) (refers : Refers z) (dist : ℕ → ℕ) (n i : ℕ) (c : ClientImpl)
      (m : Machine z)
      → c.m_socket ≡ some s
      → let v = picked dist n i (texts_sent s m.trace) in
        Post (Sent client_socket s v) (SentOf s v) (request_rounds dist n i c m)
  unfolding request_rounds request_round picked
  request_rounds-Sent wraps refers dist zero i c m hs = (refl, hs)
  request_rounds-Sent wraps refers dist (suc n) i c m hs =
      next-Sent client_socket s dist n (i + 1) _ (request_round dist i c m) _
        (round-Sent client_socket s send _ (send-SendsBytes wraps refers) round_end (dist i) c m hs)
        λ c' m' hs'. request_rounds-Sent wraps refers dist n (i + 1) c' m' hs'

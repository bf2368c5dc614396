-- ===== src/Agent/Clients.antt =====
-- zeromq_agent.cpp: how the blocking clients end.
use zeromq_agent.Base.{ℕ, zero, suc, ◌+◌, Bool, true, false, String}
use zeromq_agent.Base.Int.{ℤ, pos, negsuc, to_size}
use zeromq_agent.Zmq.{Zmq, Machine, Outcome, done, fault, blocked, M, no_flags}
use zeromq_agent.Zmq.Calls.{load}
use zeromq_agent.Message
use zeromq_agent.Message.{
  ok, not_ok, ErrorType, SocketType, request, reply, subscribe, IMessage, Received, no_message,
  own_message, send_message, from_string, get_data, get_size,
}
use zeromq_agent.Message.Flag.{HasNoFlag}
use zeromq_agent.Client.{
  ClientImpl, connect, create, receive, send, send_worker, worker_starts, destroy,
}
use zeromq_agent.Client.Lifetime.{
  Leaves, connect-Leaves, send_worker-Leaves, receive-Leaves, Makes, create-Makes, Destroyed,
  destroy-HasNoFlag,
}
use zeromq_agent.Agent.{
  message_at, show_message, leave_client, enter_client, run_client, request_round, request_rounds,
  req_rep_client, work_answer, work_round, work_rounds, req_rep_worker, subscribe_round,
  subscribe_rounds, pub_sub_client, iterations_num, reply_text,
}
use zeromq_agent.Agent.Returns.{Lasts, Lasts-bind, Lasts-after, NeverReturns}

abbrev pub Flagless : ClientImpl → Type 0
Flagless c = HasNoFlag c.m_message

abbrev pub FlaglessPair : {A : Type 0} → A × ClientImpl → Type 0
FlaglessPair (_, c) = HasNoFlag c.m_message

module _ {z : Zmq} where
  pub lasts :
      {A : Type 0} (o : Outcome z (A × ClientImpl)) → Leaves HasNoFlag o → Lasts FlaglessPair o
  lasts (done _ _) h = h
  lasts (fault _ _) h = tt
  lasts (blocked _) h = tt

  destroy-NeverReturns : (c : ClientImpl) (m : Machine z) → Flagless c → NeverReturns (destroy c m)
  destroy-NeverReturns c m h = go (destroy c m) (destroy-HasNoFlag c m h)
    where
      go : (o : Outcome z (Unit {0})) → Destroyed c m o → NeverReturns o
      go (done _ _) h = h
      go (fault _ _) h = tt
      go (blocked _) h = tt

  leave_client-NeverReturns :
      (started : Bool) (c : ClientImpl) (code : ℤ) (m : Machine z)
      → Flagless c
      → NeverReturns (leave_client started c code m)
  unfolding leave_client worker_starts
  leave_client-NeverReturns true c code m h =
      Lasts-bind (λ _. ⊥) (λ _. ⊥) (destroy (worker_starts c) m) _
        (destroy-NeverReturns (worker_starts c) m h) λ _ none. absurd none
  leave_client-NeverReturns false c code m h =
      Lasts-bind (λ _. ⊥) (λ _. ⊥) (destroy c m) _ (destroy-NeverReturns c m h)
        λ _ none. absurd none

  request_round-Lasts :
      (dist : ℕ → ℕ) (i : ℕ) (c : ClientImpl) (m : Machine z)
      → Flagless c
      → Lasts Flagless (request_round dist i c m)
  unfolding request_round send
  request_round-Lasts dist i c m h = Lasts-after Flagless (message_at (dist i) m) _ λ text m1.
      Lasts-after Flagless (from_string text m1) _ λ message m2.
        Lasts-bind FlaglessPair Flagless (send_worker c (send_message message) no_flags m2) _
          (lasts _ (send_worker-Leaves c (send_message message) no_flags m2 HasNoFlag h))
          λ (_, c3) h3 m3.
            Lasts-bind FlaglessPair Flagless (receive c3 m3) _ (lasts _ (receive-Leaves c3 m3 h3))
              λ (got, c4) h4 m4.
                Lasts-after Flagless (show_message got c4.m_message m4) _
                  λ _ m5. Lasts-after Flagless (Message.destroy message m5) _ λ _ m6. h4

  request_rounds-Lasts :
      (dist : ℕ → ℕ) (n i : ℕ) (c : ClientImpl) (m : Machine z)
      → Flagless c
      → Lasts Flagless (request_rounds dist n i c m)
  unfolding request_rounds
  request_rounds-Lasts dist zero i c m h = h
  request_rounds-Lasts dist (suc n) i c m h =
      Lasts-bind Flagless Flagless (request_round dist i c m) _ (request_round-Lasts dist i c m h)
        λ c' h' m'. request_rounds-Lasts dist n (i + 1) c' m' h'

  subscribe_rounds-Lasts :
      (n : ℕ) (c : ClientImpl) (m : Machine z)
      → Flagless c
      → Lasts Flagless (subscribe_rounds n c m)
  unfolding subscribe_rounds subscribe_round
  subscribe_rounds-Lasts zero c m h = h
  subscribe_rounds-Lasts (suc n) c m h =
      Lasts-bind Flagless Flagless (subscribe_round c m) _
        (Lasts-bind FlaglessPair Flagless (receive c m) _ (lasts _ (receive-Leaves c m h))
          λ (got, c1) h1 m1. Lasts-after Flagless (show_message got c1.m_message m1) _ λ _ m2. h1)
        λ c' h' m'. subscribe_rounds-Lasts n c' m' h'

  work_answer-Lasts :
      (got : Received) (c : ClientImpl) (m : Machine z)
      → Flagless c
      → Lasts Flagless (work_answer got c m)
  unfolding work_answer send
  work_answer-Lasts no_message c m h = h
  work_answer-Lasts own_message c m h =
      let message = c.m_message in
      Lasts-after Flagless (load (get_data message) (to_size (get_size message)) m) _ λ _ m1.
        Lasts-after Flagless (from_string reply_text m1) _ λ text m2.
          Lasts-bind FlaglessPair Flagless (send_worker c (send_message text) no_flags m2) _
            (lasts _ (send_worker-Leaves c (send_message text) no_flags m2 HasNoFlag h))
            λ (_, c') h' m3. Lasts-after Flagless (Message.destroy text m3) _ λ _ m4. h'

  work_rounds-Lasts :
      (n : ℕ) (c : ClientImpl) (m : Machine z) → Flagless c → Lasts Flagless (work_rounds n c m)
  unfolding work_rounds work_round
  work_rounds-Lasts zero c m h = h
  work_rounds-Lasts (suc n) c m h =
      Lasts-bind Flagless Flagless (work_round c m) _
        (Lasts-bind FlaglessPair Flagless (receive c m) _ (lasts _ (receive-Leaves c m h))
          λ (got, c1) h1 m1. work_answer-Lasts got c1 m1 h1)
        λ c' h' m'. work_rounds-Lasts n c' m' h'

  -- Work that leaves the client's message as it is.
  abbrev pub Works : (ClientImpl → M z ClientImpl) → Type 0
  Works work = (c : ClientImpl) (m : Machine z) → Flagless c → Lasts Flagless (work c m)

  enter_client-NeverReturns :
      (started : Bool) (work : ClientImpl → M z ClientImpl) (r : ErrorType) (c : ClientImpl)
      (m : Machine z)
      → Works work
      → Flagless c
      → NeverReturns (enter_client started work r c m)
  unfolding enter_client
  enter_client-NeverReturns started work not_ok c m works h =
      leave_client-NeverReturns started c (negsuc 0) m h
  enter_client-NeverReturns started work ok c m works h =
      Lasts-bind Flagless (λ _. ⊥) (work c m) _ (works c m h)
        λ c' h' m'. leave_client-NeverReturns started c' (pos 0) m' h'

  pub run_client-NeverReturns :
      (started : Bool) (c : ClientImpl) (url : String) (work : ClientImpl → M z ClientImpl)
      (m : Machine z)
      → Works work
      → Flagless c
      → NeverReturns (run_client started c url work m)
  unfolding run_client
  run_client-NeverReturns started c url work m works h =
      Lasts-bind FlaglessPair (λ _. ⊥) (connect c url m) _
        (lasts _ (connect-Leaves c url m HasNoFlag h))
        λ (r, c') h' m'. enter_client-NeverReturns started work r c' m' works h'

  pub create-Lasts : (type : SocketType) (m : Machine z) → Lasts Flagless (create type m)
  create-Lasts type m = go (create type m) (create-Makes type m)
    where
      go : (o : Outcome z ClientImpl) → Makes Flagless o → Lasts Flagless o
      go (done _ _) h = h
      go (fault _ _) h = tt
      go (blocked _) h = tt

  -- None of the three blocking clients returns, whatever the library answers, whatever the generator
  -- draws, and whether or not the worker thread has set `m_running` by the end: each run ends in a
  -- fault or waits for ever.
  pub clients-NeverReturns :
      (dist : ℕ → ℕ) (started : Bool) (url : String) (m : Machine z)
      → NeverReturns (req_rep_client dist started url m)
        × NeverReturns (req_rep_worker started url m)
        × NeverReturns (pub_sub_client started url m)
  unfolding req_rep_client req_rep_worker pub_sub_client
  clients-NeverReturns dist started url m = (
    Lasts-bind Flagless (λ _. ⊥) (create request m) _ (create-Lasts request m)
        λ c h m'.
          run_client-NeverReturns started c url _ m' (request_rounds-Lasts dist iterations_num 0) h,
    Lasts-bind Flagless (λ _. ⊥) (create reply m) _ (create-Lasts reply m)
        λ c h m'. run_client-NeverReturns started c url _ m' (work_rounds-Lasts iterations_num) h,
    Lasts-bind Flagless (λ _. ⊥) (create subscribe m) _ (create-Lasts subscribe m)
        λ c h m'.
          run_client-NeverReturns started c url _ m' (subscribe_rounds-Lasts iterations_num) h,
  )

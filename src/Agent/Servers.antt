-- ===== src/Agent/Servers.antt =====
-- zeromq_agent.cpp: how the blocking servers end.
use zeromq_agent.Base.{ℕ, zero, suc, ◌+◌, Bool, true, false, String}
use zeromq_agent.Base.Int.{ℤ, pos, negsuc, to_size}
use zeromq_agent.Zmq.{Zmq, Machine, Outcome, done, fault, blocked, M, no_flags}
use zeromq_agent.Zmq.Calls.{load}
use zeromq_agent.Message
use zeromq_agent.Message.{
  ok, not_ok, ErrorType, SocketType, request, reply, publish, IMessage, Received, no_message,
  own_message, send_message, from_string, get_data, get_size,
}
use zeromq_agent.Message.Flag.{HasNoFlag}
use zeromq_agent.Server.{
  ServerImpl, bind, create, receive, publish_worker, publish_message, worker_starts, destroy,
}
use zeromq_agent.Server.Lifetime.{
  Leaves, bind-Leaves, publish_worker-Leaves, receive-Leaves, Makes, create-Makes, Destroyed,
  destroy-HasNoFlag,
}
use zeromq_agent.Agent.{
  message_at, leave_server, enter_server, run_server, answer, reply_round, reply_rounds,
  req_rep_server, publish_round, publish_rounds, pub_sub_server, iterations_num, reply_text,
}
use zeromq_agent.Agent.Returns.{Lasts, Lasts-bind, Lasts-after, NeverReturns}

abbrev pub Flagless : ServerImpl → Type 0
Flagless c = HasNoFlag c.m_message

abbrev pub FlaglessPair : {A : Type 0} → A × ServerImpl → Type 0
FlaglessPair (_, c) = HasNoFlag c.m_message

module _ {z : Zmq} where
  pub lasts :
      {A : Type 0} (o : Outcome z (A × ServerImpl)) → Leaves HasNoFlag o → Lasts FlaglessPair o
  lasts (done _ _) h = h
  lasts (fault _ _) h = tt
  lasts (blocked _) h = tt

  destroy-NeverReturns : (c : ServerImpl) (m : Machine z) → Flagless c → NeverReturns (destroy c m)
  destroy-NeverReturns c m h = go (destroy c m) (destroy-HasNoFlag c m h)
    where
      go : (o : Outcome z (Unit {0})) → Destroyed c m o → NeverReturns o
      go (done _ _) h = h
      go (fault _ _) h = tt
      go (blocked _) h = tt

  leave_server-NeverReturns :
      (started : Bool) (c : ServerImpl) (code : ℤ) (m : Machine z)
      → Flagless c
      → NeverReturns (leave_server started c code m)
  unfolding leave_server worker_starts
  leave_server-NeverReturns true c code m h =
      Lasts-bind (λ _. ⊥) (λ _. ⊥) (destroy (worker_starts c) m) _
        (destroy-NeverReturns (worker_starts c) m h) λ _ none. absurd none
  leave_server-NeverReturns false c code m h =
      Lasts-bind (λ _. ⊥) (λ _. ⊥) (destroy c m) _ (destroy-NeverReturns c m h)
        λ _ none. absurd none

  answer-Lasts :
      (got : Received) (s : ServerImpl) (m : Machine z)
      → Flagless s
      → Lasts Flagless (answer got s m)
  unfolding answer publish_message
  answer-Lasts no_message s m h = h
  answer-Lasts own_message s m h =
      let message = s.m_message in
      Lasts-after Flagless (load (get_data message) (to_size (get_size message)) m) _ λ _ m1.
        Lasts-after Flagless (from_string reply_text m1) _ λ text m2.
          Lasts-bind FlaglessPair Flagless (publish_worker s (send_message text) no_flags m2) _
            (lasts _ (publish_worker-Leaves s (send_message text) no_flags m2 HasNoFlag h))
            λ (_, s') h' m3. Lasts-after Flagless (Message.destroy text m3) _ λ _ m4. h'

  reply_rounds-Lasts :
      (n : ℕ) (s : ServerImpl) (m : Machine z) → Flagless s → Lasts Flagless (reply_rounds n s m)
  unfolding reply_rounds reply_round
  reply_rounds-Lasts zero s m h = h
  reply_rounds-Lasts (suc n) s m h =
      Lasts-bind Flagless Flagless (reply_round s m) _
        (Lasts-bind FlaglessPair Flagless (receive s m) _ (lasts _ (receive-Leaves s m h))
          λ (got, s1) h1 m1. answer-Lasts got s1 m1 h1)
        λ s' h' m'. reply_rounds-Lasts n s' m' h'

  publish_round-Lasts :
      (dist : ℕ → ℕ) (i : ℕ) (s : ServerImpl) (m : Machine z)
      → Flagless s
      → Lasts Flagless (publish_round dist i s m)
  unfolding publish_round publish_message
  publish_round-Lasts dist i s m h = Lasts-after Flagless (message_at (dist i) m) _ λ text m1.
      Lasts-after Flagless (from_string text m1) _ λ message m2.
        Lasts-bind FlaglessPair Flagless (publish_worker s (send_message message) no_flags m2) _
          (lasts _ (publish_worker-Leaves s (send_message message) no_flags m2 HasNoFlag h))
          λ (_, s') h' m3. Lasts-after Flagless (Message.destroy message m3) _ λ _ m4. h'

  publish_rounds-Lasts :
      (dist : ℕ → ℕ) (n i : ℕ) (s : ServerImpl) (m : Machine z)
      → Flagless s
      → Lasts Flagless (publish_rounds dist n i s m)
  unfolding publish_rounds
  publish_rounds-Lasts dist zero i s m h = h
  publish_rounds-Lasts dist (suc n) i s m h =
      Lasts-bind Flagless Flagless (publish_round dist i s m) _ (publish_round-Lasts dist i s m h)
        λ s' h' m'. publish_rounds-Lasts dist n (i + 1) s' m' h'

  -- Work that leaves the server's message as it is.
  abbrev pub Works : (ServerImpl → M z ServerImpl) → Type 0
  Works work = (c : ServerImpl) (m : Machine z) → Flagless c → Lasts Flagless (work c m)

  enter_server-NeverReturns :
      (started : Bool) (work : ServerImpl → M z ServerImpl) (r : ErrorType) (c : ServerImpl)
      (m : Machine z)
      → Works work
      → Flagless c
      → NeverReturns (enter_server started work r c m)
  unfolding enter_server
  enter_server-NeverReturns started work not_ok c m works h =
      leave_server-NeverReturns started c (negsuc 0) m h
  enter_server-NeverReturns started work ok c m works h =
      Lasts-bind Flagless (λ _. ⊥) (work c m) _ (works c m h)
        λ c' h' m'. leave_server-NeverReturns started c' (pos 0) m' h'

  pub run_server-NeverReturns :
      (started : Bool) (c : ServerImpl) (url : String) (work : ServerImpl → M z ServerImpl)
      (m : Machine z)
      → Works work
      → Flagless c
      → NeverReturns (run_server started c url work m)
  unfolding run_server
  run_server-NeverReturns started c url work m works h =
      Lasts-bind FlaglessPair (λ _. ⊥) (bind c url m) _ (lasts _ (bind-Leaves c url m HasNoFlag h))
        λ (r, c') h' m'. enter_server-NeverReturns started work r c' m' works h'

  pub create-Lasts : (type : SocketType) (m : Machine z) → Lasts Flagless (create type m)
  create-Lasts type m = go (create type m) (create-Makes type m)
    where
      go : (o : Outcome z ServerImpl) → Makes Flagless o → Lasts Flagless o
      go (done _ _) h = h
      go (fault _ _) h = tt
      go (blocked _) h = tt

  -- None of the two blocking servers returns, whatever the library answers, whatever the generator
  -- draws, and whether or not the worker thread has set `m_running` by the end: each run ends in a
  -- fault or waits for ever.
  pub servers-NeverReturns :
      (dist : ℕ → ℕ) (started : Bool) (url : String) (m : Machine z)
      → NeverReturns (req_rep_server started url m)
        × NeverReturns (pub_sub_server dist started url m)
  unfolding req_rep_server pub_sub_server
  servers-NeverReturns dist started url m = (
    Lasts-bind Flagless (λ _. ⊥) (create reply m) _ (create-Lasts reply m)
        λ s h m'. run_server-NeverReturns started s url _ m' (reply_rounds-Lasts iterations_num) h,
    Lasts-bind Flagless (λ _. ⊥) (create publish m) _ (create-Lasts publish m)
        λ s h m'.
          run_server-NeverReturns started s url _ m' (publish_rounds-Lasts dist iterations_num 0) h,
  )

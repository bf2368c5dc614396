-- ===== src/Async/Queue.antt =====
-- The strand of ClientImpl and ServerImpl, as documented for boost::asio: handlers run one at a time,
-- in the order in which they were posted. A handler of this program holds a callback, and may hold a
-- message, by reference; both belong to one round of the loop that posts it, which is their name.
use zeromq_agent.Base.{ℕ, zero, suc, Bool, false, List, [], ◌∷◌, ◌++◌, ◌==◌}
use zeromq_agent.Zmq.{Zmq, M, pure, ◌>>=◌}

-- Which callbacks and messages have not ended.
pub record Scope : Type 0 where
  pub callback : ℕ → Bool
  pub message : ℕ → Bool

-- In a round, while the statement that posts the handler is running, and after it.
abbrev pub in_statement : ℕ → Scope
in_statement i = record { callback = λ n. n == i; message = λ n. n == i }

abbrev pub after_statement : ℕ → Scope
after_statement i = record { callback = λ _. false; message = λ n. n == i }

-- After the loop.
abbrev pub all_ended : Scope
all_ended = record { callback = λ _. false; message = λ _. false }

abbrev pub Handler : Zmq → Type 0 → Type 0
Handler z I = Scope → I → M z I

-- An object with the handlers that wait on its strand, the oldest first.
pub record Posts (z : Zmq) (I : Type 0) : Type 0 where
  pub impl : I
  pub m_rcv_strand : List (Handler z I)

module _ {z : Zmq} {I : Type 0} where
  -- `m_rcv_strand.post (...)`
  abbrev pub post : Handler z I → Posts z I → M z (Posts z I)
  post handler p = pure (record p { m_rcv_strand = p.m_rcv_strand ++ (handler ∷ []) })

  -- `m_io.run ()`, for up to so many handlers.
  unfoldable pub run_waiting : ℕ → Scope → List (Handler z I) → I → M z (Posts z I)
  run_waiting zero scope handlers c = pure (record { impl = c; m_rcv_strand = handlers })
  run_waiting (suc k) scope [] c = pure (record { impl = c; m_rcv_strand = [] })
  run_waiting (suc k) scope (handler ∷ handlers) c = do
    c' ← handler scope c
    run_waiting k scope handlers c'

-- ===== src/SetUp/Reports.antt =====
-- The error text that the public classes give out after `connect` and `bind`.
use zeromq_agent.Base.{String, ◌≡◌, refl, some}
use zeromq_agent.Zmq.{Zmq, Outcome, done, fault, blocked, M, and_then}
use zeromq_agent.Message.{ErrorType, ok, not_ok}
use zeromq_agent.Owned.{through, returns}
use zeromq_agent.SetUp.{error_text}

module _ {z : Zmq} {B : Type 0} (get_str_error : B → M z (String × B)) where
  -- The text that is given out afterwards: that of `errno` at the end of a call that failed, and the
  -- old one after a call that went well. Nothing else is read or changed.
  abbrev pub Reports : String → Outcome z (ErrorType × B) → Type 0
  Reports old (done (r, b) m) = get_str_error b m ≡ done (error_text r old m, b) m
  Reports old (fault _ _) = ⊥
  Reports old (blocked _) = ⊥

module _ {z : Zmq} {I : Type 0} (text : I → String) where
  -- The method of the implementation keeps the text in a field.
  abbrev pub KeepsText : I → Outcome z (ErrorType × I) → Type 0
  KeepsText impl (done (r, impl') m) = text impl' ≡ error_text r (text impl) m
  KeepsText impl (fault _ _) = ⊥
  KeepsText impl (blocked _) = ⊥

  -- The method of the public class, through `m_impl`.
  pub through-Reports :
      (impl : I) (o : Outcome z (ErrorType × I))
      → KeepsText impl o
      → Reports
          (through (returns text))
          (text impl)
          (and_then o λ (r, impl') m. done (r, some impl') m)
  unfolding through
  through-Reports impl (done (ok, impl') m) h = rw h refl
  through-Reports impl (done (not_ok, impl') m) h = rw h refl
  through-Reports impl (fault _ _) h = h
  through-Reports impl (blocked _) h = h

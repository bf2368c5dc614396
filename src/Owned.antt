-- ===== src/Owned.antt =====
-- `std::unique_ptr<...> m_impl` of the public classes: `none` is a null pointer.
use zeromq_agent.Base.{Option, none, some}
use zeromq_agent.Zmq.{Zmq, Fault, fault, M, pure, ◌>>=◌}

abbrev pub Owned : Type 0 → Type 0
Owned = Option

module _ {z : Zmq} where
  -- `m_impl->method (...)`
  unfoldable pub through : {A I : Type 0} → (I → M z (A × I)) → Owned I → M z (A × Owned I)
  through method none = fault Fault.bad_access
  through method (some impl) = do (a, impl') ← method impl; pure (a, some impl')

  -- The destructor of `m_impl`, with the destructor of the class that it points to.
  unfoldable pub delete_owned : {I : Type 0} → (I → M z (Unit {0})) → Owned I → M z (Unit {0})
  delete_owned destroy none = pure tt
  delete_owned destroy (some impl) = destroy impl

  -- A method that only returns a value.
  abbrev pub returns : {A I : Type 0} → (I → A) → I → M z (A × I)
  returns field impl = pure (field impl, impl)

  -- A method that returns nothing.
  abbrev pub procedure : {I : Type 0} → (I → M z I) → I → M z (Unit {0} × I)
  procedure method impl = do impl' ← method impl; pure (tt, impl')

  -- `assert (false && "NOT yet implemented")`
  unfoldable pub not_implemented : {A I : Type 0} → I → M z (A × I)
  not_implemented impl = fault Fault.assertion

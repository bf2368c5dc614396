-- ===== src/SetUp.antt =====
-- What `ClientImpl::connect`, `ServerImpl::bind` and the `bind` of the brokers promise: they make
-- the calls of a plan in order, stop at the first that fails, and keep its error text.
pub mod Reports
use zeromq_agent.Base.{Bool, true, false, not, String, ◌≡◌, refl, ◌∙◌, List, [], ◌∷◌, ◌++◌, ◌==◌}
use zeromq_agent.Base.Int.{ℤ, is_nonzero}
use zeromq_agent.Memory.{null}
use zeromq_agent.Zmq.{Zmq, Event, Machine}
use zeromq_agent.Message.{ErrorType, ok, not_ok}
use mathlib.Core.List.{reverse, reverse-cons, append_assoc}

module _ {z : Zmq} where
  -- A socket is made if it is not NULL; the other calls of a set-up return 0.
  abbrev pub succeeded : Event z → Bool
  succeeded (Event.socket_made _ _ p) = not (p == null)
  succeeded (Event.connected _ _ rc) = not (is_nonzero rc)
  succeeded (Event.bound _ _ rc) = not (is_nonzero rc)
  succeeded (Event.option_set _ _ _ rc) = not (is_nonzero rc)
  succeeded _ = true

  -- The calls, the first in front, follow the plan: all of it, or up to the first that fails. A call
  -- of the plan waits for its result.
  pub data Follows : ErrorType → List (ℤ → Event z) → List (Event z) → Type 0 where
    complete : Follows ok [] []
    fails :
        {f : ℤ → Event z} {plan : List (ℤ → Event z)} (rc : ℤ)
        → succeeded (f rc) ≡ false
        → Follows not_ok (f ∷ plan) (f rc ∷ [])
    goes_on :
        {r : ErrorType} {f : ℤ → Event z} {plan : List (ℤ → Event z)} {calls : List (Event z)}
        (rc : ℤ)
        → succeeded (f rc) ≡ true
        → Follows r plan calls
        → Follows r (f ∷ plan) (f rc ∷ calls)

  -- The error text afterwards: that of `errno` after a failure, and the old one otherwise.
  abbrev pub error_text : ErrorType → String → Machine z → String
  error_text ok old m = old
  error_text not_ok old m = z.zmq_strerror (z.errno m.world)

  pub record IsSetUp (plan : List (ℤ → Event z)) (old new : String) (r : ErrorType)
      (m m' : Machine z) : Type 0 where
    pub calls : List (Event z)
    pub recorded : m'.trace ≡ reverse calls ++ m.trace
    pub follows : Follows r plan calls
    pub text : new ≡ error_text r old m'
    pub same_heap : m'.heap ≡ m.heap

  -- The machine after one call.
  abbrev pub after : Machine z → Event z → z.World → Machine z
  after m e w = record m { world = w; trace = e ∷ m.trace }

  -- How such a run is put together, call by call.
  module _ {f : ℤ → Event z} {plan : List (ℤ → Event z)} {old : String} {m : Machine z} (rc : ℤ)
      (w : z.World) where
    pub IsSetUp-fails :
        succeeded (f rc) ≡ false
        → IsSetUp (f ∷ plan) old (z.zmq_strerror (z.errno w)) not_ok m (after m (f rc) w)
    IsSetUp-fails e = record {
      calls = f rc ∷ [];
      recorded = refl;
      follows = fails rc e;
      text = refl;
      same_heap = refl;
    }

    pub IsSetUp-goes_on :
        {new : String} {r : ErrorType} {m' : Machine z}
        → succeeded (f rc) ≡ true
        → IsSetUp plan old new r (after m (f rc) w) m'
        → IsSetUp (f ∷ plan) old new r m m'
    IsSetUp-goes_on e rest = record {
      calls = f rc ∷ rest.calls;
      recorded = rest.recorded ∙ simp (reverse-cons, append_assoc);
      follows = goes_on rc e rest.follows;
      text = rest.text;
      same_heap = rest.same_heap;
    }

  pub IsSetUp-complete : {old : String} {m : Machine z} → IsSetUp [] old old ok m m
  IsSetUp-complete = record {
    calls = [];
    recorded = refl;
    follows = complete;
    text = refl;
    same_heap = refl;
  }

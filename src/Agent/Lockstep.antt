-- ===== src/Agent/Lockstep.antt =====
-- The turns that a request or reply socket takes, read off the record of calls, and postconditions of
-- runs that hold however a run ends.
use zeromq_agent.Base.{
  ℕ, Bool, true, false, ◌≡◌, Option, none, some, List, [], ◌∷◌, if◌then◌else◌, Option-cases, inl,
  inr, length, replicate, take,
}
use zeromq_agent.Base.Int.{ℤ, pos, negsuc, is_negative, to_int, to_size, increment}
use zeromq_agent.Memory.{Ptr, Bytes, Heap, read, write}
use zeromq_agent.Zmq.{Zmq, Event, Machine, Fault, Outcome, done, fault, blocked, M, and_then}
use zeromq_agent.Zmq.Calls.{or_fault, set_heap, load, new_array, plus_one, store}
use zeromq_agent.Message.{SendMessage, from_string, destroy}

pub data Turn : Type 0 where
  may_send may_receive : Turn

-- A socket that is created to begin with `Turn` sends and receives by turns.
abbrev pub after_send : Option Turn → Option Turn
after_send (some may_send) = some may_receive
after_send _ = none

abbrev pub after_receive : Option Turn → Option Turn
after_receive (some may_receive) = some may_send
after_receive _ = none

module _ {z : Zmq} where
  -- The turn after the calls, the latest first; `none` once the order was broken. A call to send
  -- takes a turn, and a call to receive if it brought a message.
  unfoldable pub turn_after : Turn → List (Event z) → Option Turn
  turn_after t [] = some t
  turn_after t (Event.sent _ _ _ _ ∷ calls) = after_send (turn_after t calls)
  turn_after t (Event.msg_sent _ _ _ _ _ ∷ calls) = after_send (turn_after t calls)
  turn_after t (Event.msg_received _ _ _ _ n ∷ calls) =
      let rest = turn_after t calls in if is_negative n then rest else after_receive rest
  turn_after t (_ ∷ calls) = turn_after t calls

  -- A run that is not blocked, with a result where `P` holds or a fault where `F` does.
  abbrev pub Post :
      {A : Type 0} → (A → Machine z → Type 0) → (Machine z → Type 0) → Outcome z A → Type 0
  Post P F (done a m) = P a m
  Post P F (fault _ m) = F m
  Post P F (blocked _) = ⊥

  pub Post-bind :
      {A B : Type 0} (P : A → Machine z → Type 0) (Q : B → Machine z → Type 0)
      (F : Machine z → Type 0) (o : Outcome z A) (k : A → M z B)
      → Post P F o
      → ((a : A) (m : Machine z) → P a m → Post Q F (k a m))
      → Post Q F (and_then o k)
  Post-bind P Q F (done a m) k h next = next a m h
  Post-bind P Q F (fault _ _) k h next = h
  Post-bind P Q F (blocked _) k h next = h

  -- The operations on memory make no call, however they end.
  module _ (Q : List (Event z) → Type 0) where
    abbrev pub Keeps : {A : Type 0} → Outcome z A → Type 0
    Keeps = Post (λ _ m'. Q m'.trace) (λ m'. Q m'.trace)

    pub Keeps-or_fault :
        {A : Type 0} (f : Fault) (o : Option A) (m : Machine z) → Q m.trace → Keeps (or_fault f o m)
    Keeps-or_fault f none m h = h
    Keeps-or_fault f (some a) m h = h

    Keeps-set_heap :
        (f : Fault) (o : Option Heap) (m : Machine z) → Q m.trace → Keeps (set_heap f o m)
    Keeps-set_heap f none m h = h
    Keeps-set_heap f (some a) m h = h

    Keeps-new_array : (n : ℤ) (m : Machine z) → Q m.trace → Keeps (new_array n m)
    Keeps-new_array (pos n) m h = h
    Keeps-new_array (negsuc n) m h = h

    pub Keeps-load : (p : Ptr) (n : ℕ) (m : Machine z) → Q m.trace → Keeps (load p n m)
    Keeps-load p n m = Keeps-or_fault Fault.bad_access (read p n m.heap) m

    pub Keeps-bind :
        {A B : Type 0} (o : Outcome z A) (k : A → M z B)
        → Keeps o
        → ((a : A) (m : Machine z) → Q m.trace → Keeps (k a m))
        → Keeps (and_then o k)
    Keeps-bind = Post-bind (λ _ m'. Q m'.trace) (λ _ m'. Q m'.trace) (λ m'. Q m'.trace)

    pub Keeps-from_string : (s : Bytes) (m : Machine z) → Q m.trace → Keeps (from_string s m)
    unfolding from_string
    Keeps-from_string s m h =
        Keeps-bind (plus_one (to_int (length s)) m) _
          (Keeps-or_fault Fault.int_overflow (increment (to_int (length s))) m h)
          λ n m1 h1. Keeps-bind (new_array n m1) _ (Keeps-new_array n m1 h1) λ p m2 h2.
            Keeps-bind (store p (replicate (to_size (to_int (length s))) 0) m2) _
              (Keeps-set_heap Fault.bad_access
                (write p (replicate (to_size (to_int (length s))) 0) m2.heap) m2 h2)
              λ _ m3 h3.
                Keeps-bind (store p (take (to_size (to_int (length s))) s) m3) _
                  (Keeps-set_heap Fault.bad_access
                    (write p (take (to_size (to_int (length s))) s) m3.heap) m3 h3)
                  λ _ m4 h4. h4

    Keeps-release :
        (b : Bool) (s : SendMessage) (m : Machine z)
        → Q m.trace
        → s.m_is_allocated ≡ some b
        → Keeps (destroy s m)
    unfolding destroy
    Keeps-release true s m h e = rw e (Keeps-set_heap _ _ m h)
    Keeps-release false s m h e = rw e h

    pub Keeps-destroy : (s : SendMessage) (m : Machine z) → Q m.trace → Keeps (destroy s m)
    unfolding destroy
    Keeps-destroy s m h = elim (Option-cases s.m_is_allocated) [
      | inl e ↦ rw e h
      | inr (b, e) ↦ Keeps-release b s m h e
    ]

module _ {z : Zmq} (t : Turn) where
  abbrev pub turn : Machine z → Option Turn
  turn m = turn_after t m.trace

  -- The order was not broken so far.
  abbrev pub InOrder : Machine z → Type 0
  InOrder m = (u : Turn) × (turn m ≡ some u)

-- The operations on memory keep the turn.
module _ {z : Zmq} (t : Turn) (u : Turn) where
  abbrev pub Stays : {A : Type 0} → Outcome z A → Type 0
  Stays = Post (λ _ m'. turn t m' ≡ some u) (InOrder t)

  stays : {A : Type 0} (o : Outcome z A) → Keeps (λ trace. turn_after t trace ≡ some u) o → Stays o
  stays (done _ _) h = h
  stays (fault _ _) h = (u, h)
  stays (blocked _) h = h

  pub load-Stays : (p : Ptr) (n : ℕ) (m : Machine z) → turn t m ≡ some u → Stays (load p n m)
  load-Stays p n m h =
      stays (load p n m) (Keeps-load (λ trace. turn_after t trace ≡ some u) p n m h)

  pub from_string-Stays : (s : Bytes) (m : Machine z) → turn t m ≡ some u → Stays (from_string s m)
  from_string-Stays s m h =
      stays (from_string s m) (Keeps-from_string (λ trace. turn_after t trace ≡ some u) s m h)

  pub destroy-Stays : (s : SendMessage) (m : Machine z) → turn t m ≡ some u → Stays (destroy s m)
  destroy-Stays s m h =
      stays (destroy s m) (Keeps-destroy (λ trace. turn_after t trace ≡ some u) s m h)

  pub or_fault-Stays :
      {A : Type 0} (f : Fault) (o : Option A) (m : Machine z)
      → turn t m ≡ some u
      → Stays (or_fault f o m)
  or_fault-Stays f o m h =
      stays (or_fault f o m) (Keeps-or_fault (λ trace. turn_after t trace ≡ some u) f o m h)

pub Stays-bind :
    {z : Zmq} (t u v : Turn) {A B : Type 0} (o : Outcome z A) (k : A → M z B)
    → Stays t u o
    → ((a : A) (m : Machine z) → turn t m ≡ some u → Stays t v (k a m))
    → Stays t v (and_then o k)
Stays-bind t u v o k h next =
    Post-bind (λ _ m'. turn t m' ≡ some u) (λ _ m'. turn t m' ≡ some v) (InOrder t) o k h next

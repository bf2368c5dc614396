-- ===== src/Exchange.antt =====
-- zeromq_agent.cpp: the texts that the clients, the servers and the worker of the test program send
-- and receive, read off the record of their calls.
pub mod Ends
pub mod Requests
pub mod AsyncRequests
pub mod AsyncRounds
pub mod Publications
pub mod Answers
pub mod AsyncReplies
pub mod Replies
pub mod Runs
pub mod Whole
pub mod WholeServer
pub mod Functions
pub mod Modes
mod Tests
use zeromq_agent.Base.{
  ℕ, zero, suc, ◌+◌, ◌≡◌, refl, Option, some, List, ◌∷◌, Sublist, Sublistᴰ, map, get_elem?,
}
use zeromq_agent.Memory.{Ptr, Bytes}
use zeromq_agent.Zmq.{Zmq, Event, Machine, Outcome}
use zeromq_agent.Zmq.Parts.{Part, last_parts, last_sent, arrived_on, sent_on}
use zeromq_agent.Message.{Received, own_message, no_message}
use zeromq_agent.Agent.{messages, reply_text}
use mathlib.Core.List.Sublist
use mathlib.Core.Logic.{∥∥₁_map}

module _ {z : Zmq} where
  -- The texts that were sent on a socket, the latest first: the last part of each message.
  abbrev pub texts_sent : Ptr → List (Event z) → List (Option Bytes)
  texts_sent s trace = last_sent (sent_on s trace)

  -- The bytes of the parts that arrived on a socket.
  abbrev pub texts_arrived : Ptr → List (Event z) → List (Option Bytes)
  texts_arrived s trace = map (λ (xs, _). xs) (arrived_on s trace)

-- The messages that the generator picks in `n` rounds from round `i` on, before those of earlier
-- rounds.
unfoldable pub picked : (ℕ → ℕ) → ℕ → ℕ → List (Option Bytes) → List (Option Bytes)
unfolding messages
picked dist zero i old = old
picked dist (suc n) i old = picked dist n (i + 1) (get_elem? messages (dist i) ∷ old)

pub picked-Sublist :
    (dist : ℕ → ℕ) (n i : ℕ) (old : List (Option Bytes)) → Sublist old (picked dist n i old)
unfolding picked
picked-Sublist dist zero i old = Sublist.refl old
picked-Sublist dist (suc n) i old =
    Sublist.trans (Sublist.cons _ (Sublist.refl old)) (picked-Sublist dist n (i + 1) _)

-- One reply for each item.
abbrev pub replies : {A : Type 0} → List A → List (Option Bytes)
replies = map λ _. some reply_text

replies-Sublistᴰ :
    {A : Type 0} {xs ys : List A} → Sublistᴰ xs ys → Sublistᴰ (replies xs) (replies ys)
replies-Sublistᴰ Sublistᴰ.slnil = Sublistᴰ.slnil
replies-Sublistᴰ (Sublistᴰ.cons h) = Sublistᴰ.cons (replies-Sublistᴰ h)
replies-Sublistᴰ (Sublistᴰ.cons-cons e h) = Sublistᴰ.cons-cons refl (replies-Sublistᴰ h)

pub replies-Sublist :
    {A : Type 0} {xs ys : List A} → Sublist xs ys → Sublist (replies xs) (replies ys)
replies-Sublist {xs = xs} {ys = ys} h =
    ∥∥₁_map {B = Sublistᴰ (replies xs) (replies ys)} h replies-Sublistᴰ

-- What a call of `receive` adds to the texts that arrived.
abbrev pub Came : Received → List (Option Bytes) → List (Option Bytes) → Type 0
Came own_message before after = (xs : Option Bytes) × (after ≡ xs ∷ before)
Came no_message before after = after ≡ before

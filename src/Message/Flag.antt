-- ===== src/Message/Flag.antt =====
-- The message of a client or a server, which the constructor without arguments makes.
use zeromq_agent.Base.{◌≡◌, none}
use zeromq_agent.Base.Int.{ℤ}
use zeromq_agent.Memory.{Ptr}
use zeromq_agent.Zmq.{Zmq, Machine, Fault, fault}
use zeromq_agent.Message.{IMessage, send_message, delete_message, set_data, set_size}

-- The flag that says whether the message owns its buffer has no value.
abbrev pub HasNoFlag : IMessage → Type 0
HasNoFlag (send_message s) = s.m_is_allocated ≡ none
HasNoFlag _ = ⊥

pub set_message-HasNoFlag :
    (size : ℤ) (p : Ptr) (i : IMessage) → HasNoFlag i → HasNoFlag (set_size size (set_data p i))
unfolding set_size set_data
set_message-HasNoFlag size p (send_message s) h = h
set_message-HasNoFlag size p IMessage.base h = h
set_message-HasNoFlag size p IMessage.receive_message h = h

module _ {z : Zmq} where
  pub delete_message-HasNoFlag :
      (i : IMessage) (m : Machine z)
      → HasNoFlag i
      → delete_message i m ≡ fault Fault.uninitialised m
  unfolding delete_message
  delete_message-HasNoFlag (send_message s) m h = rw h
  delete_message-HasNoFlag IMessage.base m h = absurd h
  delete_message-HasNoFlag IMessage.receive_message m h = absurd h

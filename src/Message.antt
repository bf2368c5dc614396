-- ===== src/Message.antt =====
-- general_api.h: the message classes, the status of a call and the types of sockets.
pub mod Flag
pub mod Build
pub mod Copies
mod Tests
use zeromq_agent.Base.{ℕ, Bool, true, false, String, Option, none, some, replicate, length, take}
use zeromq_agent.Base.Int.{ℤ, pos, to_int, to_size}
use zeromq_agent.Memory.{Ptr, null, Bytes}
use zeromq_agent.Zmq.{Zmq, M, pure, ◌>>=◌, ◌>>◌}
use zeromq_agent.Zmq.Calls.{new_array, delete_array, store, value_of, plus_one}

pub data ErrorType : Type 0 where
  ok not_ok : ErrorType

pub data SocketType : Type 0 where
  request reply publish subscribe : SocketType

pub record Status : Type 0 where
  pub error : ErrorType
  pub bytes_send : ℤ
  pub error_str : String

-- `Status ()`
abbrev pub new_status : Status
new_status = record { error = ok; bytes_send = pos 0; error_str = "" }

-- The class has no field and no subclass.
pub data ISession : Type 0 where
  session : ISession

unfoldable pub get_context : ISession → Ptr
get_context _ = null

unfoldable pub get_enpoint : ISession → String
get_enpoint _ = ""

-- `none` is a flag that no constructor has set.
pub record SendMessage : Type 0 where
  pub m_size : ℤ
  pub m_data : Ptr
  pub m_is_allocated : Option Bool

-- The class hierarchy: `ReceiveMessage` overrides nothing.
pub data IMessage : Type 0 where
  base receive_message : IMessage
  send_message : SendMessage → IMessage

unfoldable pub get_data : IMessage → Ptr
get_data base = null
get_data receive_message = null
get_data (send_message s) = s.m_data

unfoldable pub get_size : IMessage → ℤ
get_size base = pos 0
get_size receive_message = pos 0
get_size (send_message s) = s.m_size

unfoldable pub set_data : Ptr → IMessage → IMessage
set_data p base = base
set_data p receive_message = receive_message
set_data p (send_message s) = send_message (record s { m_data = p })

unfoldable pub set_size : ℤ → IMessage → IMessage
set_size n base = base
set_size n receive_message = receive_message
set_size n (send_message s) = send_message (record s { m_size = n })

-- The result is a base object whatever the class of the original: a copy by value is sliced.
unfoldable pub clone : IMessage → IMessage
clone _ = base

-- `SendMessage ()`
abbrev pub empty_message : SendMessage
empty_message = record { m_size = pos 0; m_data = null; m_is_allocated = none }

-- `SendMessage (void* start_ptr, int size)`
abbrev pub borrow : Ptr → ℤ → SendMessage
borrow p size = record { m_size = size; m_data = p; m_is_allocated = some false }

-- The copy constructor, and the move constructor, which does the same.
abbrev pub copy : SendMessage → SendMessage
copy s = record { m_size = s.m_size; m_data = s.m_data; m_is_allocated = none }

-- `swap`: the flags stay where they are.
abbrev pub swap : SendMessage → SendMessage → SendMessage × SendMessage
swap a b = (
  record a { m_size = b.m_size; m_data = b.m_data },
  record b { m_size = a.m_size; m_data = a.m_data },
)

-- The pointer that `receive` returns: NULL, or the address of the receiver's `m_message`.
pub data Received : Type 0 where
  no_message own_message : Received

module _ {z : Zmq} where
  -- `SendMessage (const std::string&)`
  unfoldable pub from_string : Bytes → M z SendMessage
  from_string s = do
    let size = to_int (length s)
    n ← plus_one size
    p ← new_array n
    store p (replicate (to_size size) 0)
    store p (take (to_size size) s)
    pure (record { m_size = size; m_data = p; m_is_allocated = some true })

  release_if : Bool → Ptr → M z (Unit {0})
  release_if true p = delete_array p
  release_if false p = pure tt

  -- `~SendMessage ()`
  unfoldable pub destroy : SendMessage → M z (Unit {0})
  unfolding release_if
  destroy s = do allocated ← value_of s.m_is_allocated; release_if allocated s.m_data

  -- `delete` of an `IMessage*`, whose destructor is virtual.
  unfoldable pub delete_message : IMessage → M z (Unit {0})
  unfolding destroy
  delete_message base = pure tt
  delete_message receive_message = pure tt
  delete_message (send_message s) = destroy s

  -- `operator= (SendMessage message)`: the parameter ends with the call.
  unfoldable pub assign : SendMessage → SendMessage → M z SendMessage
  unfolding destroy
  assign this message = do let (this', message') = swap this message; destroy message'; pure this'

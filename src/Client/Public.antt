-- ===== src/Client/Public.antt =====
-- client_api.cpp, class Client: it forwards to ClientImpl.
use zeromq_agent.Base.{ℕ, String, none, some}
use zeromq_agent.Zmq.{Zmq, M, pure, ◌>>=◌}
use zeromq_agent.Message.{ErrorType, SocketType, Status, IMessage, Received}
use zeromq_agent.Client
use zeromq_agent.Client.{ClientImpl}
use zeromq_agent.Owned.{Owned, through, delete_owned, procedure}
use zeromq_agent.Async.{SendCallback, ReceiveCallback}
use zeromq_agent.Async.Queue.{Posts}
use zeromq_agent.Client.Queue

module _ {z : Zmq} where
  -- `Client (SocketType)`
  unfoldable pub make : SocketType → M z (Owned ClientImpl)
  make type = do impl ← Client.create type; pure (some impl)

  -- `Client (const ISession&)`
  unfoldable pub restore : {I : Type 0} → M z (Owned I)
  restore = pure none

  -- `~Client ()`
  unfoldable pub destroy : Owned ClientImpl → M z (Unit {0})
  destroy = delete_owned Client.destroy

  unfoldable pub connect : Owned ClientImpl → String → M z (ErrorType × Owned ClientImpl)
  connect c url = through (λ impl. Client.connect impl url) c

  unfoldable pub send : Owned ClientImpl → IMessage → M z (Status × Owned ClientImpl)
  send c message = through (λ impl. Client.send impl message) c

  unfoldable pub receive : Owned ClientImpl → M z (Received × Owned ClientImpl)
  receive = through Client.receive

  -- `result_type async_send (const IMessage&)`
  unfoldable pub async_send_result : {A : Type 0} → Owned ClientImpl → M z (A × Owned ClientImpl)
  async_send_result = through Client.async_send_result

  unfoldable pub async_send :
      ℕ
      → IMessage
      → SendCallback z ClientImpl
      → Owned (Posts z ClientImpl)
      → M z (Unit {0} × Owned (Posts z ClientImpl))
  async_send i message callback = through (procedure (Queue.async_send i message callback))

  unfoldable pub async_receive :
      ℕ
      → ReceiveCallback z ClientImpl
      → Owned (Posts z ClientImpl)
      → M z (Unit {0} × Owned (Posts z ClientImpl))
  async_receive i cbk = through (procedure (Queue.async_receive i cbk))

  unfoldable pub get_session : {A : Type 0} → Owned ClientImpl → M z (A × Owned ClientImpl)
  get_session = through Client.get_session

  unfoldable pub get_str_error : Owned ClientImpl → M z (String × Owned ClientImpl)
  get_str_error = through Client.get_str_error

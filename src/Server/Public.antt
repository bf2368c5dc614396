-- ===== src/Server/Public.antt =====
-- server_api.cpp, class Server: it forwards to ServerImpl.
use zeromq_agent.Base.{ℕ, String, none, some}
use zeromq_agent.Zmq.{Zmq, M, pure, ◌>>=◌}
use zeromq_agent.Message.{ErrorType, SocketType, Status, IMessage, Received}
use zeromq_agent.Server
use zeromq_agent.Server.{ServerImpl}
use zeromq_agent.Owned.{Owned, through, delete_owned, procedure}
use zeromq_agent.Async.{SendCallback, ReceiveCallback}
use zeromq_agent.Async.Queue.{Posts}
use zeromq_agent.Server.Queue

module _ {z : Zmq} where
  -- `Server (SocketType)`
  unfoldable pub make : SocketType → M z (Owned ServerImpl)
  make type = do impl ← Server.create type; pure (some impl)

  -- `Server (const ISession&)`
  unfoldable pub restore : {I : Type 0} → M z (Owned I)
  restore = pure none

  -- `~Server ()`
  unfoldable pub destroy : Owned ServerImpl → M z (Unit {0})
  destroy = delete_owned Server.destroy

  unfoldable pub bind : Owned ServerImpl → String → M z (ErrorType × Owned ServerImpl)
  bind s url = through (λ impl. Server.bind impl url) s

  unfoldable pub publish_message : Owned ServerImpl → IMessage → M z (Status × Owned ServerImpl)
  publish_message s message = through (λ impl. Server.publish_message impl message) s

  unfoldable pub receive : Owned ServerImpl → M z (Received × Owned ServerImpl)
  receive = through Server.receive

  unfoldable pub async_publish :
      ℕ
      → IMessage
      → SendCallback z ServerImpl
      → Owned (Posts z ServerImpl)
      → M z (Unit {0} × Owned (Posts z ServerImpl))
  async_publish i message cbk = through (procedure (Queue.async_publish i message cbk))

  unfoldable pub async_receive :
      ℕ
      → ReceiveCallback z ServerImpl
      → Owned (Posts z ServerImpl)
      → M z (Unit {0} × Owned (Posts z ServerImpl))
  async_receive i cbk = through (procedure (Queue.async_receive i cbk))

  unfoldable pub get_session : {A : Type 0} → Owned ServerImpl → M z (A × Owned ServerImpl)
  get_session = through Server.get_session

  unfoldable pub get_str_error : Owned ServerImpl → M z (String × Owned ServerImpl)
  get_str_error = through Server.get_str_error

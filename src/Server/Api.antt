-- ===== src/Server/Api.antt =====
-- server_api.h: what the class Server declares, and its implementation in server_api.cpp.
use zeromq_agent.Base.{ℕ, String}
use zeromq_agent.Zmq.{Zmq, M}
use zeromq_agent.Message.{ErrorType, SocketType, Status, ISession, IMessage, Received}
use zeromq_agent.Owned.{Owned}
use zeromq_agent.Async.{SendCallback, ReceiveCallback}
use zeromq_agent.Async.Queue.{Posts}
use zeromq_agent.Server.{ServerImpl}
use zeromq_agent.Server.Public as Public

-- `S` are the objects, and `Q` the objects with the handlers that they have posted, which the
-- asynchronous methods add to. The number is that of the statement which posts.
pub record ServerApi (z : Zmq) (S Q : Type 0) : Type 0 where
  -- `Server (SocketType)`, `Server (const ISession&)` and `~Server ()`
  pub make : SocketType → M z S
  pub restore : ISession → M z S
  pub destroy : S → M z (Unit {0})
  pub bind : S → String → M z (ErrorType × S)
  pub receive : S → M z (Received × S)
  pub async_receive : ℕ → ReceiveCallback z ServerImpl → Q → M z (Unit {0} × Q)
  -- `publish`
  pub publish_message : S → IMessage → M z (Status × S)
  pub async_publish : ℕ → IMessage → SendCallback z ServerImpl → Q → M z (Unit {0} × Q)
  pub get_session : S → M z (ISession × S)
  pub get_str_error : S → M z (String × S)

module _ {z : Zmq} where
  abbrev pub server_api : ServerApi z (Owned ServerImpl) (Owned (Posts z ServerImpl))
  server_api = record {
    make = Public.make;
    restore = λ _. Public.restore;
    destroy = Public.destroy;
    bind = Public.bind;
    receive = Public.receive;
    async_receive = Public.async_receive;
    publish_message = Public.publish_message;
    async_publish = Public.async_publish;
    get_session = Public.get_session;
    get_str_error = Public.get_str_error;
  }

-- ===== src/Client/Api.antt =====
-- client_api.h: what the class Client declares, and its implementation in client_api.cpp.
use zeromq_agent.Base.{ℕ, String}
use zeromq_agent.Zmq.{Zmq, M}
use zeromq_agent.Message.{ErrorType, SocketType, Status, ISession, IMessage, Received}
use zeromq_agent.Owned.{Owned}
use zeromq_agent.Async.{SendCallback, ReceiveCallback}
use zeromq_agent.Async.Queue.{Posts}
use zeromq_agent.Client.{ClientImpl}
use zeromq_agent.Client.Public as Public

-- `C` are the objects, and `Q` the objects with the handlers that they have posted, which the
-- asynchronous methods add to. The number is that of the statement which posts.
pub record ClientApi (z : Zmq) (C Q : Type 0) : Type 0 where
  -- `Client (SocketType)`, `Client (const ISession&)` and `~Client ()`
  pub make : SocketType → M z C
  pub restore : ISession → M z C
  pub destroy : C → M z (Unit {0})
  pub connect : C → String → M z (ErrorType × C)
  pub receive : C → M z (Received × C)
  pub send : C → IMessage → M z (Status × C)
  -- the status that the future `result_type` would give
  pub async_send_result : C → IMessage → M z (Status × C)
  pub async_send : ℕ → IMessage → SendCallback z ClientImpl → Q → M z (Unit {0} × Q)
  pub async_receive : ℕ → ReceiveCallback z ClientImpl → Q → M z (Unit {0} × Q)
  pub get_session : C → M z (ISession × C)
  pub get_str_error : C → M z (String × C)

module _ {z : Zmq} where
  abbrev pub client_api : ClientApi z (Owned ClientImpl) (Owned (Posts z ClientImpl))
  client_api = record {
    make = Public.make;
    restore = λ _. Public.restore;
    destroy = Public.destroy;
    connect = Public.connect;
    receive = Public.receive;
    send = Public.send;
    async_send_result = λ c _. Public.async_send_result c;
    async_send = Public.async_send;
    async_receive = Public.async_receive;
    get_session = Public.get_session;
    get_str_error = Public.get_str_error;
  }

-- ===== src/Server/Async.antt =====
-- server_api.cpp, ServerImpl: the handlers that async_publish and async_receive post.
use zeromq_agent.Base.{Option}
use zeromq_agent.Zmq.{Zmq, zmq_dontwait, M}
use zeromq_agent.Message.{IMessage}
use zeromq_agent.Server.{ServerImpl, publish_worker}
use zeromq_agent.Async.{Endpoint, SendCallback, ReceiveCallback, send_handler, receive_handler}

abbrev pub server_endpoint : Endpoint ServerImpl
server_endpoint = record {
  m_socket = λ c. c.m_socket;
  set_str_error = λ text c. record c { m_str_error = text };
}

module _ {z : Zmq} where
  unfoldable pub async_publish :
      Option IMessage → Option (SendCallback z ServerImpl) → ServerImpl → M z ServerImpl
  unfolding send_handler
  async_publish = send_handler λ c message. publish_worker c message zmq_dontwait

  unfoldable pub async_receive : Option (ReceiveCallback z ServerImpl) → ServerImpl → M z ServerImpl
  unfolding receive_handler
  async_receive = receive_handler server_endpoint

-- ===== src/Client/Async.antt =====
-- client_api.cpp, ClientImpl: the handlers that async_send and async_receive post.
use zeromq_agent.Base.{Option}
use zeromq_agent.Zmq.{Zmq, zmq_dontwait, M}
use zeromq_agent.Message.{IMessage}
use zeromq_agent.Client.{ClientImpl, send_worker}
use zeromq_agent.Async.{Endpoint, SendCallback, ReceiveCallback, send_handler, receive_handler}

abbrev pub client_endpoint : Endpoint ClientImpl
client_endpoint = record {
  m_socket = λ c. c.m_socket;
  set_str_error = λ text c. record c { m_str_error = text };
}

module _ {z : Zmq} where
  unfoldable pub async_send :
      Option IMessage → Option (SendCallback z ClientImpl) → ClientImpl → M z ClientImpl
  unfolding send_handler
  async_send = send_handler λ c message. send_worker c message zmq_dontwait

  unfoldable pub async_receive : Option (ReceiveCallback z ClientImpl) → ClientImpl → M z ClientImpl
  unfolding receive_handler
  async_receive = receive_handler client_endpoint

-- ===== src/Server/Queue.antt =====
-- server_api.cpp: ServerImpl::async_publish and ServerImpl::async_receive post to the strand. The
-- number names what a handler holds by reference; a method returns before its handler runs.
use zeromq_agent.Base.{ℕ}
use zeromq_agent.Zmq.{Zmq, M}
use zeromq_agent.Message.{IMessage}
use zeromq_agent.Server.{ServerImpl}
use zeromq_agent.Async.{SendCallback, ReceiveCallback, reference}
use zeromq_agent.Async.Queue.{Posts, post}
use zeromq_agent.Server.Async

module _ {z : Zmq} where
  unfoldable pub async_publish :
      ℕ → IMessage → SendCallback z ServerImpl → Posts z ServerImpl → M z (Posts z ServerImpl)
  unfolding Async.async_publish
  async_publish i message cbk = post λ scope.
      Async.async_publish (reference (scope.message i) message) (reference (scope.callback i) cbk)

  unfoldable pub async_receive :
      ℕ → ReceiveCallback z ServerImpl → Posts z ServerImpl → M z (Posts z ServerImpl)
  unfolding Async.async_receive
  async_receive i cbk = post λ scope. Async.async_receive (reference (scope.callback i) cbk)

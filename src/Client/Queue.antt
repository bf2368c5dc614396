-- ===== src/Client/Queue.antt =====
-- client_api.cpp: ClientImpl::async_send and ClientImpl::async_receive post to the strand. The number
-- names what a handler holds by reference; a method returns before its handler runs.
use zeromq_agent.Base.{ℕ}
use zeromq_agent.Zmq.{Zmq, M}
use zeromq_agent.Message.{IMessage}
use zeromq_agent.Client.{ClientImpl}
use zeromq_agent.Async.{SendCallback, ReceiveCallback, reference}
use zeromq_agent.Async.Queue.{Posts, post}
use zeromq_agent.Client.Async

module _ {z : Zmq} where
  unfoldable pub async_send :
      ℕ → IMessage → SendCallback z ClientImpl → Posts z ClientImpl → M z (Posts z ClientImpl)
  unfolding Async.async_send
  async_send i message cbk = post λ scope.
      Async.async_send (reference (scope.message i) message) (reference (scope.callback i) cbk)

  unfoldable pub async_receive :
      ℕ → ReceiveCallback z ClientImpl → Posts z ClientImpl → M z (Posts z ClientImpl)
  unfolding Async.async_receive
  async_receive i cbk = post λ scope. Async.async_receive (reference (scope.callback i) cbk)

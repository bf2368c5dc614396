-- ===== src/Agent/Callbacks.antt =====
-- zeromq_agent.cpp: the callbacks of the asynchronous clients and of the asynchronous server.
use zeromq_agent.Base.{some, ◌<◌, ◌^◌, ◌≡◌}
use zeromq_agent.Base.Int.{to_size}
use zeromq_agent.Memory.{Ptr}
use zeromq_agent.Zmq.{Zmq, Machine, pure, ◌>>=◌, ◌>>◌}
use zeromq_agent.Zmq.Calls.{load}
use zeromq_agent.Zmq.Laws.{ManagesBuffers}
use zeromq_agent.Message
use zeromq_agent.Message.{send_message, from_string}
use zeromq_agent.Client
use zeromq_agent.Client.{ClientImpl}
use zeromq_agent.Client.Async
use zeromq_agent.Client.Async.{client_endpoint}
use zeromq_agent.Server
use zeromq_agent.Server.{ServerImpl}
use zeromq_agent.Async.{ReceiveCallback, SendCallback}
use zeromq_agent.Async.Receive.{ReadsOnly, Handles, received, receive_handler-Handles}
use zeromq_agent.Agent.{reply_text, show_message}

module _ {z : Zmq} where
  -- The callback of pub_sub_client_async reads the text for the output.
  unfoldable pub print_message : ReceiveCallback z ClientImpl
  print_message message c = do _ ← load message.m_data (to_size message.m_size); pure (message, c)

  -- The callback of req_rep_client_async, which holds the client.
  unfoldable pub receive_answer : SendCallback z ClientImpl
  unfolding show_message
  receive_answer status c = do (got, c') ← Client.receive c; show_message got c'.m_message; pure c'

  -- The callback of req_rep_server_async, which holds the server.
  unfoldable pub reply_message : ReceiveCallback z ServerImpl
  reply_message message s = do
    _ ← load message.m_data (to_size message.m_size)
    text ← from_string reply_text
    (_, s') ← Server.publish_message s (send_message text)
    Message.destroy text
    pure (message, s')

  print_message-ReadsOnly : ReadsOnly print_message
  unfolding print_message
  print_message-ReadsOnly message xs c m there borrowed = rw there borrowed

  -- On a connected client, for a message below 2^31 bytes, and where the library manages the buffers
  -- as its manual says, a handler that pub_sub_client_async posts ends without a fault and prints the
  -- message that comes in, if there is one, where its callback is still there.
  pub print_message-Handles :
      (laws : ManagesBuffers z) (c : ClientImpl) (s : Ptr) (m : Machine z)
      → c.m_socket ≡ some s
      → z.zmq_msg_size (received s m).1 < 2 ^ 31
      → Handles client_endpoint print_message c s m (Async.async_receive (some print_message) c m)
  unfolding Async.async_receive
  print_message-Handles laws c s m hs small =
      receive_handler-Handles laws client_endpoint print_message c s m print_message-ReadsOnly hs
        small

-- ===== src/Agent.antt =====
-- zeromq_agent.cpp: the blocking clients and servers of the test program and its `main`. Pauses and
-- console output are left out, but for the reads of memory that the output makes.
pub mod Lockstep
pub mod Requests
pub mod Attempts
pub mod Replies
pub mod Callbacks
pub mod Dangling
pub mod Posting
pub mod Main
pub mod Returns
pub mod Clients
pub mod Servers
mod Tests
use zeromq_agent.Base.{ℕ, zero, suc, ◌+◌, Bool, String, List, [], ◌∷◌, if◌then◌else◌, get_elem?}
use zeromq_agent.Base.Int.{ℤ, pos, negsuc, to_size}
use zeromq_agent.Base.Text.{codes}
use zeromq_agent.Memory.{Bytes}
use zeromq_agent.Zmq.{Zmq, Fault, M, pure, ◌>>=◌, ◌>>◌}
use zeromq_agent.Zmq.Calls.{load, or_fault}
use zeromq_agent.Message.{
  ErrorType, ok, not_ok, request, reply, publish, subscribe, IMessage, send_message, get_data,
  get_size, Received, no_message, own_message, from_string,
}
use zeromq_agent.Message
use zeromq_agent.Client
use zeromq_agent.Client.{ClientImpl}
use zeromq_agent.Server
use zeromq_agent.Server.{ServerImpl}

abbrev pub update_token : Bytes
update_token = codes "{'msg_type' : 'ipc', 'name': 'update_token', 'data': {'token': '<token>'}}"

abbrev pub clip_request : Bytes
clip_request = codes "{'msg_type' : 'ipc', 'name': 'clip_request', 'data': {'time': '<timestamp>'}}"

abbrev pub add_camera : Bytes
add_camera =
    codes
      "{'msg_type' : 'ipc', 'name': 'add_camera|edit_camera|delete_camera', 'data': <camera_json_info>}"

abbrev pub reply_text : Bytes
reply_text = codes "{'status' : 'ok'}"

abbrev pub iterations_num : ℕ
iterations_num = 100

unfoldable pub messages : List Bytes
messages = update_token ∷ clip_request ∷ add_camera ∷ []

module _ {z : Zmq} where
  -- The text of a message that was received is read for the output.
  unfoldable pub show_message : Received → IMessage → M z (Unit {0})
  show_message no_message own = pure tt
  show_message own_message own = do _ ← load (get_data own) (to_size (get_size own)); pure tt

  -- `messages[index]`
  unfoldable pub message_at : ℕ → M z Bytes
  unfolding messages
  message_at index = or_fault Fault.bad_access (get_elem? messages index)

  -- The end of a function: its client or server is destroyed. `started` says whether the worker
  -- thread has set `m_running` by then.
  unfoldable pub leave_client : Bool → ClientImpl → ℤ → M z ℤ
  leave_client started c code = do
    Client.destroy (if started then Client.worker_starts c else c)
    pure code

  unfoldable pub leave_server : Bool → ServerImpl → ℤ → M z ℤ
  leave_server started s code = do
    Server.destroy (if started then Server.worker_starts s else s)
    pure code

  -- What follows `connect`: the client works if that went well, and ends.
  unfoldable pub enter_client :
      Bool → (ClientImpl → M z ClientImpl) → ErrorType → ClientImpl → M z ℤ
  unfolding leave_client
  enter_client started work not_ok c = leave_client started c (negsuc 0)
  enter_client started work ok c = do c' ← work c; leave_client started c' (pos 0)

  unfoldable pub run_client : Bool → ClientImpl → String → (ClientImpl → M z ClientImpl) → M z ℤ
  unfolding enter_client
  run_client started c url work = do (r, c') ← Client.connect c url; enter_client started work r c'

  unfoldable pub enter_server :
      Bool → (ServerImpl → M z ServerImpl) → ErrorType → ServerImpl → M z ℤ
  unfolding leave_server
  enter_server started work not_ok s = leave_server started s (negsuc 0)
  enter_server started work ok s = do s' ← work s; leave_server started s' (pos 0)

  unfoldable pub run_server : Bool → ServerImpl → String → (ServerImpl → M z ServerImpl) → M z ℤ
  unfolding enter_server
  run_server started s url work = do (r, s') ← Server.bind s url; enter_server started work r s'

  -- One round of `req_rep_client`; `dist` are the numbers that the generator draws.
  unfoldable pub request_round : (ℕ → ℕ) → ℕ → ClientImpl → M z ClientImpl
  unfolding show_message message_at
  request_round dist i c = do
    text ← message_at (dist i)
    message ← from_string text
    (_, c') ← Client.send c (send_message message)
    (got, c'') ← Client.receive c'
    show_message got c''.m_message
    Message.destroy message
    pure c''

  unfoldable pub request_rounds : (ℕ → ℕ) → ℕ → ℕ → ClientImpl → M z ClientImpl
  unfolding request_round
  request_rounds dist zero i c = pure c
  request_rounds dist (suc n) i c = do c' ← request_round dist i c; request_rounds dist n (i + 1) c'

  unfoldable pub req_rep_client : (ℕ → ℕ) → Bool → String → M z ℤ
  unfolding run_client request_rounds
  req_rep_client dist started url = do
    c ← Client.create request
    run_client started c url (request_rounds dist iterations_num 0)

  -- What `req_rep_server` does with the result of `receive`.
  unfoldable pub answer : Received → ServerImpl → M z ServerImpl
  answer no_message s = pure s
  answer own_message s = do
    _ ← load (get_data s.m_message) (to_size (get_size s.m_message))
    message ← from_string reply_text
    (_, s') ← Server.publish_message s (send_message message)
    Message.destroy message
    pure s'

  unfoldable pub reply_round : ServerImpl → M z ServerImpl
  unfolding answer
  reply_round s = do (got, s') ← Server.receive s; answer got s'

  unfoldable pub reply_rounds : ℕ → ServerImpl → M z ServerImpl
  unfolding reply_round
  reply_rounds zero s = pure s
  reply_rounds (suc n) s = do s' ← reply_round s; reply_rounds n s'

  unfoldable pub req_rep_server : Bool → String → M z ℤ
  unfolding run_server reply_rounds
  req_rep_server started url = do
    s ← Server.create reply
    run_server started s url (reply_rounds iterations_num)

  -- What `req_rep_worker` does with the result of `receive`.
  unfoldable pub work_answer : Received → ClientImpl → M z ClientImpl
  work_answer no_message c = pure c
  work_answer own_message c = do
    _ ← load (get_data c.m_message) (to_size (get_size c.m_message))
    message ← from_string reply_text
    (_, c') ← Client.send c (send_message message)
    Message.destroy message
    pure c'

  unfoldable pub work_round : ClientImpl → M z ClientImpl
  unfolding work_answer
  work_round c = do (got, c') ← Client.receive c; work_answer got c'

  unfoldable pub work_rounds : ℕ → ClientImpl → M z ClientImpl
  unfolding work_round
  work_rounds zero c = pure c
  work_rounds (suc n) c = do c' ← work_round c; work_rounds n c'

  unfoldable pub req_rep_worker : Bool → String → M z ℤ
  unfolding run_client work_rounds
  req_rep_worker started url = do
    c ← Client.create reply
    run_client started c url (work_rounds iterations_num)

  unfoldable pub subscribe_round : ClientImpl → M z ClientImpl
  unfolding show_message
  subscribe_round c = do (got, c') ← Client.receive c; show_message got c'.m_message; pure c'

  unfoldable pub subscribe_rounds : ℕ → ClientImpl → M z ClientImpl
  unfolding subscribe_round
  subscribe_rounds zero c = pure c
  subscribe_rounds (suc n) c = do c' ← subscribe_round c; subscribe_rounds n c'

  unfoldable pub pub_sub_client : Bool → String → M z ℤ
  unfolding run_client subscribe_rounds
  pub_sub_client started url = do
    c ← Client.create subscribe
    run_client started c url (subscribe_rounds iterations_num)

  unfoldable pub publish_round : (ℕ → ℕ) → ℕ → ServerImpl → M z ServerImpl
  unfolding message_at
  publish_round dist i s = do
    text ← message_at (dist i)
    message ← from_string text
    (_, s') ← Server.publish_message s (send_message message)
    Message.destroy message
    pure s'

  unfoldable pub publish_rounds : (ℕ → ℕ) → ℕ → ℕ → ServerImpl → M z ServerImpl
  unfolding publish_round
  publish_rounds dist zero i s = pure s
  publish_rounds dist (suc n) i s = do s' ← publish_round dist i s; publish_rounds dist n (i + 1) s'

  unfoldable pub pub_sub_server : (ℕ → ℕ) → Bool → String → M z ℤ
  unfolding run_server publish_rounds
  pub_sub_server dist started url = do
    s ← Server.create publish
    run_server started s url (publish_rounds dist iterations_num 0)

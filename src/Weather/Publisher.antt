-- ===== src/Weather/Publisher.antt =====
-- wuserver.c, main. `s_send` of zhelpers.h is a parameter. `bufferToSend` is a constant array, which
-- is never freed because the loop does not end; the pauses and `getchar` are left out.
pub mod Publishes
use zeromq_agent.Base.{ℕ, zero, suc, String, not}
use zeromq_agent.Base.Int.{ℤ, is_nonzero}
use zeromq_agent.Base.Text.{codes}
use zeromq_agent.Memory.{Ptr, Bytes}
use zeromq_agent.Zmq.{Zmq, zmq_pub, M, blocked, pure, ◌>>=◌, ◌>>◌}
use zeromq_agent.Zmq.Calls.{zmq_ctx_new, zmq_socket, zmq_bind}
use zeromq_agent.Weather.{check}

-- "%s://*:5556"
abbrev pub end_point : String
end_point = "tcp://*:5556"

-- UPDATE_TOKEN, up to the 0 at its end.
unfoldable pub buffer_to_send : Bytes
buffer_to_send = codes "{'msg_type' : 'ipc', 'name': 'update_token', 'data': {'token': '<token>'}}"

-- `s_send`, with the bytes of the text before its 0.
module _ {z : Zmq} (s_send : Ptr → Bytes → M z ℤ) where
  -- The first rounds of `while (1)`.
  unfoldable pub send_updates : ℕ → Ptr → M z (Unit {0})
  send_updates zero publisher = pure tt
  send_updates (suc n) publisher = do _ ← s_send publisher buffer_to_send; send_updates n publisher

  -- The loop has no end: after the rounds that are run, the run is blocked.
  unfoldable pub server_main : ℕ → M z ℤ
  unfolding send_updates
  server_main rounds = do
    context ← zmq_ctx_new
    publisher ← zmq_socket context zmq_pub
    rc ← zmq_bind publisher end_point
    check (not (is_nonzero rc))
    send_updates rounds publisher
    λ m. blocked m

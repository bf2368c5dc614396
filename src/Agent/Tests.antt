-- ===== src/Agent/Tests.antt =====
-- The theorems on the test program at examples.
use zeromq_agent.Worker.{free}
use zeromq_agent.Base.{false, [], ◌≡◌, ◌↔◌, refl, true, false, some, arith}
use zeromq_agent.Zmq.Sample.{sample, fresh, sample-KeepsBuffers}
use zeromq_agent.Base.Int.{to_size}
use zeromq_agent.Memory.Laws.{read-zero}
use zeromq_agent.Agent.Dangling.{LeavesFreed, work_answer-LeavesFreed}
use zeromq_agent.Message.{
  own_message, get_data, get_size, request, reply, send_message, empty_message,
}
use zeromq_agent.Client.{ClientImpl}
use zeromq_agent.Server.{ServerImpl}
use zeromq_agent.Agent.{reply_rounds, work_answer, work_rounds}
use zeromq_agent.Zmq.Sample.{sample}
use zeromq_agent.Agent.Main.{Mode, Setting, main, mode_of}
use zeromq_agent.Agent.Main.Modes.{name_of, mode_of_iff}
use zeromq_agent.Agent.Main.Ends.{is_known, MainEnds, main-MainEnds}
use zeromq_agent.Agent.Lockstep.{may_receive, turn_after, Stays}
use zeromq_agent.Agent.Requests.{Wraps}
use zeromq_agent.Agent.Replies.{reply_rounds-turn, work_rounds-turn}

sample-Wraps : Wraps sample
sample-Wraps = λ p n w. refl

-- A client that is connected to send requests, and a server that is bound.
abbrev client : ClientImpl
client = record {
  m_context = 50;
  m_socket = some 100;
  m_type = request;
  m_message = send_message empty_message;
  m_running = false;
  m_worker = free;
  m_str_error = "";
}

abbrev server : ServerImpl
server = record {
  m_ctx = 50;
  m_socket = some 100;
  m_message = send_message empty_message;
  m_type = reply;
  m_running = false;
  m_worker = free;
  m_str_error = "";
}

reply_rounds-turn_example : Stays may_receive may_receive (reply_rounds 3 server fresh)
unfolding turn_after
reply_rounds-turn_example = reply_rounds-turn may_receive 3 server fresh refl

work_rounds-turn_example : Stays may_receive may_receive (work_rounds 3 client fresh)
unfolding turn_after
work_rounds-turn_example = work_rounds-turn may_receive sample-Wraps 3 client fresh refl

-- In each round the worker runs the new handler while its statement is running.
abbrev setting : Setting
setting = record {
  fuel = 3;
  rounds = 2;
  dist = λ i. i;
  plan = record { within = λ i. 1; after = λ i. 0; at_end = 0 };
  started = true;
}

main-MainEnds_example : MainEnds (is_known (some "broker")) (main setting (some "broker") fresh)
main-MainEnds_example = main-MainEnds setting (some "broker") fresh

mode_of_iff_example : (mode_of "worker" ≡ some Mode.worker) ↔ ("worker" ≡ name_of Mode.worker)
mode_of_iff_example = mode_of_iff "worker" Mode.worker

work_answer-LeavesFreed_example : LeavesFreed 100 fresh (work_answer own_message client fresh)
unfolding get_data get_size to_size
work_answer-LeavesFreed_example =
    work_answer-LeavesFreed client 100 [] fresh sample-KeepsBuffers (omega arith) refl
      (read-zero 0 fresh.heap)

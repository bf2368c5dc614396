-- ===== src/Weather/Subscriber.antt =====
-- wuclient.c, main: the sockets, the buffer and the loop. `s_clock` of zhelpers.h is a parameter, as
-- the times that it gives in each round.
pub mod Packets
pub mod Ends
pub mod Unterminated
use zeromq_agent.Base.{
  ℕ, zero, suc, Bool, true, false, String, Option, none, some, [], not, replicate, if◌then◌else◌,
}
use zeromq_agent.Base.Int.{ℤ, pos, negsuc, is_nonzero}
use zeromq_agent.Memory.{Ptr, Block, c_string}
use zeromq_agent.Zmq.{Zmq, zmq_sub, zmq_subscribe, no_flags, Fault, M, pure, fail_with, ◌>>=◌, ◌>>◌}
use zeromq_agent.Zmq.Calls.{
  zmq_ctx_new, zmq_ctx_destroy, zmq_socket, zmq_close, zmq_connect, zmq_setsockopt, zmq_recv,
  or_fault,
}
use zeromq_agent.Weather.{test_size, num_of_packets, check}
use zeromq_agent.Weather.Timing.{Reading, Statistics, at_start, is_failed, time_took, add_sample}

-- What `s_clock` gives before and after `zmq_recv` in each round.
pub record Clock : Type 0 where
  pub start : ℕ → ℕ
  pub end : ℕ → ℕ

abbrev pub reading : Clock → ℕ → ℤ → Reading
reading clock update_nbr size = record {
  start = clock.start update_nbr;
  size = size;
  end = clock.end update_nbr;
}

-- "%s://localhost:5556"
abbrev pub end_point : String
end_point = "tcp://localhost:5556"

-- An array of this size that is not initialised.
unfoldable pub new_buffer : ℕ → Block
new_buffer room = replicate room none

module _ {z : Zmq} where
  -- `printf ("%s", buffer)`
  abbrev pub print_text : Block → M z (Unit {0})
  print_text buffer = do _ ← or_fault Fault.bad_access (c_string buffer); pure tt

  -- One round of the loop; `none` is `exit (-1)`.
  unfoldable pub update_round :
      Clock → ℕ → Ptr → Block → Statistics → M z (Option (Block × Statistics))
  update_round clock update_nbr subscriber buffer s = do
    (size, buffer') ← zmq_recv subscriber buffer test_size no_flags
    if is_failed size then pure none else do
      print_text buffer'
      pure (some (buffer', add_sample (time_took (reading clock update_nbr size)) s))

  -- The rounds of the loop that are left.
  unfoldable pub packets : Clock → ℕ → ℕ → Ptr → Block → Statistics → M z (Option Statistics)
  unfolding update_round
  packets clock zero update_nbr subscriber buffer s = pure (some s)
  packets clock (suc n) update_nbr subscriber buffer s = do
    round ← update_round clock update_nbr subscriber buffer s
    elim round [
      | none ↦ pure none
      | some (buffer', s') ↦ packets clock n (suc update_nbr) subscriber buffer' s'
    ]

  -- After the loop: the statistics that are printed, and the exit code.
  abbrev pub finish : Ptr → Ptr → Option Statistics → M z (ℤ × Option Statistics)
  finish context subscriber none = pure (negsuc 0, none)
  finish context subscriber (some s) = do
    _ ← zmq_close subscriber
    _ ← zmq_ctx_destroy context
    pure (pos 0, some s)

  unfoldable pub client_main : Clock → M z (ℤ × Option Statistics)
  unfolding new_buffer packets
  client_main clock = do
    context ← zmq_ctx_new
    subscriber ← zmq_socket context zmq_sub
    rc ← zmq_connect subscriber end_point
    check (not (is_nonzero rc))
    rc ← zmq_setsockopt subscriber zmq_subscribe []
    check (not (is_nonzero rc))
    s ← packets clock num_of_packets 0 subscriber (new_buffer test_size) at_start
    finish context subscriber s

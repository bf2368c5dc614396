-- ===== src/Weather.antt =====
-- The weather programs wuclient.c and wuserver.c and their constants in consts.h.
pub mod Timing
pub mod Texts
pub mod Subscriber
pub mod Broadcast
pub mod Publisher
mod Tests
use zeromq_agent.Base.{ℕ, ◌*◌, Bool, true, false}
use zeromq_agent.Zmq.{Zmq, Fault, M, pure, fail_with}

abbrev pub face_size : ℕ
face_size = 49152

abbrev pub thumb_size : ℕ
thumb_size = 128 * 96 * 4

abbrev pub image_size : ℕ
image_size = 480 * 270 * 4

abbrev pub test_size : ℕ
test_size = 480 * 270 * 4

abbrev pub num_of_packets : ℕ
num_of_packets = 1000

-- `assert`
abbrev pub check : {z : Zmq} → Bool → M z (Unit {0})
check true = pure tt
check false = fail_with Fault.assertion

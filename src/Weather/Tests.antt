-- ===== src/Weather/Tests.antt =====
-- The theorems on the weather programs at examples.
use zeromq_agent.Base.{ℕ, [], ◌∷◌, take, length-take, ◌*◌, ◌+◌, ◌≡◌, refl, true, arith}
use zeromq_agent.Base.Int.{ℤ, pos}
use zeromq_agent.Weather.Timing.{Reading}
use zeromq_agent.Zmq.{Zmq, no_flags, Event, Machine, M}
use zeromq_agent.Memory.{Ptr, Bytes}
use zeromq_agent.Zmq.Calls.{perform}
use zeromq_agent.Zmq.Sample.{sample, fresh}
use zeromq_agent.Weather.{num_of_packets, test_size}
use zeromq_agent.Weather.Publisher.{buffer_to_send, send_updates, server_main}
use zeromq_agent.Weather.Publisher.Publishes.{ServerEnds, server_main-ServerEnds}
use zeromq_agent.Weather.Subscriber.{Clock, client_main}
use zeromq_agent.Weather.Subscriber.Packets.{Truncates}
use zeromq_agent.Weather.Subscriber.Ends.{ClientEnds, client_main-ClientEnds}
use zeromq_agent.Weather.Broadcast.{Brings, texts, ReadsPast, weather-ReadsPast}
use mathlib.Core.List.{Memᴰ}
use zeromq_agent.Zmq.Parts.{calls_of}
use zeromq_agent.Weather.Texts.{generate_string, out_of_bounds}
use zeromq_agent.Weather.Texts.Letters.{
  Letters, generate_string-Letters, generate_string-out_of_bounds,
}

-- The first round takes no time, and each later one takes longer.
abbrev readings : ℕ → Reading
readings k = record { start = k; size = pos 20; end = k + k * k }

generate_string-Letters_example : Letters 20 test_size (generate_string true (pos 21))
generate_string-Letters_example = generate_string-Letters 20 (omega arith)

generate_string-out_of_bounds_example : generate_string true (pos 518401) ≡ out_of_bounds
generate_string-out_of_bounds_example = generate_string-out_of_bounds 518400 (omega arith)

-- The messages of this library end with a 0.
abbrev short : Zmq
short = record sample { zmq_recv = λ s len flags w. (pos 3, take len (b'h' ∷ b'i' ∷ 0 ∷ []), w) }

abbrev short_start : Machine short
short_start = record { world = 0; heap = fresh.heap; trace = [] }

abbrev clock : Clock
clock = record { start = λ k. k; end = λ k. k + 5 }

short-Truncates : Truncates short
short-Truncates s len flags w = length-take len _

client_main-ClientEnds_example :
    ClientEnds clock num_of_packets short_start (client_main clock short_start)
client_main-ClientEnds_example = client_main-ClientEnds clock short_start short-Truncates

-- This library brings the text of wuserver.c.
abbrev connected : Zmq
connected = record sample { zmq_recv = λ s len flags w. (pos 74, take len buffer_to_send, w) }

abbrev connected_start : Machine connected
connected_start = record { world = 0; heap = fresh.heap; trace = [] }

abbrev send_text : Ptr → Bytes → M sample ℤ
send_text s xs = perform (sample.zmq_send s xs no_flags) (Event.sent s xs no_flags)

server_main-ServerEnds_example : ServerEnds 3 fresh (server_main send_text 3 fresh)
server_main-ServerEnds_example = server_main-ServerEnds send_text (λ s xs m. refl) 3 fresh

connected-Truncates : Truncates connected
connected-Truncates s len flags w = length-take len buffer_to_send

connected-Brings : Brings connected (texts (calls_of (server_main send_text 3 fresh)))
unfolding server_main send_updates buffer_to_send
connected-Brings s w good = Memᴰ.head refl

weather-ReadsPast_example : ReadsPast connected_start (client_main clock connected_start)
weather-ReadsPast_example =
    weather-ReadsPast send_text (λ s xs m. refl) 3 clock connected_start fresh refl
      connected-Truncates connected-Brings

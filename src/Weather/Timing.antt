-- ===== src/Weather/Timing.antt =====
-- wuclient.c, main: what it keeps of the times that its 1000 updates took. The clock and the socket
-- are the readings that they give; the average, a `float`, is left out.
pub mod Summary
use zeromq_agent.Base.{
  ℕ, zero, suc, ◌+◌, ◌-◌, ◌%◌, ◌^◌, ◌≤◌, ◌<◌, ◌≡◌, refl, ◌∙◌, Bool, true, false, Option, none, some,
  List, [], ◌∷◌, ◌⊎◌, inl, inr, Bool-cases, ltb, ◌==◌, if◌then◌else◌, All, arith,
}
use zeromq_agent.Base.Int.{ℤ, negsuc}
use zeromq_agent.Weather.{num_of_packets}

-- One round: `s_clock` before and after `zmq_recv`, and the result of `zmq_recv`.
pub record Reading : Type 0 where
  pub start : ℕ
  pub size : ℤ
  pub end : ℕ

pub record Statistics : Type 0 where
  pub total_micro_sec : ℕ
  pub max : ℕ
  pub min : ℕ

abbrev pub at_start : Statistics
at_start = record { total_micro_sec = 0; max = 0; min = 999999 }

-- `size == -1`
abbrev pub is_failed : ℤ → Bool
is_failed (negsuc zero) = true
is_failed _ = false

-- `(uint32_t) (end - start)` on 64-bit numbers
unfoldable pub time_took : Reading → ℕ
time_took r = (r.end + 2 ^ 64 - r.start) % 2 ^ 64 % 2 ^ 32

unfoldable pub add_sample : ℕ → Statistics → Statistics
add_sample t s = record {
  total_micro_sec = if s.max == 0 then s.total_micro_sec else (s.total_micro_sec + t) % 2 ^ 32;
  max = if ltb s.max t then t else s.max;
  min = if ltb t s.min then t else s.min;
}

-- The rounds of the loop, from `update_nbr` on; `none` is `exit (-1)`.
unfoldable pub updates : (ℕ → Reading) → ℕ → ℕ → Statistics → Option Statistics
unfolding add_sample
updates readings zero update_nbr s = some s
updates readings (suc n) update_nbr s =
    let r = readings update_nbr in
    let rest = updates readings n (suc update_nbr) (add_sample (time_took r) s) in
    if is_failed r.size then none else rest

unfoldable pub collect : (ℕ → Reading) → Option Statistics
unfolding updates
collect readings = updates readings num_of_packets 0 at_start

-- ===== src/Weather/Subscriber/Packets.antt =====
-- wuclient.c, main: how its loop ends.
use zeromq_agent.Base.{
  ℕ, zero, suc, ◌≤◌, ◌≡◌, refl, sym, ◌∙◌, Bool-cases, Option-cases, inl, inr, true, false, Option,
  none, some, List, [], ◌∷◌, ◌++◌, length, length-append, All, All-append, ap, arith,
}
use zeromq_agent.Base.Int.{ℤ, pos}
use zeromq_agent.Memory.{Ptr, Bytes, Block, c_string}
use zeromq_agent.Memory.Laws.{defined}
use zeromq_agent.Memory.Text.{Unterminated, write_cells-fits, c_string-Unterminated}
use zeromq_agent.Zmq.{
  Zmq, Flags, no_flags, Event, Machine, Fault, Outcome, done, fault, blocked, M, and_then, pure,
}
use zeromq_agent.Weather.{test_size}
use zeromq_agent.Weather.Timing.{Statistics, is_failed, time_took, add_sample}
use zeromq_agent.Weather.Timing.Summary.{times, add_all}
use zeromq_agent.Weather.Subscriber.{Clock, reading, update_round, packets}

-- As documented, `zmq_recv` does not write more bytes than the buffer has.
abbrev pub Truncates : Zmq → Type 0
Truncates z =
    (s : Ptr) (len : ℕ) (flags : Flags) (w : z.World)
    → let (_, xs, _) = z.zmq_recv s len flags w in length xs ≤ len

module _ {z : Zmq} where
  -- The trace after these messages.
  abbrev pub after : Ptr → List (ℤ × Bytes) → List (Event z) → List (Event z)
  after s [] trace = trace
  after s ((n, xs) ∷ got) trace = after s got (Event.received s xs n ∷ trace)

  -- The latest call is `zmq_recv` that failed.
  abbrev pub Failed : List (Event z) → Type 0
  Failed (Event.received _ _ size ∷ _) = is_failed size ≡ true
  Failed _ = ⊥

  -- The latest call is `zmq_recv` that brought a message without a 0.
  abbrev pub EndsOpen : List (Event z) → Type 0
  EndsOpen (Event.received _ xs size ∷ _) = (is_failed size ≡ false) × Unterminated xs
  EndsOpen _ = ⊥

  -- What undefined behaviour is met, and after which call.
  abbrev pub StopsAt : Fault → List (Event z) → Type 0
  StopsAt Fault.bad_access trace = EndsOpen trace
  StopsAt _ _ = ⊥

  -- From the first trace to the second exactly `n` messages came, and nothing else was called.
  abbrev pub Heard : Ptr → ℕ → List (Event z) → List (Event z) → Type 0
  Heard s n before end =
      (got : List (ℤ × Bytes)) × (length got ≡ n)
      × All (λ g. is_failed g.0 ≡ false) got
      × (end ≡ after s got before)

  -- How a round ends.
  abbrev pub RoundEnds :
      Clock → ℕ → Ptr → Statistics → Machine z → Outcome z (Option (Block × Statistics)) → Type 0
  RoundEnds clock i sub s m (done (some (b, s')) m') =
      Heard sub 1 m.trace m'.trace
      × (length b ≡ test_size)
      × (s' ≡ add_sample (time_took (reading clock i (pos 0))) s)
  RoundEnds clock i sub s m (done none m') = Failed m'.trace
  RoundEnds clock i sub s m (fault f m') = StopsAt f m'.trace
  RoundEnds clock i sub s m (blocked _) = ⊥

  update_round-RoundEnds :
      (clock : Clock) (i : ℕ) (sub : Ptr) (b : Block) (s : Statistics) (m : Machine z)
      → Truncates z
      → length b ≡ test_size
      → RoundEnds clock i sub s m (update_round clock i sub b s m)
  unfolding update_round time_took
  update_round-RoundEnds clock i sub b s m truncates len =
      let (size, xs, w) = z.zmq_recv sub test_size no_flags m.world in
      let fits = truncates sub test_size no_flags m.world in
      let (c, e, same) = write_cells-fits xs b (rw len fits) in
      rw e (elim (Bool-cases (is_failed size)) [
        | inl failed ↦ rw failed failed
        | inr good ↦ rw good (elim (Option-cases (c_string (defined xs c))) [
          | inl open_end ↦ rw open_end (good, c_string-Unterminated xs c open_end)
          | inr (text, ends) ↦
              rw ends ((((size, xs) ∷ [], refl, (good, tt), refl), same ∙ len, refl))
        ])
      ])

  abbrev pub PacketsEnd :
      Clock → ℕ → ℕ → Ptr → Statistics → Machine z → Outcome z (Option Statistics) → Type 0
  PacketsEnd clock n i sub s m (done (some s') m') =
      Heard sub n m.trace m'.trace × (s' ≡ add_all (times (λ k. reading clock k (pos 0)) n i) s)
  PacketsEnd clock n i sub s m (done none m') = Failed m'.trace
  PacketsEnd clock n i sub s m (fault f m') = StopsAt f m'.trace
  PacketsEnd clock n i sub s m (blocked _) = ⊥

  after-append :
      (s : Ptr) (got later : List (ℤ × Bytes)) (trace : List (Event z))
      → after s (got ++ later) trace ≡ after s later (after s got trace)
  after-append s [] later trace = refl
  after-append s ((n, xs) ∷ got) later trace =
      after-append s got later (Event.received s xs n ∷ trace)

  Heard-add :
      (s : Ptr) (n : ℕ) (before middle end : List (Event z))
      → Heard s 1 before middle
      → Heard s n middle end
      → Heard s (suc n) before end
  Heard-add s n before middle end (one, len, good, here) (got, len', good', there) = (
    one ++ got,
    length-append one got ∙ omega (arith, len, len'),
    All-append _ one got good good',
    there ∙ ap (after s got) here ∙ sym (after-append s one got before),
  )

  rest-PacketsEnd :
      (clock : Clock) (n i : ℕ) (sub : Ptr) (s s' : Statistics) (m m' : Machine z)
      (o : Outcome z (Option Statistics))
      → Heard sub 1 m.trace m'.trace
      → s' ≡ add_sample (time_took (reading clock i (pos 0))) s
      → PacketsEnd clock n (suc i) sub s' m' o
      → PacketsEnd clock (suc n) i sub s m o
  unfolding add_all
  rest-PacketsEnd clock n i sub s s' m m' (done (some _) m'') one e (later, stats) = (
    Heard-add sub n m.trace m'.trace m''.trace one later,
    stats ∙ ap (add_all (times (λ k. reading clock k (pos 0)) n (suc i))) e,
  )
  rest-PacketsEnd clock n i sub s s' m m' (done none _) one e h = h
  rest-PacketsEnd clock n i sub s s' m m' (fault _ _) one e h = h
  rest-PacketsEnd clock n i sub s s' m m' (blocked _) one e h = h

  -- The later rounds, after a round that ended in this way.
  later-PacketsEnd :
      (clock : Clock) (n i : ℕ) (sub : Ptr) (s : Statistics) (m : Machine z)
      (o : Outcome z (Option (Block × Statistics)))
      → RoundEnds clock i sub s m o
      → ((b : Block) (s' : Statistics) (m' : Machine z)
          → length b ≡ test_size
          → PacketsEnd clock n (suc i) sub s' m' (packets clock n (suc i) sub b s' m'))
      → PacketsEnd clock (suc n) i sub s m (
          and_then o λ round. elim round as (λ _. M z (Option Statistics)) [
            | none ↦ pure none
            | some (b, s') ↦ packets clock n (suc i) sub b s'
          ])
  later-PacketsEnd clock n i sub s m (done (some (b, s')) m') (one, len, e) later =
      rest-PacketsEnd clock n i sub s s' m m' (packets clock n (suc i) sub b s' m') one e
        (later b s' m' len)
  later-PacketsEnd clock n i sub s m (done none _) h later = h
  later-PacketsEnd clock n i sub s m (fault _ _) h later = h
  later-PacketsEnd clock n i sub s m (blocked _) h later = h

  pub packets-PacketsEnd :
      (clock : Clock) (n i : ℕ) (sub : Ptr) (b : Block) (s : Statistics) (m : Machine z)
      → Truncates z
      → length b ≡ test_size
      → PacketsEnd clock n i sub s m (packets clock n i sub b s m)
  unfolding packets add_all
  packets-PacketsEnd clock zero i sub b s m truncates len = (([], refl, tt, refl), refl)
  packets-PacketsEnd clock (suc n) i sub b s m truncates len =
      later-PacketsEnd clock n i sub s m (update_round clock i sub b s m)
        (update_round-RoundEnds clock i sub b s m truncates len)
        λ b' s' m' len'. packets-PacketsEnd clock n (suc i) sub b' s' m' truncates len'

-- ===== src/Broker/Fuel.antt =====
-- broker_api.cpp, BrokerImpl::start_loop: the bounds on its inner loops do not matter.
use zeromq_agent.Base.{
  ℕ, zero, suc, ◌<◌, ◌≤◌, ◌≡◌, refl, Bool, true, false, [], ◌∷◌, if◌then◌else◌, ap, ◌∙◌, arith,
}
use mathlib.Core.Path.{fun_ext}
use zeromq_agent.Memory.{Ptr}
use zeromq_agent.Zmq.{Zmq, Machine, Outcome, done, fault, blocked, and_then, pure, ◌>>=◌, ◌>>◌}
use zeromq_agent.Zmq.Calls.{zmq_poll, value_of}
use zeromq_agent.Zmq.Laws.{ManagesBuffers, EndsMessages}
use zeromq_agent.Broker.{BrokerImpl, forward_part, forward, serve, serve_rounds, start_loop}
use zeromq_agent.Broker.Forward.{Part, forward_part-Part}

module _ {z : Zmq} (laws : ManagesBuffers z) (ends : EndsMessages z) where
  rest-eq :
      (k l : ℕ) (from to : Ptr) (m : Machine z) (o : Outcome z Bool)
      → Part laws ends from to m o
      → ends.parts from m.world < suc k
      → ends.parts from m.world < suc l
      → ((m' : Machine z)
          → ends.parts from m'.world < k
          → ends.parts from m'.world < l
          → forward k from to m' ≡ forward l from to m')
      → and_then o (λ again. elim again [ true ↦ forward k from to | false ↦ pure tt ])
        ≡ and_then o (λ again. elim again [ true ↦ forward l from to | false ↦ pure tt ])
  rest-eq k l from to m (done true m') (_, _, _, _, _, _, _, _, _, _, _, lower) enough enough'
        same =
      same m' (omega (arith, lower refl)) (omega (arith, lower refl))
  rest-eq k l from to m (done false m') part enough enough' same = refl
  rest-eq k l from to m (fault _ _) part enough enough' same = refl
  rest-eq k l from to m (blocked _) part enough enough' same = refl

  forward-eq :
      (k l : ℕ) (from to : Ptr) (m : Machine z)
      → ends.parts from m.world < k
      → ends.parts from m.world < l
      → forward k from to m ≡ forward l from to m
  unfolding forward
  forward-eq zero l from to m h h' = absurd (omega arith)
  forward-eq (suc k) zero from to m h h' = absurd (omega arith)
  forward-eq (suc k) (suc l) from to m h h' =
      rest-eq k l from to m (forward_part from to m) (forward_part-Part laws ends from to m) h h'
        λ m'. forward-eq k l from to m'

  forward_bound : (fuel : ℕ) → ends.bound ≤ fuel → forward {z = z} fuel ≡ forward ends.bound
  forward_bound fuel enough = fun_ext λ from. fun_ext λ to. fun_ext λ m.
      let lower = ends.below from m.world in
      forward-eq fuel ends.bound from to m (omega arith) lower

  serve_bound : (fuel : ℕ) → ends.bound ≤ fuel → serve {z = z} fuel ≡ serve ends.bound
  unfolding serve
  serve_bound fuel enough =
      ap
        (λ loop front back revents. do
          revents' ← zmq_poll (front ∷ back ∷ []) revents
          if revents' 0 then loop front back else pure tt
          if revents' 1 then loop back front else pure tt
          pure revents')
        (forward_bound fuel enough)

  serve_rounds_bound :
      (fuel rounds : ℕ)
      → ends.bound ≤ fuel
      → serve_rounds {z = z} fuel rounds ≡ serve_rounds ends.bound rounds
  unfolding serve_rounds
  serve_rounds_bound fuel zero enough = refl
  serve_rounds_bound fuel (suc rounds) enough =
      ap
        (λ rest front back revents. do
          revents' ← serve fuel front back revents
          rest front back revents')
        (serve_rounds_bound fuel rounds enough)
      ∙ ap
          (λ round front back revents. do
            revents' ← round front back revents
            serve_rounds ends.bound rounds front back revents')
          (serve_bound fuel enough)

  -- Where the library ends every message, `start_loop` runs the same with any bound on its inner
  -- loops that is at least the greatest number of parts of a message: the bound cuts nothing off,
  -- whatever the broker, the number of rounds and the state.
  pub start_loop-bound :
      (fuel rounds : ℕ) (b : BrokerImpl) (m : Machine z)
      → ends.bound ≤ fuel
      → start_loop fuel rounds b m ≡ start_loop ends.bound rounds b m
  unfolding start_loop
  start_loop-bound fuel rounds b m enough =
      ap
        (λ loop.
          (do
            front ← value_of b.m_frontend
            back ← value_of b.m_backend
            loop front back (λ _. false))
            m)
        (serve_rounds_bound fuel rounds enough)

-- ===== src/Agent/Main/Ends.antt =====
-- zeromq_agent.cpp, main: how the program ends.
use zeromq_agent.Base.{ℕ, Bool, true, false, String, Option, none, some, ◌≡◌, refl}
use zeromq_agent.Base.Int.{ℤ, negsuc}
use zeromq_agent.Zmq.{Zmq, Machine, Outcome, done, fault, blocked, and_then, M}
use zeromq_agent.Message.{ErrorType}
use zeromq_agent.Broker
use zeromq_agent.Broker.{BrokerImpl}
use zeromq_agent.BrokerPublisher
use zeromq_agent.BrokerPublisher.{BrokerPublisherImpl}
use zeromq_agent.BrokerPublisher.Lifetime.{Reachable, creates, binds, start_loop-uninitialised}
use zeromq_agent.Agent.Returns.{Lasts, Lasts-bind, Lasts-after, NeverReturns}
use zeromq_agent.Agent.Clients.{clients-NeverReturns}
use zeromq_agent.Agent.Servers.{servers-NeverReturns}
use zeromq_agent.Agent.Posting.Clients.{async_clients-NeverReturns}
use zeromq_agent.Agent.Posting.Servers.{req_rep_server_async-NeverReturns}
use zeromq_agent.Agent.Main.{
  frontend_endpoint, backend_endpoint, end_point, end_point_front_end, end_point_server, Mode,
  client, server, client_pub, server_pub, broker, worker, broker_publish, client_pub_async,
  client_req_async, server_req_async, mode_of, Setting, run_broker, run_broker_publish, run_mode,
  dispatch, main,
}

-- The argument names a mode.
abbrev pub is_mode : Option Mode → Bool
is_mode none = false
is_mode (some _) = true

abbrev pub is_known : Option String → Bool
is_known none = false
is_known (some arg) = is_mode (mode_of arg)

abbrev ReachablePair : Zmq → ErrorType × BrokerPublisherImpl → Type 0
ReachablePair z (_, b) = Reachable z b

module _ {z : Zmq} where
  run_broker-NeverReturns :
      (fuel rounds : ℕ) (m : Machine z) → NeverReturns (run_broker fuel rounds m)
  unfolding run_broker
  run_broker-NeverReturns fuel rounds m =
      Lasts-after (λ _. ⊥) (Broker.create m) _
        λ b m1.
          Lasts-after (λ _. ⊥) (Broker.bind b backend_endpoint frontend_endpoint m1) _
            λ (_, b') m2. Lasts-after (λ _. ⊥) (Broker.start_loop fuel rounds b' m2) _ λ _ m3. tt

  made :
      (m : Machine z) (o : Outcome z BrokerPublisherImpl)
      → BrokerPublisher.create m ≡ o
      → Lasts (Reachable z) o
  made m (done b m') e = creates m m' e
  made m (fault _ _) e = tt
  made m (blocked _) e = tt

  bound :
      (b : BrokerPublisherImpl) (m : Machine z) (o : Outcome z (ErrorType × BrokerPublisherImpl))
      → Reachable z b
      → BrokerPublisher.bind b backend_endpoint frontend_endpoint m ≡ o
      → Lasts (ReachablePair z) o
  bound b m (done (r, b') m') h e = binds backend_endpoint frontend_endpoint r m m' h e
  bound b m (fault _ _) h e = tt
  bound b m (blocked _) h e = tt

  run_broker_publish-NeverReturns : (m : Machine z) → NeverReturns (run_broker_publish m)
  unfolding run_broker_publish
  run_broker_publish-NeverReturns m =
      Lasts-bind (Reachable z) (λ _. ⊥) (BrokerPublisher.create m) _ (made m _ refl)
        λ b h m1.
          Lasts-bind (ReachablePair z) (λ _. ⊥)
            (BrokerPublisher.bind b backend_endpoint frontend_endpoint m1) _ (bound b m1 _ h refl)
            λ (_, b') h' m2. rw ((start_loop-uninitialised m2 h').1) tt

  run_mode-NeverReturns :
      (t : Setting) (mode : Mode) (m : Machine z) → NeverReturns (run_mode t mode m)
  unfolding run_mode
  run_mode-NeverReturns t client m = (clients-NeverReturns t.dist t.started end_point m).0
  run_mode-NeverReturns t server m = (servers-NeverReturns t.dist t.started end_point_server m).0
  run_mode-NeverReturns t client_pub m =
      let (_, _, never) = clients-NeverReturns t.dist t.started end_point m in never
  run_mode-NeverReturns t server_pub m =
      (servers-NeverReturns t.dist t.started end_point_server m).1
  run_mode-NeverReturns t broker m = run_broker-NeverReturns t.fuel t.rounds m
  run_mode-NeverReturns t worker m =
      let (_, never, _) = clients-NeverReturns t.dist t.started end_point_front_end m in never
  run_mode-NeverReturns t broker_publish m = run_broker_publish-NeverReturns m
  run_mode-NeverReturns t client_pub_async m =
      (async_clients-NeverReturns t.dist t.plan t.started end_point m).0
  run_mode-NeverReturns t client_req_async m =
      (async_clients-NeverReturns t.dist t.plan t.started end_point m).1
  run_mode-NeverReturns t server_req_async m =
      req_rep_server_async-NeverReturns t.plan t.started end_point_server m

  -- How a run of `main` ends, by whether its argument is a mode.
  abbrev pub MainEnds : Bool → Outcome z ℤ → Type 0
  MainEnds known (done code _) = (code ≡ negsuc 0) × (known ≡ false)
  MainEnds known (fault _ _) = known ≡ true
  MainEnds known (blocked _) = known ≡ true

  MainEnds-and_then :
      (o : Outcome z ℤ) (k : ℤ → M z ℤ) → NeverReturns o → MainEnds true (and_then o k)
  MainEnds-and_then (done _ _) k never = absurd never
  MainEnds-and_then (fault _ _) k never = refl
  MainEnds-and_then (blocked _) k never = refl

  dispatch-MainEnds :
      (t : Setting) (mode : Option Mode) (m : Machine z)
      → MainEnds (is_mode mode) (dispatch t mode m)
  unfolding dispatch
  dispatch-MainEnds t none m = (refl, refl)
  dispatch-MainEnds t (some mode) m =
      MainEnds-and_then (run_mode t mode m) _ (run_mode-NeverReturns t mode m)

  -- `main` returns exactly where it has no argument or the argument is not one of the ten modes, and
  -- then it returns -1. In each of the modes the run ends in a fault or goes on for ever, whatever
  -- the library answers: the return of 0 is never reached.
  pub main-MainEnds :
      (t : Setting) (arg : Option String) (m : Machine z) → MainEnds (is_known arg) (main t arg m)
  unfolding main
  main-MainEnds t none m = (refl, refl)
  main-MainEnds t (some arg) m = dispatch-MainEnds t (mode_of arg) m

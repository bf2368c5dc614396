-- ===== src/Client/Restored.antt =====
-- client_api.cpp, class Client: the constructor from a session against the one from a type.
use zeromq_agent.Base.{ℕ, String, ◌≡◌, refl}
use zeromq_agent.Zmq.{Zmq, Machine, Fault, done, fault, M, and_then}
use zeromq_agent.Message.{IMessage}
use zeromq_agent.Async.{SendCallback, ReceiveCallback}
use zeromq_agent.Async.Queue.{Posts}
use zeromq_agent.Owned.{Owned, through, delete_owned}
use zeromq_agent.Client.{ClientImpl}
use zeromq_agent.Client.Public.{
  restore, destroy, connect, send, receive, async_send_result, async_send, async_receive,
  get_session, get_str_error,
}

module _ {z : Zmq} where
  -- The method, called on what the constructor makes, faults at once.
  abbrev pub Crashes : {I A : Type 0} → M z (Owned I) → (Owned I → M z A) → Machine z → Type 0
  Crashes constructor method m = and_then (constructor m) method ≡ fault Fault.bad_access m

  -- Every method of the client that the constructor makes crashes.
  abbrev pub Unusable : ((I : Type 0) → M z (Owned I)) → Machine z → Type 0
  Unusable constructor m =
      ((url : String) → Crashes (constructor ClientImpl) (λ c. connect c url) m)
      × ((message : IMessage) → Crashes (constructor ClientImpl) (λ c. send c message) m)
      × Crashes (constructor ClientImpl) receive m
      × Crashes (constructor ClientImpl) get_str_error m
      × Crashes (constructor ClientImpl) (get_session {A = Unit {0}}) m
      × Crashes (constructor ClientImpl) (async_send_result {A = Unit {0}}) m
      × ((i : ℕ) (message : IMessage) (callback : SendCallback z ClientImpl)
          → Crashes (constructor (Posts z ClientImpl)) (async_send i message callback) m)
      × ((i : ℕ) (callback : ReceiveCallback z ClientImpl)
          → Crashes (constructor (Posts z ClientImpl)) (async_receive i callback) m)

  -- A client that is made from a session has no implementation: each of its methods reads through a
  -- null pointer and changes nothing before, and only its destructor can be run.
  pub restore-Unusable :
      (m : Machine z)
      → Unusable (λ I. restore) m × (and_then (restore {I = ClientImpl} m) destroy ≡ done tt m)
  unfolding async_send_result async_send async_receive restore connect send receive get_str_error
      get_session through destroy delete_owned
  restore-Unusable m = (
    (
      λ url. refl,
      λ message. refl,
      refl,
      refl,
      refl,
      refl,
      λ i message callback. refl,
      λ i callback. refl,
    ),
    refl,
  )

-- ===== src/Brokers/Reports.antt =====
-- The error texts of the classes Client, Server, Broker and BrokerPublisher.
use zeromq_agent.Base.{ℕ, String, some}
use zeromq_agent.Zmq.{Zmq, Machine, Outcome, done, fault, blocked}
use zeromq_agent.Message.{ErrorType}
use zeromq_agent.Owned.{through}
use zeromq_agent.SetUp.Reports.{Reports, KeepsText, through-Reports}
use zeromq_agent.Client
use zeromq_agent.Client.{ClientImpl}
use zeromq_agent.Client.Connect.{Connected, connect-Connected}
use zeromq_agent.Client.Public as ClientPublic
use zeromq_agent.Server
use zeromq_agent.Server.{ServerImpl}
use zeromq_agent.Server.Bind.{bind_server-Bound}
use zeromq_agent.Server.Bind as ServerBind
use zeromq_agent.Server.Public as ServerPublic
use zeromq_agent.Broker
use zeromq_agent.Broker.{BrokerImpl}
use zeromq_agent.Broker.Bind.{bind_broker-Bound}
use zeromq_agent.Broker.Bind as BrokerBind
use zeromq_agent.Broker.Public as BrokerPublic
use zeromq_agent.BrokerPublisher.Public as PublisherPublic
use zeromq_agent.BrokerPublisher
use zeromq_agent.BrokerPublisher.{BrokerPublisherImpl}
use zeromq_agent.BrokerPublisher.Bind.{bind_publisher-Bound}
use zeromq_agent.BrokerPublisher.Bind as PublisherBind
use zeromq_agent.Client.Api.{client_api}
use zeromq_agent.Server.Api.{server_api}
use zeromq_agent.Brokers.{broker, broker_publisher}

module _ {z : Zmq} where
  client-KeepsText :
      (c : ClientImpl) (url : String) (m : Machine z) (o : Outcome z (ErrorType × ClientImpl))
      → Connected c url m o
      → KeepsText (λ impl. impl.m_str_error) c o
  client-KeepsText c url m (done _ _) (_, _, set_up) = set_up.text
  client-KeepsText c url m (fault _ _) h = h
  client-KeepsText c url m (blocked _) h = h

  server-KeepsText :
      (s : ServerImpl) (url : String) (m : Machine z) (o : Outcome z (ErrorType × ServerImpl))
      → ServerBind.Bound s url m o
      → KeepsText (λ impl. impl.m_str_error) s o
  server-KeepsText s url m (done _ _) (_, _, set_up) = set_up.text
  server-KeepsText s url m (fault _ _) h = h
  server-KeepsText s url m (blocked _) h = h

  broker-KeepsText :
      (b : BrokerImpl) (backend frontend : String) (m : Machine z)
      (o : Outcome z (ErrorType × BrokerImpl))
      → BrokerBind.Bound b backend frontend m o
      → KeepsText (λ impl. impl.m_str_error) b o
  broker-KeepsText b backend frontend m (done _ _) (_, _, _, set_up) = set_up.text
  broker-KeepsText b backend frontend m (fault _ _) h = h
  broker-KeepsText b backend frontend m (blocked _) h = h

  publisher-KeepsText :
      (b : BrokerPublisherImpl) (backend frontend : String) (m : Machine z)
      (o : Outcome z (ErrorType × BrokerPublisherImpl))
      → PublisherBind.Bound b backend frontend m o
      → KeepsText (λ impl. impl.m_str_error) b o
  publisher-KeepsText b backend frontend m (done _ _) (_, _, _, set_up) = set_up.text
  publisher-KeepsText b backend frontend m (fault _ _) h = h
  publisher-KeepsText b backend frontend m (blocked _) h = h

  -- Through the public classes, on an object that has its implementation: `Client::connect`,
  -- `Server::bind` and the `bind` of both implementations of `IBroker` end without a fault, and
  -- `get_str_error` right after them gives the text of `errno` at the end of a call that returned
  -- NOT_OK, and the text from before it after a call that returned OK.
  pub public-Reports :
      (c : ClientImpl) (s : ServerImpl) (b : BrokerImpl) (p : BrokerPublisherImpl) (fuel rounds : ℕ)
      (url backend frontend : String) (m : Machine z)
      → Reports client_api.get_str_error c.m_str_error (client_api.connect (some c) url m)
        × Reports server_api.get_str_error s.m_str_error (server_api.bind (some s) url m)
        × Reports
            ((broker fuel rounds).get_str_error)
            b.m_str_error
            ((broker fuel rounds).bind (some b) backend frontend m)
        × Reports broker_publisher.get_str_error p.m_str_error
            (broker_publisher.bind (some p) backend frontend m)
  unfolding ClientPublic.get_str_error ClientPublic.connect ServerPublic.get_str_error
      ServerPublic.bind BrokerPublic.get_str_error BrokerPublic.bind PublisherPublic.get_str_error
      PublisherPublic.bind through
  public-Reports c s b p fuel rounds url backend frontend m = (
    through-Reports (λ impl. impl.m_str_error) c (Client.connect c url m)
        (client-KeepsText c url m (Client.connect c url m) (connect-Connected c url m)),
    through-Reports (λ impl. impl.m_str_error) s (Server.bind s url m)
        (server-KeepsText s url m (Server.bind s url m) (bind_server-Bound s url m)),
    through-Reports (λ impl. impl.m_str_error) b (Broker.bind b backend frontend m)
        (broker-KeepsText b backend frontend m (Broker.bind b backend frontend m)
          (bind_broker-Bound b backend frontend m)),
    through-Reports (λ impl. impl.m_str_error) p (BrokerPublisher.bind p backend frontend m)
        (publisher-KeepsText p backend frontend m (BrokerPublisher.bind p backend frontend m)
          (bind_publisher-Bound p backend frontend m)),
  )

-- ===== src/Brokers/Tests.antt =====
-- The theorem on the error texts at an example.
use zeromq_agent.Worker.{free}
use zeromq_agent.Base.{none, some, true}
use zeromq_agent.Zmq.Sample.{fresh}
use zeromq_agent.Message.{request, reply, send_message, empty_message}
use zeromq_agent.Client.{ClientImpl}
use zeromq_agent.Server.{ServerImpl}
use zeromq_agent.Broker.{BrokerImpl}
use zeromq_agent.BrokerPublisher.{BrokerPublisherImpl}
use zeromq_agent.SetUp.Reports.{Reports}
use zeromq_agent.Client.Api.{client_api}
use zeromq_agent.Server.Api.{server_api}
use zeromq_agent.Brokers.{broker, broker_publisher}
use zeromq_agent.Brokers.Reports.{public-Reports}

abbrev client : ClientImpl
client = record {
  m_context = 50;
  m_socket = none;
  m_type = request;
  m_message = send_message empty_message;
  m_running = true;
  m_worker = free;
  m_str_error = "";
}

abbrev server : ServerImpl
server = record {
  m_ctx = 50;
  m_socket = none;
  m_message = send_message empty_message;
  m_type = reply;
  m_running = true;
  m_worker = free;
  m_str_error = "";
}

abbrev queue : BrokerImpl
queue = record { m_context = 50; m_backend = none; m_frontend = none; m_str_error = "" }

abbrev proxy : BrokerPublisherImpl
proxy = record { m_context = 50; m_frontend = none; m_backend = none; m_str_error = "" }

public-Reports_example :
    Reports client_api.get_str_error "" (client_api.connect (some client) "tcp://*:5559" fresh)
    × Reports server_api.get_str_error "" (server_api.bind (some server) "tcp://*:5559" fresh)
    × Reports
        ((broker 3 2).get_str_error)
        ""
        ((broker 3 2).bind (some queue) "tcp://*:5560" "tcp://*:5559" fresh)
    × Reports broker_publisher.get_str_error ""
        (broker_publisher.bind (some proxy) "tcp://*:5560" "tcp://*:5559" fresh)
public-Reports_example =
    public-Reports client server queue proxy 3 2 "tcp://*:5559" "tcp://*:5560" "tcp://*:5559" fresh

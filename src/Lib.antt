-- ===== src/Lib.antt =====
-- zeromq_agent: message classes, a client, a server and two brokers over libzmq.
--
-- The program is a C++ library (general_api.h, client_api.cpp, server_api.cpp, broker_api.cpp) that
-- wraps sockets of libzmq. A client connects and a server binds one socket of a type that is chosen
-- at construction; both hand `IMessage` objects to the library and get them back. The brokers stand
-- between clients and workers, or between publishers and subscribers. A test program
-- (zeromq_agent.cpp) runs one of ten modes, each a client, a server or a broker; wuclient.c and
-- wuserver.c are two small programs in C next to it.
--
-- Which file models what:
--   Base            library names, Boolean tests, lists; Base.Int is C's `int` with its conversions
--   Memory          blocks of bytes at addresses: `new char[]`, `delete[]`, `memset`, `memcpy`, reads
--   Zmq             libzmq as a record `Zmq` of functions over an unknown state, and the machine that
--                   the C++ code runs on: that state, the memory and the record of the calls made.
--                   Zmq.Calls has a method for each call, Zmq.Laws what the manual of libzmq says of
--                   the buffers and the parts of messages, Zmq.Sample a library for examples
--   Message         general_api.h: `SendMessage` with its constructors, destructor, `swap` and
--                   `operator=`, the virtual methods of `IMessage`, `Status`, `ErrorType`,
--                   `SocketType`
--   SetUp           what `connect` and every `bind` promise
--   Client          client_api.cpp, `ClientImpl`: constructor, worker, destructor, `connect`,
--                   `send_worker`, `receive`
--   Server          server_api.cpp, `ServerImpl`: constructor, worker, destructor, `bind`,
--                   `publish_worker`, `receive`
--   Broker          broker_api.cpp, `BrokerImpl`: constructor, destructor, `bind`, `start_loop`
--   BrokerPublisher broker_api.cpp, `BrokerPublisherImpl`, in the same way
--   Brokers         broker_api.h: the abstract class `IBroker` with its two implementations
--   Owned           the pointer `m_impl` of the public classes `Client`, `Server`, `Broker` and
--                   `BrokerPublisher`, which are in the child modules Public; what client_api.h and
--                   server_api.h declare is a record in Client.Api and in Server.Api
--   Async           the handlers that the asynchronous methods of `ClientImpl` and `ServerImpl` post
--                   (Client.Async and Server.Async), and the strand as a queue of handlers
--                   (Async.Queue, with the methods that post in Client.Queue and Server.Queue)
--   Worker          the member `m_worker` of `ClientImpl` and `ServerImpl`, for `m_worker.join ()`
--   Threads         client_api.cpp and server_api.cpp: the worker thread next to the thread that owns
--                   the object, as a step relation, for the races of the constructor, the worker and
--                   the destructor on `m_running`
--   Agent           zeromq_agent.cpp: the blocking clients and servers of the test program; their
--                   asynchronous counterparts in Agent.Callbacks and Agent.Posting, and on the queue
--                   in Agent.Posting.Queue; `main` in Agent.Main
--   Exchange        zeromq_agent.cpp: the texts that the clients and servers of the test program send,
--                   round by round (Exchange.Requests, AsyncRequests, AsyncRounds, Publications,
--                   Answers, Replies, AsyncReplies), as whole functions (Exchange.Runs, Whole,
--                   WholeServer, Functions) and in a run of `main` (Exchange.Modes)
--   Weather         wuclient.c, wuserver.c and consts.h: the statistics and `generateString`, and the
--                   two mains in Weather.Subscriber and Weather.Publisher, which Weather.Broadcast puts
--                   together
--
-- A method takes the object's fields as a record and returns the new record. It runs in the monad
-- `M z` and ends as `done`, as a `fault` (undefined behaviour, or an exception that nothing catches,
-- with the machine at that moment) or as `blocked`. A variable that was never given a value is
-- `none`, and reading it is a fault. The record of calls holds the latest call first, each with its
-- arguments and its result.
--
-- Fuel: the inner loops of `BrokerImpl::start_loop` take a bound on their rounds, which is enough if
-- it exceeds the number of parts of a message (`EndsMessages` in Zmq.Laws, Broker.Fuel); the outer
-- loops of the broker and of wuserver.c never end, and their first rounds are run; in the mains the
-- run is `blocked` after them.
--
-- Not modelled: console output (but the reads of memory that it makes are), pauses, the empty methods
-- `serialize` and `deserialize`, and a handler that runs in the middle of a blocking method.
-- zhelpers.h and reactor_loop.h are copies of other projects' code, of which `s_send` and the times
-- that `s_clock` gives are parameters.
--
-- A handler that is posted is a function of the callbacks and messages that have not ended when it
-- runs (`Scope`), and a reference that it holds is `none` if its object has ended by then; how many
-- handlers the worker runs at each point of a function is an argument (`Schedule`). Calls that block
-- are modelled by their result; in the blocking methods the worker thread is the moment at which it
-- sets `m_running`, and Threads relates this to the interleavings of the two threads. A handler that
-- never returns is a value of `m_worker` (Worker) for the destructor; the functions of the test
-- program are run without one. The random
-- numbers of the test program are an argument.
pub mod Base
pub mod Memory
pub mod Zmq
pub mod Message
pub mod SetUp
pub mod Client
pub mod Server
pub mod Broker
pub mod BrokerPublisher
pub mod Owned
pub mod Worker
pub mod Brokers
pub mod Async
pub mod Threads
pub mod Agent
pub mod Exchange
pub mod Weather

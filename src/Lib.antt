-- ===== src/Lib.antt =====
-- Verification of the counter-drone streaming parser (C++20): a TCP server that cuts telemetry
-- packets out of byte streams. Paths are from the repository's root.
--
-- The program. A listener thread (src/listener.cpp) tags the bytes of each socket and queues them;
-- a parser thread (src/streamingParser.cpp) keeps a ring buffer (src/ringBuffer.cpp) and a state
-- machine for each socket, checks packets and queues their telemetry; a logic thread
-- (src/businessLogic.cpp) tracks drones and raises alerts; a logger thread (src/asyncLogger.cpp)
-- writes the log queue out. The queues between them are include/threadSafeQueue.h.
--
-- The files.
-- Base: shared names, list laws, tests, machine arithmetic. Message: log lines and exceptions.
-- Ring: `RingBuffer`. Its record has the class's members; `push`, `peek` and `consume` return the
--   new object or what is thrown. Ring/Valid has the invariant, Ring/Window and Ring/Parts the
--   circular copies, Ring/Refine each operation against the list of unread bytes, Ring/Queue the
--   queue that the class implements, Ring/Bounds the ranges of the copies of `push` and `peek`.
-- Telemetry: include/telemetry.h. Bytes: `from_big_endian` on either kind of machine.
-- Crc: `compute_crc16`; Crc/Xor has the laws of exclusive or, Crc/Detect what the sum detects.
-- Payload: `deserialize_payload`; Payload/Decode has the payload's layout.
-- Client: `ClientState` and `process_client`. `turn` is one round of its `while (true)`. Client/Frame
--   is the protocol as a function of the unread bytes alone; Client/Step, Client/Loop and
--   Client/Stream relate the two.
-- Table: `std::unordered_map` as an association list. Parser: `run`, chunk by chunk; Parser/Spec
--   is its specification, Parser/Ready the table against it, Parser/Overflow, Parser/Refine,
--   Parser/Streams, Parser/Room and Parser/Grow relate the two; Parser/Records has the records among
--   what it tells, Parser/Visits a client that goes.
-- Queue: `ThreadSafeQueue`, an interleaving of threads being a sequence of operations; Queue/Fifo.
-- Logger: `AsyncLogger`; Logger/Lossless follows the lines, Logger/Open has the constructors.
-- Logic: `BusinessLogic`; Logic/Alerts has the alerts, Logic/Tracking the table and the
--   counters, Logic/Count the number of drones, Logic/Lines what is logged.
--   Logic/Windows tells a whole run's lines from its packets; Logic/Round and Logic/Reports relate
--   them to the run.
-- Socket: `SocketHandle`; Socket/Ownership follows the descriptors.
-- Listener: the event loop of `NetworkListener`, over what the system calls return.
--   Listener/Owned follows the sockets, Listener/Chunks and Listener/Heard what is
--   queued for the parser, Listener/Sessions what is queued of one socket.
--   Listener/Setup is the set-up of the server socket, epoll and the eventfd, with its handles
--   in Listener/Setup/Kept and its errors in Listener/Setup/Faults. Listener/Run is the listener
--   from its constructor to its destructor, Listener/Wake the shutdown by the eventfd,
--   Listener/Reuse a descriptor that is given out again.
-- Main: the arguments of main.cpp. Main/Program is the program from there to its threads, and its
--   end.
-- System: the threads of main.cpp as one step relation over the three queues, and `main`, which
--   stops and joins them; a step is what a thread does between two looks at what it shares.
--   System/State is what they share. System/Worker is the form that the two `run` of
--   src/streamingParser.cpp and src/businessLogic.cpp share, System/Stages the two as such
--   workers. System/Links, System/Inv and System/Order are invariants, System/Shutdown,
--   System/Delivery, System/Fleet and System/Feed are about the state in which `main` has returned,
--   System/Console and System/Goodbye about the standard output, System/Progress, System/Work and
--   System/Ends about the way to the end, with System/Measure as the order of their tuples.
-- Wire: the packets that tests/drone_load_test.py builds. Wire/RoundTrip and Wire/Framing are about
--   one packet, Wire/Damage about a damaged one, Wire/Recovery and Wire/Resync about a stream of
--   them, Wire/EndToEnd about what the parser makes of a stream, Wire/Sockets about what comes of
--   one that a socket brings among others.
-- Tests: runs on small inputs.
--
-- Conventions. A byte is a number below 256, a double its 64-bit IEEE 754 pattern, a `std::size_t`
-- or `uint64_t` sum is taken modulo 2 ^ 64. A log line is the sequence of values that the code
-- streams, with the source's own text.
--
-- Fuel. `process_client` is given three rounds for each unread byte and three more: a byte is looked
-- at in each of the three states at most before one is consumed. Client/Loop shows that this is
-- enough. The logger's primary loop goes over a list of rounds, and gives nothing if it has not ended
-- behind the last; Logger/Lossless says when it has. The logger's drain is given a round for each
-- message that waits and one more; Logger/Lossless shows that this is enough. No other function
-- takes fuel.
--
-- Not modelled: the traffic generator of tests/drone_load_test.py, which only makes input, the
-- standard library's and the operating system's own code, allocation failure, and the formatting of
-- numbers in log lines. A call of epoll_wait may report any number of events, where the code asks for
-- at most 64. In System the listener sends any chunks, logs any lines and
-- may end at any time; Listener has its event loop, and Listener/Wake how it is stopped.
pub mod Base
pub mod Message
pub mod Ring
pub mod Telemetry
pub mod Bytes
pub mod Crc
pub mod Payload
pub mod Table
pub mod Client
pub mod Parser
pub mod Queue
pub mod Logger
pub mod Logic
pub mod Socket
pub mod Listener
pub mod Main
pub mod System
pub mod Wire
pub mod Tests

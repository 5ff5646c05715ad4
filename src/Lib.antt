-- ===== src/Lib.antt =====
-- MiniRAN ProtoLab: a user equipment (UE) attaches to a core network through an access node, sends
-- traffic and detaches, over a simulated link.
--
-- The parts. The UE keeps a session (Session), builds messages (Message), encodes them into frames
-- (Codec, over ByteBuffer) and queues them as datagrams. A network delays, drops and reorders
-- datagrams (Network). The access node decodes a frame, hands the message to the core (Core) by its
-- type and queues the core's reply for the UE. A scenario (Simulation) runs both nodes against one
-- network, step by step, with generated traffic (Traffic). A function takes the object's state and
-- returns the state after the call, with the result of the call where it has one; it has the C++
-- name in snake case.
--
-- Files and code:
--   ByteBuffer         include/miniran/common/byte_buffer.h, src/common/byte_buffer.cpp
--   Protocol/Message   include/miniran/protocol/protocol_message.h, and toString and makeMessage of
--                      src/protocol/frame_codec.cpp
--   Protocol/Codec     FrameCodec of src/protocol/frame_codec.cpp
--   Protocol/Session   include/miniran/protocol/session_manager.h, src/protocol/session_manager.cpp
--   Core               include/miniran/core/core_network.h, src/core/core_network.cpp
--   Metrics            include/miniran/common/metrics.h
--   Transport/Datagram, Transport/Link
--                      include/miniran/transport/{datagram,transport_mode,link_profile}.h
--   Transport/Network  include/miniran/transport/virtual_network.h,
--                      src/transport/virtual_network.cpp
--   Nodes/Ue           include/miniran/nodes/ue.h, src/nodes/ue.cpp
--   Nodes/AccessNode   include/miniran/nodes/access_node.h, src/nodes/access_node.cpp
--   Traffic/Profile, Traffic/Generator
--                      include/miniran/traffic, src/traffic/traffic_generator.cpp
--   Simulation/Scenario
--                      include/miniran/simulation/{scenario_config,simulation_result}.h
--   Simulation/Runner  src/simulation/scenario_runner.cpp
--   Simulation/Config  src/simulation/scenario_config.cpp; Text has its `trim` and what it calls of
--                      the standard library on texts
--   Simulation/Summary src/simulation/simulation_result.cpp
--   Main               src/main.cpp
-- The modules below these state and prove what holds of them; Nodes/Handshake, Nodes/Traffic,
-- Nodes/Heartbeat and Nodes/Stale follow a message from one node through its frame to the other.
-- Core/Registry is what the core promises, without a table, and Core/Refinement relates the two.
-- Simulation/Runner/Reachable has the worlds that a scenario passes through;
-- Simulation/Runner/Accounting follows an amount of data through all queues of a world to the core,
-- over Transport/Network/Carried, Nodes/Carried and Nodes/Delivered. A module Examples has runs on
-- concrete values. Common has the shared lists, tests, loops and machine words.
--
-- Choices. Machine integers are natural numbers with their wrap written out; `std::size_t` has 64
-- bits. A byte vector is a list. An out-parameter with a `bool` result is an `Option`; the error
-- texts of `decode` are the constructors of `DecodeError`. `std::unordered_map` is a list of
-- entries with one for each key; the program's loops over it count and erase, so their order does
-- not show. A `std::string` is a String with one character for each byte, in the "C" locale, and
-- `unsigned long` has 64 bits. The error texts of `fromFile` are the constructors of `ConfigError`,
-- which `error_text` of Main writes out. `std::sort` is an insertion sort by the same order.
-- `double` (Double), its texts (DoubleText) and `std::mt19937` with its distributions (Random in
-- Transport/Network) are parameters, and nothing is assumed of them but what a theorem names: where
-- it takes IsExact, whole numbers up to 2 ^ 53 are exact, as in every `double` of 64 bits. The
-- contents of the files are an argument of `from_file` and `main`, and the exit status and the
-- output texts of `main` are its result. The sum of latency and jitter in `submit` is an `int` of
-- the program; it is taken exactly, and where it would overflow the program has no meaning. Loops
-- over lists and counted loops are recursions on the list or the count. The `while` loops of the
-- generator and of the runner run on fuel and give `none` when it is used up: a phase of a scenario
-- takes at most as many rounds as its time has milliseconds, and a burst pattern as many as
-- intervals begin in its duration.
--
-- Not modelled: the opening of files and the output streams themselves, and the random engine of
-- the traffic generator, which nothing draws from.
pub mod Common
pub mod ByteBuffer
pub mod Protocol
pub mod Core
pub mod Double
pub mod Metrics
pub mod Transport
pub mod Traffic
pub mod Nodes
pub mod Text
pub mod Simulation
pub mod Main

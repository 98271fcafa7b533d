-- ===== src/Lib.antt =====
-- Brawololo is a multiplayer arena game in C++. A server runs a deterministic simulation and sends each
-- client snapshots and events; the clients send their inputs. This library models the simulation, the
-- server's host around it, and the part between the two sides: the messages and their bytes, the
-- decisions of which state to send, and the transports.
--
-- The parts and their files, with the paths of the repository:
--
-- Prelude: what all modules share: tests on numbers, lists with native lengths, integers, maps and sets as
-- lists, and a stable sort.
--
-- Wire: how numbers, sequences and choices lie in memory, apart from any message. A reader is the unread
-- suffix of its bytes with the error so far; `offset_` of the source is the length of what is read. A
-- writer only appends, so a function that writes is the list of bytes it adds. `IsCodec` says that a
-- reader accepts exactly what its writer writes, and is closed under sequence, choice and repetition.
--
-- Game: GameLogic/.
--   Types, Commands, Events, Replication, Weapons: the headers of those names.
--   BinaryIo: BinaryReader and BinaryWriter of GameLogic/include/GameLogic/Serialization.hpp.
--   Serialization: GameLogic/src/Serialization.cpp. SerializeX and DeserializeX are serialize_x and
--   deserialize_x; ReadX and WriteX are read_x and write_x.
--   NetworkEvents, NetworkProtocol: the event variants, and envelopes with their channels.
--   TimeSync: GameLogic/src/TimeSync.cpp, the messages of its header and the NetworkClock.
--   FixedPoint, Map, Components: the headers FixedPoint.hpp, Math.hpp, Map.hpp and Components.hpp, and
--   GameLogic/src/Map.cpp. Map/Area is about the chunks around a chunk.
--   Simulation: GameLogic/src/Simulation.cpp, SimulationMovement.cpp and SimulationCombat.cpp. What they do
--   to the components of one entity stands in Movement, Combat and Replicas, and the loops over entities
--   in Ticks (TickFixed and ReplayLocalInputsForPrediction) and Snapshots (BuildSnapshot and
--   ApplySnapshot). Submit is submit_login and submit_input. Registry is the interface to the EnTT
--   library with the laws that the proofs use, and Registry/Memory a registry that obeys them. Fitness,
--   Inputs and Players are about what the calls keep, Snapshots/Observed and Shown about the entities of
--   a snapshot, Snapshots/Replaced, Left and Applied about what ApplySnapshot leaves, and
--   Snapshots/Delivered about a snapshot on its way from the one to the other.
--   SnapshotBaselineCache, ReplicationPlanner, SnapshotDelta, InterestManagement, LagCompensation: the
--   sources of those names. A method returns the new state of its object with its result.
--
-- Net: Networking/.
--   Transport: Networking/include/Networking/ITransport.hpp.
--   TransportPacketCodec, RtcSignaling: the frames of the data channel and the signaling messages.
--   KcpRtcTransport: the client's and the server's state machine over both. Send encodes an envelope of
--   Game.NetworkProtocol into a frame, which the peer's ReceiveFrame decodes and Poll hands out.
--   LoopbackTransport: the in-process pair with its drop and delay conditions, which the tests use.
--   MultiClientLoopbackTransport: a server and its clients over one hub of queues.
--
-- Server: Server/.
--   ServerClientReplicationState: Server/include/Server/ServerClientReplicationState.hpp, the acknowledged
--   snapshot and the reliable events that wait for an acknowledgement, as a function of the calls.
--   ServerRuntime: Server/src/ServerRuntime.cpp, the simulation with its history and snapshot ids.
--   ServerNetworkHost: Server/src/ServerNetworkHost.cpp. The record of the host stands in the file itself;
--   Receiving is PumpClientMessages with its handlers, Sending the reliable events, and Ticking
--   SendSnapshot and TickAndSendSnapshots. The host is over any `Transport`, the interface ITransport as
--   the host uses it. Steady is about what the calls keep, and Draining about the loop of the pump, which
--   is recursion on a number of rounds: more than the envelopes that wait are enough. Interface of
--   Net/KcpRtcTransport makes that transport one of the host's.
--
-- How the code is read. Bytes are numbers, and a list of bytes is a hypothesis `AreBytes`. The
-- memory image of a number is little-endian, as on the hosts that the program is built for. Machine
-- integers are numbers; where the code lets one wrap, the wrap is written out: the sequence
-- numbers, ordinals, send counts and the ids of entities, events and snapshots of type uint32_t, the
-- sums of uint64_t times in a lag compensation query, a resend, a clock and a tick, and the casts to
-- the int32_t `Fixed`. A sum or product of int32_t or int64_t that overflows is undefined in the
-- source and an integer here. A size_t counter has no bound: no run of the program fills 64 bits.
-- Strings are lists of bytes, a queue's front is the head of its list, an unordered_map is an
-- association list and an unordered_set a list, and no theorem is about their order.
-- std::stable_sort is an insertion sort. A loop that erases or releases from the front is recursion on the list; the loop
-- of FlushDelayed is recursion on the number of delayed envelopes, which is shown to be enough.
--
-- The EnTT registry of the simulation is third-party code: it is a parameter (`Entt`), and what the
-- program relies on are its laws (`IsLawful`): a created entity is new and has no components, a call
-- touches no other entity, and a view lists the valid entities with the components that it asks for,
-- in no stated order. The components that an entity has are one record of options. The loops over a
-- view go over the entities that it has at the start of the loop, since no loop adds or removes the
-- components that its own view asks for.
--
-- Not modelled: the application and the driver of Server/, Client/, and in Networking/ the pumps and
-- the stand-ins for the data channel and the signaling connection. The drawing code over Raylib and
-- the entry points are input and output.
pub mod Prelude
pub mod Wire
pub mod Game
pub mod Net
pub mod Server

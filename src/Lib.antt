-- ===== src/Lib.antt =====
-- A model of the game server of a multiplayer game of tag, in which runners pass the part of the tagger on by a
-- skill called "switch", and of the wire formats that the server shares with its clients.
--
-- The server (server-game/src) takes a connection in (gateway), lets its user in on a ticket that reserves a seat,
-- limits what each connection, address and user may send, seats the user in a room (rooms), and steps the rooms that
-- play sixty times a second (simulation). A tick takes the inputs and requests that the gateway has let through, and
-- gives an authoritative frame. What the clients send and what all servers agree on is in shared/src.
--
-- The files, by the code they model; each function is named as in the source, in snake_case:
--   Types: identifiers of actors, room phases and roles of shared/src/control/commands.ts and
--   shared/src/protocol/events.ts.
--   Protocol.Input, Protocol.Progression, Protocol.Skills: input.ts, progression.ts and skills.ts of
--   shared/src/protocol. A buffer is a list of bytes.
--   Gateway.Connections, Gateway.Tickets, Gateway.RateLimit, Gateway.Violations: connection-manager.ts, ticket-store.ts,
--   rate-limit.ts and rate-limit-violations.ts of server-game/src/gateway. A class is a record; a method is a function from the record to the record and a result.
--   Rooms.StateMachine, Rooms.Roster, Rooms.StartLock: room-state.ts and the two classes of lobby-state.ts of
--   server-game/src/rooms. A thrown error is a result, with the state that it leaves.
--   Rooms.Room.State, Broadcast, Closing, Advance, Joining, Lobby, Game, HandOff: room.ts of server-game/src/rooms, which
--   joins the three. What a room does to the outside, its messages included, is a list of effects in its state; a call
--   back from the simulation is a later operation. An operation reads the clock once, and a room that an exception would
--   leave half changed is marked.
--   Rooms.Transfer: the move of a waiting room between two servers, handOffWaitingRooms of server-game/src/rooms/hand-off.ts
--   and #adoptRoom of server-game/src/redis/command-consumer.ts, as steps that interleave between the awaits. A call of
--   Redis may fail before or after it takes effect; keys do not expire, and the polling, which changes nothing, is left
--   out.
--   Simulation.World, Effects, Terrain, Motion, Skills, Step, Scheduler: world.ts, effects.ts, storm.ts with
--   static-collision.ts, movement.ts with player-collision.ts, skills.ts, step.ts and scheduler.ts of
--   server-game/src/simulation; Simulation.Config has the balance numbers that they read.
--   Visibility.Core, Visibility.Snapshot: core.ts of shared/src/visibility and snapshot-view.ts of server-game/src/game,
--   the view of a frame that a player gets, by the access that a room grants.
--   Accounts.VerificationCode: verification-code.ts of server-match/src/auth, the codes that are sent by mail. A guess
--   is taken apart into its Redis calls, and those of other guesses may come between them.
--   Supervisor.Policy, Edge.IpRateLimit: server-supervisor/src/policy.ts and server-gateway/src/ip-rate-limit.ts.
--   Base: lists, maps in the order of insertion, integers and Boolean tests, which the others share.
-- The remaining files have the lemmas on the files they stand below: Simulation.Roles on who is alive and who is the
-- tagger, an abstract view of a world that a skill changes only by a switch; Simulation.Costs on cooldowns;
-- Simulation.Geometry on positions. Tests has runs and instances of the results.
--
-- A map is a list of pairs with at most one entry for a key; the clocks, the hash and the random tickets are
-- arguments. Doubles are a record of operations, `Floats`, of which nothing is known but what a result names: so the
-- results hold for every rounding. A player whom the source changes through a reference is changed as the first player
-- with its id, or as the first living tagger, which is the same object as long as the ids are distinct; that they stay
-- distinct is a result. `Simulation.World` leaves out the markers and zones of a map, which no tick reads, and the
-- method `nextRandomInt` is a function on the state of the generator.
--
-- Fuel: the levels of `level_from_xp` take the experience itself as fuel, since each level costs at least 100. The search
-- for the landing of a flash has 1000 rounds: it travels 896 pixels at most, by one at least in each round. The rounds of
-- collisions and the steps that the scheduler catches up are bounded in the source, by 4 and by 5.
--
-- Not modelled: sockets, Redis, MySQL, HTTP and files, the client's screens, the map builder and deployment. The binary
-- form of a snapshot, replays, the session that joins a room and its simulation, and the rest of the match server are not modelled
-- either.
pub mod Base
pub mod Types
pub mod Visibility
pub mod Protocol
pub mod Rooms
pub mod Gateway
pub mod Simulation
pub mod Supervisor
pub mod Edge
pub mod Accounts

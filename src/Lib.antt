-- ===== src/Lib.antt =====
-- The world server's sessions and characters, and the account service.
--
-- The program is a game server in C++. Its world service (src/services/world) authenticates
-- sessions, makes each the only one of its account and its char, moves it into the world through an
-- enter flow, and keeps it bound, under a grace period, when its socket closes.
--
-- Prelude: tests on native numbers, maps as functions, lists, fixed-width words and integers.
--
-- Session: src/services/world/runtime/world_runtime_session.cpp and the types of i_world_runtime.h,
-- world_runtime_types.h and world_session_types.h beside it.
--   Key            src/server_common/session/session_key.h: a sid and a serial packed in 64 bits.
--   Types          the enums and the results.
--   Tables         the maps that `world_session_mtx_` guards, the erasure of a session and the
--                  lookups. Consistent: the reverse indexes agree with the sessions.
--   Bind           BindAuthenticatedWorldSessionForLogin, its critical section.
--   Unbind         UnbindAuthenticatedWorldSessionBySid.
--   Stage          TryBeginEnterWorldSession, CancelPendingEnterWorldSession,
--                  PromoteEnterWorldSessionToInWorld, MarkEnterWorldSessionClosing.
--   Close          the reservations and timers of delayed closes.
--   Pending        the pending requests of the enter flow, AbortEnterWorldFlowBySession_.
--   Lifecycle      HandleWorldSessionClosed, ProcessWorldSessionClosedOnIo_ and the grace timer.
--   Reconnect      GetOrCreateReconnectTokenForSession; TryReconnectWorldSession, with the
--                  player's actor.
--   History        every sequence of the critical sections of these on the session tables (bind,
--                  unbind, the enter stages, the close reasons, the abort, the two sections of a
--                  closed socket, the tokens, the reconnect), from the empty tables.
--   Kick           the close of the sessions that a bind replaces.
-- Each operation takes the state and returns the new one with its result. An operation of the source
-- is one critical section, or a sequence of them where the source takes the lock again; a job that
-- the source dispatches to a strand is a function of its own. The timers, the clock, the socket and
-- the random tokens stand outside: what they report or return is an argument.
--
-- Character: a character's state (src/services/world/common/character_core_state.h and the structures
-- it holds) and Combat, its stats from level, job, tribe and equipment
-- (character_combat_stat_calculator.cpp, item_stat_provider.cpp; Worn is about the items). The level table and the item
-- templates that the program loads are arguments.
--
-- Player: src/services/world/actors/player_actor.h, the actor of one player. Moves: its position and
-- its session. Loot: items and loot transactions. Persist: the bytes it is stored as
-- (src/services/world/common/demo_char_state.h). Calls: any sequence of its methods; the
-- references that MutableCoreState and its like hand out are not among them.
--
-- Account: src/services/account/runtime/account_line_runtime.cpp, the service between the login
-- servers and the worlds.
--   Types          the routes, tickets and sessions, the timeouts of src/shared/constants.h.
--   Registry       the world routes: hello, ready, heartbeat, disconnect and the look-ups.
--   Select         BuildWorldSummaryList_, TryResolveSelectedWorldRoute_ and
--                  TrySelectWorldRouteEndpoint_.
--   Tickets        ConsumeIssuedWorldTicket_, TryMatchConsumedWorldEnterSuccessNotify_, the expiry and
--                  the erasure of a world's tickets. Paths: sequences of these, as a relation.
--   Login, Characters, Auth    the requests of the login line, with the messages they are
--                  answered by.
--   Runtime        the state as a whole, the handlers of the world line.
--   Events         one constructor for each call that the service receives, and their handling.
--   Jobs           src/services/account/db/account_auth_job.h, the results of a query.
--   Slots          the pool of job slots and the choice of a shard; Workers, the loop of a worker
--                  thread (src/db/shard/db_shard_manager.h) in single events, which those of other
--                  threads come between.
-- A handler is the sequence of its critical sections, with no other handler between them. The order
-- in which an unordered map visits its keys is an argument; so are the clock, the random tokens, the
-- answers of the queries and the results of those sends that the code tests.
--
-- Zone: src/services/world/actors/zone_actor.h, the actor of one zone. Sends: EnqueueSend_ and
-- FlushPendingSends_. Cells: SectorContainer's conversion of positions, JoinOrUpdate, Leave and
-- MoveFastUpdate. Stands and Placed: the sets of the cells against the players. Squares: the cells
-- against the positions. Coordinates are integers without bounds; the source's are of 32 bits, and
-- ToCell overflows where `-v + unit - 1` does not fit in them.
--
-- Numbers are naturals; a 64-bit counter wraps. A map whose order of iteration does not matter is a
-- function into Option; the walk over the pending finalizes, whose body changes other tables, is a
-- walk over a list. No definition needs fuel: every loop is over a list or a map.
--
-- Not modelled: logging and metrics, sockets and message encoding, the database and the cache, the
-- other services (login, channel, zone, control), the zone routing and the later half of the enter
-- flow; start-up, shutdown and configuration files.
pub mod Prelude
pub mod Session
pub mod Character
pub mod Player
pub mod Account
pub mod Zone

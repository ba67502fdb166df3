-- ===== src/Lib.antt =====
-- The queue service of SpotQ: guests register at a restaurant's queue, and the staff seat, skip,
-- cancel or ring them. The handlers of src/application/use-cases read and write the database through
-- the queue repository, keep a live copy in Redis, tell the clients over WebSocket and call the
-- restaurant service.
--
-- Base        names and helpers that all files share.
-- Errors      src/domain/errors, src/domain/enums and src/infrastructure/errors.
-- Entity      src/domain/entities/queue-entry.entity.ts, each mutating method as a function from record
--             to record or error. Entity.Number has generateQueueNumber, Entity.Lifecycle the calls as
--             steps.
-- World       the tables, the commands to Redis, the events, the jobs and the calls to the restaurant service, as
--             lists; `Env` holds the answers of what stands outside, by the number of the call, and
--             `Client` the operations of the database client.
-- Exec        handlers as actions on the world: a result or an error, and the world in either case.
--             Exec.Rules has pre- and postconditions on the tables.
-- Repository  src/infrastructure/database/repositories. Calls has the base repository, Queries and
--             Writes the queue repository, Pages and Dashboard the rest; a transaction that throws is rolled back. Laws states what is
--             relied on of the client (`Lawful`): rows are found by their id, a search is a filter,
--             an update replaces the rows with an id and a rollback restores the tables; pages are
--             relied on to be parts of one result only where no rows are tied in the order.
-- Services    src/infrastructure/redis/redis-queue-cache.service.ts, the broadcaster of
--             src/infrastructure/websocket/socket-broadcaster.ts and the ports of the other services.
--             Cached states what is relied on of Redis (`IsDependable`).
-- Recalculator  src/infrastructure/services/queue-position-recalculator.service.ts.
-- Http        src/shared/utils/domain-error-mapper.ts and the error middleware of
--             src/presentation/http.
-- Socket      src/shared/constants/websocket.constants.ts and src/presentation/websocket: Auth has the
--             authentication, Handlers the connection and the events of a client, Audience the rooms
--             that an event is sent to.
-- Requests    src/shared/response and src/presentation/http: Gate has the authentication, Bodies the
--             schemas, Staff and Guests the routes with their controllers around the handlers;
--             Staff.Service has runs of the requests of the staff.
-- RestaurantClient  src/infrastructure/external/restaurant-service.client.ts, over what a request and the
--             circuit breaker come to.
-- EtaClient   src/infrastructure/external/ml-eta-service.client.ts, over the outcomes of its circuit
--             breaker.
-- Push        src/infrastructure/firebase: the retries of a push notification, as a loop on fuel.
-- UseCases    Register, Seat, Assign, Skip, Cancel and Ring, each with the handler's `execute`, and
--             QueueEta and StaffQueue with four that only read. UseCases.Machine has an abstract queue of
--             tickets with statuses, and runs of the six handlers against it.
-- Examples    a client in memory that is `Lawful`, the theorems at concrete inputs, and a run.
--
-- Recursion is structural, but for two loops on fuel: printing a number is given one more than the
-- number, and the loop of attempts one more than the retries. Numbers are unbounded, and a date is a
-- number of milliseconds. A handler runs without others in between: transactions of other requests are
-- not interleaved. Not modelled: the internal routes, health and metrics, the start of the servers, and
-- the glue to libraries.
pub mod Base
pub mod Errors
pub mod Entity
pub mod World
pub mod Exec
pub mod Repository
pub mod Services
pub mod Recalculator
pub mod Http
pub mod Socket
pub mod RestaurantClient
pub mod Requests
pub mod EtaClient
pub mod Push
pub mod UseCases
pub mod Examples

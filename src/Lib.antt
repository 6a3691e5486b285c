-- ===== src/Lib.antt =====
-- DrivePower: the services behind a network of charging stations. A station speaks OCPP 1.6 over a
-- websocket with the OCPP server, which tells the sessions, billing and telemetry services over HTTP
-- what happens; each of these keeps its own Postgres tables. Users have accounts with the auth
-- service, and see their sessions and transactions through the API gateway. csms is a small server
-- of its own that answers a charge point.
--
-- - Prelude: numbers, tests, equality as an instance argument, maps as association lists.
-- - Go: what the code takes from Go and its libraries. float64, the texts of times and of errors are
--   the parameter `Platform`; `FloatLaws` are the laws of IEEE 754 that are used. JSON values,
--   requests and answers are data; a text that is no JSON is `none`. Go/Sample runs the definitions.
--   Go/Texts and Go/Digests are what is used of strings, crypto/sha1 and encoding/base64.
-- - Sql: ORDER BY ... DESC LIMIT, and what it promises.
-- - Sessions: backend/services/sessions-service. Model, Repo, Cache, Service and Handlers follow the
--   packages models, repository, redis, service and http; Steps are its calls in the order of their
--   arrival, with the expiry of cache entries. Table to CacheView hold the proofs.
-- - Billing: backend/services/billing-service, in the same way.
-- - Telemetry: backend/services/telemetry-service, in the same way.
-- - Ocpp: backend/services/ocpp-server. Frames, Messages and Processor are internal/ocpp; Stations
--   and Transactions are internal/service; Clients, Handlers, Repo and Model are the packages of
--   these names; Connections is internal/ws, Pumps one of its connections with the processor,
--   and Orders what then reaches the station: the channel of a connection holds 16 frames. Linked
--   and Completed put the sessions service behind the network of the OCPP server, and Wire compares
--   its requests with what the other services read.
-- - Auth: backend/services/auth-service. Users is the package repository, Tokens is token_service.go
--   and password. `Bcrypt` and `Jwt` (Go/Jwts) are the libraries, with the laws that are used.
-- - Gateway: backend/services/api-gateway. Histories puts the sessions and the billing service behind
--   its network, and the accounts of the auth service before it; Accepted and Guards are who gets
--   through.
-- - Config: backend/libs/config. Model and Loader are LoadConfig over the fields that reflection
--   shows, with files and YAML as parameters; Keys and Leaves compare it with a list of keys. Values
--   is what the packages config of the services share; these are Auth/Config, Gateway/Config and
--   so on.
-- - Csms: csms. Bytes, Conn, Reading and Upgrades are internal/ws/simple.go. ClientFrames, Delivery
--   and Panics are what a client may send, Frames and Writing what it gets, Offers and Negotiation
--   what an upgrade rests on; Calls and Replies are main.go.
--
-- A handler is a function from a request and the state of its service to an answer and a state. A
-- statement of the database, a command of the cache and a request over the network can fail: the
-- record `Env` of a service, or the function `send` of the network, says which do. A method that
-- holds a mutex from start to end is one step. int64 values are integers with the wrap-around of
-- `sub64` where the code subtracts; a number of JSON that is no int64 is refused where one is
-- decoded. The several calls of time.Now in one handler give one instant. Loops are structural, so
-- that no fuel is needed, but for two. The decimal form of a number (Go/Strconv) has one round for
-- each digit and gets more. ReadMessage of csms has a round for each byte that waits, and one; every
-- round takes two bytes or more, or is the last, and Csms/Reading proves that this is enough.
--
-- Texts are code points. strings.ToLower and ToUpper leave letters outside ASCII as they are. The
-- bytes of a websocket are numbers below 256; a flush gives all of its bytes to the network or fails.
--
-- Not modelled: start-up, log lines and the recovery from panics; the insides of bcrypt, of YAML
-- and of the signing of tokens; the bytes, deadlines and pings of gorilla/websocket.
pub mod Prelude
pub mod Sql
pub mod Go
pub mod Sessions
pub mod Auth
pub mod Billing
pub mod Config
pub mod Csms
pub mod Telemetry
pub mod Gateway
pub mod Ocpp

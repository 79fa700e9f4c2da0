-- ===== src/Lib.antt =====
-- The panel 3m-ui administers a proxy core: it keeps proxy users, listeners and their bindings in a
-- database, reads the core's connections every few seconds, accounts the traffic to the users, blocks
-- the users that are expired or over quota, and serves subscriptions. This library models the core
-- logic of the backend (backend/internal) as functions of a record of tables.
--
-- Parts, and the files that model them:
--   Models, Store, Table: the rows (database/models) and gorm's statements. `World` holds the tables,
--     a list that says of each statement to come whether it fails, and the reload flag of
--     `user.Service`. A service call is a function from a `World` to an `Outcome`; a transaction that
--     fails restores the tables. Soft-deleted rows are rows with a mark.
--   Clock, Base.Words: `time.Time` as nanoseconds since the zero time, and `int64` arithmetic with its
--     wrap-around. The clock of a call is an argument, read once per call.
--   User: user/service.go (Active, FirstUse, Reload, Telegram), service_bind.go (Bind),
--     service_batch.go (Batch), service_delete.go (Delete), sub_token.go (SubToken), service_util.go
--     (Safe), service_crud.go (Crud, with Live and Created), service_creds.go (Creds). The loops that drop repeated ids are Ids.
--   Traffic: traffic/user.go (Samples), service.go (Rate), collector.go (Collector and
--     Collector.Once), enforcement.go (Enforcer), cycle_renew.go (Cycles), monthly_reset.go (Monthly),
--     ip_limit.go (IpLimit).
--   Hwid: hwid/hwid.go. Auth.Limiter: the two rate limiters of auth/api.go. Auth.Totp: the check
--     of one-time passwords in totp/totp.go (Bytes, Steps).
--   Listener: the port specifications and addresses of listener/validation.go and endpoints.go (Ports,
--     Address, Endpoint), and Listener.Service: service.go, quick.go and p2.go (Ports: names, endpoints
--     and free ports; Create; Change: update, delete, clone).
--   Json: the values of a `Config`, and maps from texts to them. Protocol: protocol/compile.go (Input,
--     Users), compile_modules.go (Compile, Tokens), decode.go and types.go (Access, Node).
--   Config: mihomo/config/listener_schema_registry.go (Schema, Registry) and listener_validation.go
--     (Validate).
--   Credentials: credentials/generator.go, the credentials that a listener without any is given.
--   Net: netutil/ssrf.go (Ip, Ssrf) and host.go (Host).
--   The other modules below these hold what is proved of them: Collector.Credit, Runs, Stored and Cycles
--     of a cycle's accounting, Cycles.Due of a tick, FirstUse.Begins of a touch, Bind.Success and
--     Bind.Correct of a replacement, Crud.Reclaim of a name that is taken back, Protocol.Passwords,
--     Auth, Agree and Legacy of who may log in.
--   Tests: concrete tables and runs.
--
-- Interaction: the collector calls `TouchFirstUse` and the samples of `UserService`; the enforcer uses
-- `IsCredentialActive`; every change of a user schedules the debounced reload, and every
-- change of a listener the debounced apply. The credentials of a listener are those of its bound users
-- that `IsCredentialActive` accepts, or its own. The service of listeners uses the port specifications and the addresses; the compilers and the
-- node model of links read one `Config`, which the schemas restrict.
--
-- Bounds: the retry loop of the subscription tokens runs at most five times, the one of a listener's
-- port at most eight, a port is drawn at most 300 times, and a one-time password is compared with
-- `2 * skew + 1` time steps, as in the code; every other loop is
-- structural recursion over the list that the code walks, so no fuel is used. Theorems
-- about a number of days ask for at most 106751 days, where the product that makes a duration does not
-- wrap. A Go map is an association list, and the order in which Go walks it is the order of the list;
-- in User.Creds, which walks no map but a `Config`, it is a function.
--
-- Parameters: the answers of the core, whether regenerating the configuration or closing a connection
-- succeeds, the random draws of tokens and ports, and the floating-point division of a rate; `fmt`,
-- HMAC and base 32, `encoding/json`, `net.ParseIP`, the resolver and the dialer; encryption and
-- decryption, the random texts of default credentials, new ids and gorm's defaults
-- of a new row; and, of the repository's own code, the preparation of a listener's row (autofill and
-- `ValidateModel`) and the check for a self-signed certificate.
--
-- Not modelled: HTTP handlers, the scheduler's goroutines and locks (a call is one step), encryption,
-- the core's process, the generation of its configuration file, the building of share links, the
-- Telegram bot, the cluster protocol, and the frontend. gorm's change of `updated_at` columns is left out.
pub mod Base
pub mod Clock
pub mod Models
pub mod Store
pub mod Table
pub mod User
pub mod Traffic
pub mod Hwid
pub mod Json
pub mod Protocol
pub mod Credentials
pub mod Config
pub mod Net
pub mod Listener
pub mod Auth
pub mod Tests

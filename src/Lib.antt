-- ===== src/Lib.antt =====
-- Verification library of open-rgs-go, a remote gaming server in Go.
--
-- The part of the program that holds money is internal/platform/server: one type per service, each
-- with a mutex, maps in memory and an optional PostgreSQL handle. The ledger service moves money
-- between players' accounts and the house; the wagering service places, settles and cancels wagers;
-- the sessions service starts, shows and ends players' sessions; the configuration service takes
-- proposed changes through approval and application and records what is downloaded. All resolve the
-- caller by actor_context.go and append to the audit chain of internal/platform/audit.
--
-- Prelude            Go's int64 (Prelude/Int64: bit patterns below 2 ^ 64, addition and subtraction
--                    modulo 2 ^ 64, the signed order), maps with string keys (Prelude/Dict),
--                    strconv.FormatInt of a non-negative number (Prelude/Decimal), and function bodies
--                    with early returns (Prelude/Flow), with rules for total correctness
--                    (Prelude/Flow/Triple): a body answers and does not block, and for
--                    partial correctness (Prelude/Flow/Partial).
-- Proto              api/proto/rgs/v1/common.proto and Money of ledger.proto, with the helpers
--                    requestID, idempotency, invalidAmount and money.
-- Actor              internal/platform/server/actor_context.go: actorTypeFromString, resolveActor.
-- Audit              internal/platform/audit: Event, ComputeHash, InMemoryStore, Append.
-- Ledger             internal/platform/server/ledger_grpc.go and ledger_postgres.go.
--   State            LedgerService, its messages, NewLedgerService.
--   Env              what comes from outside: SQL statements by what they answer, protojson,
--                    encoding/json, sha256, time formats.
--   Books, Methods   the unexported methods, one function each.
--   Persist          idempotency records and persistLedgerMutation.
--   Steps, Mutation  the statements that Deposit, Withdraw, TransferToDevice and TransferToAccount
--                    have in common, which the source writes out in each of them.
--   Handlers, Device the four handlers.
--   Balance          GetBalance.
--   Offline, Posting, Identifiers, Reconcile, Rules, Contract, Settles, Effect, Accepts,
--   AcceptsDevice, Guarantees, Repeats, Connected
--                    lemmas, from single steps to the contract of a whole handler.
--   Reachable, Outcomes, Once, Report, Authority, Deadlock
--                    the theorems about the service.
-- Wagering           internal/platform/server/wagering_grpc.go and wagering_postgres.go: State,
--                    Methods and Handlers; Rules and Lifecycle hold the lemmas and the theorems.
-- Journal            what each of the other services has of the audit chain: the store, the counter of
--                    audit ids, the database, `appendAudit` (each service writes out its own) and
--                    responseMeta; Journal/Sound: without a database it takes every event.
-- Sessions           internal/platform/server/sessions_grpc.go and sessions_postgres.go.
--   State, Methods, Handlers
--                    SessionsService, its methods with the conversions for the database, and
--                    StartSession, EndSession and GetSession.
--   Visits, Lifecycle, Starts, Continues
--                    the rules for the steps, and one request at a time.
--   Histories, Expiry, Stored
--                    sequences of requests; a start and a later look; a round trip of the database.
-- Config             internal/platform/server/config_grpc.go and config_postgres.go.
--   State, Rows, Methods
--                    ConfigService, the conversions for the database, and its methods.
--   Changes, Listings
--                    ProposeConfigChange, ApproveConfigChange and ApplyConfigChange; the lists and
--                    RecordDownloadLibraryChange.
--   Holds, Decisions, Proposals, Signatures, Unnamed, Branches, Rulings, Submissions
--                    the rules for the steps, and one request at a time; Rulings and Submissions
--                    have every branch with the whole state after it.
--   Progress, Histories, Paging
--                    the steps of a change, sequences of requests, and a client that reads all pages.
-- Identity           internal/platform/server/identity_grpc.go: the state (State), the methods that limit
--                    logins (Limits) and what they promise (Throttle), RefreshToken (Tokens) and what
--                    it does (Rotation), and the same for Logout (Logout, Departures).
-- Ledger/Tests, Sessions/Tests, Config/Tests, Identity/Tests, Examples
--                    the theorems at concrete requests.
--
-- Conventions. A handler is a function of the service's state; it answers none where the call never
-- returns. `now` is the reading of the clock, taken to be the same throughout a request; PlaceWager
-- takes the reading of the system's clock for its wager id as a second argument. A nil message is
-- none. The Boolean field `mu` of the ledger is its mutex: a lock that the same goroutine holds
-- blocks for ever; in the other services a handler holds the mutex as long as it uses the state, and
-- the field is left out. A nil pointer that is dereferenced also ends in none. Handlers run one after
-- the other; what two goroutines do to each other outside the mutex is not modelled. A write through a
-- pointer that a map holds is a write into the map. The counters that ids are made of are naturals
-- without bound, where the source has int64; an enum has the values that its .proto file names.
-- `Db` is the state of a database, of which nothing is assumed: the theorems on balances, replies,
-- wagers, sessions and changes are about services without a database (`db` is none), the theorem on the
-- mutex is about a service with any database, and the round trip of a session about one that gives back
-- the row that a statement wrote, asked only where every time is of whole microseconds, which is what
-- a timestamptz keeps. Nothing is assumed of the hash functions and of the HMAC; where a theorem needs
-- that a format reads back, it says so. Loops are structural recursion over lists; only the client of
-- Config/Paging has fuel, and more fuel than there are changes is enough.
--
-- Not modelled: ListTransactions of the ledger, its setters and the worker that deletes old
-- idempotency keys; the setter of the wagering service; Login and the administration of credentials of
-- the identity service; the other services (registry, events, extensions, reporting,
-- the audit service), remote access, token signing, metrics, evidence validation and the commands;
-- SQL itself; generated code and the gateways.
pub mod Prelude
pub mod Proto
pub mod Actor
pub mod Audit
pub mod Journal
pub mod Ledger
pub mod Wagering
pub mod Sessions
pub mod Config
pub mod Identity
pub mod Examples

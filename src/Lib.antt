-- ===== src/Lib.antt =====
-- httpkvdb: a key-value store over HTTP, with transactions whose operations arrive in separate
-- requests, and export and import of a userspace.
--
-- The parts. internal/httpapi asks internal/auth who sends a request, and passes it on to
-- internal/tx (transactions) or internal/storage (everything else); internal/tx keeps its
-- transactions in the store and runs the operations of a complete one on a copy of the data, which
-- it commits as a whole. internal/storage keeps all data in memory and
-- writes all of it to files after each change. internal/importexport writes and reads records.
-- internal/auth resolves keys and tokens by the store, with a cache; internal/config reads settings.
--
-- The files.
--   Base, Golang     Helpers: byte strings, integers, maps as association lists, and the functions
--                    of Go's library that the code uses on them (Golang/Text, Utf8, Encoding, Sort, Url,
--                    Strconv, Stream).
--   Model            internal/model/model.go, and the errors of all packages as one enumeration.
--   Validate         internal/storage/validate.go.
--   Codec            internal/importexport: Encode (encode.go), Decode (decode.go), Words (the
--                    integers of encoding/binary); RoundTrip, Sound, Refused.
--   Storage          internal/storage/storage.go: Snapshot (the data and getFrom, putInto, the
--                    import loop), Disk (load, persistLocked, the value files), Store (the methods
--                    on records and transactions), Accounts (userspaces, API keys, subjects),
--                    Atomic (AtomicTx); Records, Operations, Durable, Erasure, Rekey, Import,
--                    LongNames, LostUpdates, Sound.
--   Tx               internal/tx/coordinator.go: Digest (BodyHash, Digest, sameOp, validTxID),
--                    Execute (execute), Coordinator (the requests and the expiry); Spec (what a
--                    transaction promises), Refines, Frame, Atomicity, Requests, Outside,
--                    After, Machine, Forever, Expiry, Again, Rounds, Sound, Same, Arrival.
--   Auth             internal/auth/auth.go: Token (the hash of a key, verifyJWT), Cache (getCache,
--                    setCache), Authenticator; Coherent, Refines, Bounds, Verified.
--   Config           internal/config/config.go: Settings (fromValues, Load), EnvFile; Environment.
--   Http             internal/httpapi, internal/observe and the middleware of internal/auth:
--                    Message (requests, responses, errors.go, cors.go), Server (the state,
--                    metrics.go), Kv, Transfer, Transactions and Admin (the handlers), Router
--                    (router.go, request_id.go); After, Isolation, Coherence, Creation,
--                    Rotation, Stale, ReadBack, Transfers, Sound.
--   Threads          internal/lock/serial.go (Lock) and requests that run at the same time: Plan
--                    (the coordinator's methods, cut where others can come between), System (threads
--                    over one store and one lock); Local, Invariant, Serial, Twice, Orders,
--                    Promise, Rank, Waiting, Finish.
--   Program          cmd/kvhttpd/main.go, up to the server; Life (what follows the start, with the
--                    loop of internal/tx/cleaner.go); Sound.
--   Tests            Concrete runs.
--
-- State and operations. A Store is the data in memory and the files; a method is a function from a
-- store to its result and the next store, with the name of the method in snake case. A Go map is an
-- association list with one entry for each key, in the order of insertion; where the order of a
-- range loop can matter, the model takes that order. A method takes the mutex of the store for all
-- of its run, so it is one step. Coordinator's methods are modelled as run without interruption in
-- Tx and Http, and step by step in Threads. There, a thread is a request or a round of the expiry;
-- a round stands for one transaction of ExpireDue's list, a handler's work on the store under the
-- global lock is one step, and an import's two, as its BeginAtomic and its Commit are.
-- The random part of newTxID is an argument, and the clock is read once in an operation.
--
-- Code outside the repository is a parameter: SHA-256 (32 bytes) and json.Valid (Golang/Crypto.Std),
-- encoding/json on the data (Storage/Disk.Json), the calls of package os with their failures
-- (Storage/Disk.Io), HMAC-SHA256 and the JSON of a token's claims (Auth/Token.TokenLib), the
-- JSON of request bodies and the bytes of crypto/rand (Http/Server.World), the mux of net/http
-- (Http/Router), strconv.Unquote (Config/EnvFile). A request holds its path as net/http has
-- unescaped it, and its body with whether reading it fails. Theorems that need JSON to read back what
-- it wrote say so.
--
-- Bounds. uint64, uint32, uint16 and int64 words keep their wrap-around; Go's int is an integer.
-- No definition runs on fuel: loops go through a list, or count down from a number.
--
-- Not modelled: when the listener, the ticker and the signals act (Program/Life is given the
-- sequence of requests, ticks and the interrupt, each one step); the caches and counters in Threads;
-- web and scripts; what a database file that was changed by hand contains.
pub mod Base
pub mod Golang
pub mod Model
pub mod Validate
pub mod Codec
pub mod Storage
pub mod Tx
pub mod Auth
pub mod Config
pub mod Http
pub mod Threads
pub mod Program
pub mod Tests

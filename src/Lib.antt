-- ===== src/Lib.antt =====
-- A model of an API gateway (internal/ and pkg/) and what can be proved of it.
--
-- The program is an HTTP gateway. A store (internal/store) keeps services, routes, apps, API keys,
-- rate limit rules, request logs and health checks in maps. The business service
-- (internal/service) manages these entities, matches a request with a route, authenticates its
-- key, and keeps a token bucket for each rule and a circuit breaker for each service. The gateway
-- handler (internal/handler/gateway_handler.go) runs a request through all of them and forwards it.
--
-- Which file models what:
--   CircuitBreaker   internal/circuitbreaker/circuit_breaker.go: `new`, `allow`,
--                    `record_success`, `record_failure`.
--   RateLimit        internal/ratelimit/token_bucket.go: `new_token_bucket`, `allow`, `tokens`,
--                    `reset`, `refill`.
--   Idgen            pkg/idgen/idgen.go: `short`, `hex` and `hex_n`.
--   Model            internal/model: the records, with `validate` (Validate), `matches` (Match),
--                    `is_expired`, `rate_per_second`, `record_probe` (Record).
--   Store            internal/store: `MemoryStore` in Memory, what its maps have in common in
--                    Table, one method each in Entities and Health; the interface of
--                    internal/store/store.go in Interface.
--   Gateway          internal/service: the state in Gateway, paginate in Paging, MatchRoute in
--                    Matching, Authenticate in Auth, the management operations in Admin,
--                    the goroutine of StartHealthChecker in Admin.Checker.
--   Handler          internal/handler/gateway_handler.go in Proxy, its ClientIp and its Paths;
--                    the replies of pkg/httpx/httpx.go and writeServiceError in Replies.
--                    Its phases, for requests that are served at once, are in Phases.
--   Process          cmd/server/main.go: the goroutines of the process as a step relation, which runs
--                    the server, the health checker and the shutdown. The invariant of the whole
--                    state is in Store.Sound and Gateway.Sound; what a checked entity keeps is in Model.Valid.
--   Base             what the parts share: texts, maps, integers, times, sorting.
--   Tests            runs on small data and the theorems applied to them.
--   Gateway.Stats, Gateway.Transfer
--                    internal/service/stats_service.go and export_service.go.
--   Handler.Middleware
--                    internal/middleware.
--   Handler.Api      the management handlers of internal/handler: one file for each of services,
--                    routes, apps, keys and rules; logs, health, statistics, export and import in
--                    Reports. `respond` runs an operation and answers its result or its error.
--   Handler.Server   internal/handler/server.go; Endpoints has the patterns that are registered.
--   Flow             internal/flowmodel and internal/flowstore; Workflows has the sequences of
--                    internal/flowservice/workflows.go and internal/flowhandler/coordinator.go on
--                    attempts, builds and events, Batches those on slices that share arrays,
--                    Calls those under a context, and Fanout the goroutines of `Fanout`.
--   Config, Logger, App
--                    internal/config/config.go, pkg/logger/logger.go and internal/app/app.go.
--
-- How the code is read:
--   State is passed explicitly. A method of a type with a mutex is one step; the time it reads and
--   the random identifiers it draws are arguments. `Moments` has the readings of one request.
--   A map is an association list, whose order is one order in which range may visit it. The store
--   hands out the pointers it keeps: a write through such a pointer is an `assign_` operation, so
--   that an update writes to the stored object before it is checked, as the code does.
--   An int is an integer, wrapped to 64 bits (`wrap`) where a sum or product can overflow. The
--   status codes and latencies of logs and checks are natural numbers.
--   A text is the list of the code points of a string that is valid UTF-8; `len` counts bytes. The
--   case mappings of the unicode package are arguments. A time counts nanoseconds from the zero
--   time, and a difference saturates as Time.Sub does. sort.Slice is an insertion sort,
--   one of the orders that it may leave equal items in.
--   A float64 is a value of an abstract type with an interface (Base.Float), whose laws hold of
--   IEEE 754 numbers other than NaN; they are shown to hold of fixed-point numbers.
--   A request has two paths: `URL.Path`, which the gateway's handler reads, and the path as it was
--   sent, with its escapes, which http.ServeMux matches. The reverse proxy panics with
--   http.ErrAbortHandler if the body of a response cannot be copied to its end (`broken_off`).
--   net/url, the reverse proxy's transport and the probes of health checks are parameters
--   (`Upstream`, `Network`), and so are the decoding of bodies, strconv, time.Parse and os.Getenv
--   (`System`, `Query`, `load`) and the callbacks of the flow packages. The reverse proxy's
--   joining of paths is modelled for URLs with no escaped path.
--
-- Loops are structural. The digits of a short code run for at most 11 rounds, the capacity of the
-- code's buffer, and 62 ^ 11 exceeds 2 ^ 64.
--
-- A run of the goroutines of Fanout is a sequence of steps, each of one goroutine or of the
-- collector, in any order. A run of the process is one of steps of its goroutines; a request is
-- answered in one step, and the probe of one service is one step. In Handler.Phases a request takes
-- a turn for each call that it makes of the service or the upstream, at most eight, and the turns of
-- several requests are interleaved in any order; management requests are not among them.
--
-- Not modelled: the encoding and decoding of JSON, the formatting of log lines and the sockets of
-- cmd/server/main.go, which are input and output; the log lines of the health checker's goroutine
-- but its first. Of http.ServeMux only the precedence of patterns is assumed, where a theorem needs it
-- (`IsMux`).
pub mod App
pub mod Base
pub mod CircuitBreaker
pub mod Config
pub mod Flow
pub mod Gateway
pub mod Handler
pub mod Idgen
pub mod Logger
pub mod Model
pub mod Process
pub mod RateLimit
pub mod Store
pub mod Tests

-- ===== src/Lib.antt =====
-- Elite Gate: an API gateway with a control plane and workers. Modelled are the parts below; each
-- operation of the source is one function on an explicit state.
--
-- Text           Go strings as bytes, with what the program uses of the package strings; outside
--                ASCII the tables of Unicode are a parameter.
-- TextMap        Go maps with string keys, as association lists.
-- LoadBalancer   internal/gateway/loadbalancer: Target, RoundRobin (Pick is round_robin_pick,
--                expandByWeight is expand_by_weight), LeastConn (Pick, Release, the counts that
--                InFlight copies are `load`), NewStrategy and the interface Strategy. Fairness,
--                LeastLoaded, InFlight and Choice hold the theorems.
-- RateLimit      internal/ratelimit/memory_limiter.go: CheckAndConsume, AllowWithLimit, Allow, Count
--                and one tick of StartCleanup. `run` is a history of calls with the clock of each.
--                Ideal is a window that remembers every granted request.
-- Table          what the repositories use of SQL, on a table as the list of its rows: UPDATE, the
--                first row of a sorted SELECT, unique keys.
-- Domain         internal/domain/custom_domain.go: the statuses and the rows.
-- DomainRepo     internal/storage/custom_domain_repo.go: Queue is the claim, Lease the statements of
--                a worker under its lease, Requests those behind the requests of members, Ingress
--                the query for a project's gateway, Creation is Create and HostnameExists. Each is one
--                atomic statement on the table `Store`; `guarded` is an UPDATE that looks at
--                RowsAffected, and update_returning one with RETURNING.
-- Hostname       internal/helper/domain.go: NormalizeHostname is normalize_hostname.
-- DomainService  internal/admin/service/custom_domain_service.go: the requests of members, on the store
--                of DomainRepo; Lifecycle holds routing, activation, retries and deletion, Status what
--                members see. DNS, the random token and SHA-256 are the record `DomainEnv`.
-- Provisioner    cmd/worker/provisioner.go: ProcessNextJob (Process), the handlers (Stages, Attaching,
--                Removing) and the classification of errors (Errors). AWS is the record `Cloud` of
--                answers (internal/aws/interfaces.go), arbitrary in every theorem. Leaves says which
--                statement a handler's run ends in, LastSteps and Dismantling what has gone before it,
--                RowEffects, Processing, Ticks and Leases what that does to the table.
-- Gateways       internal/storage/gateway_*.go: Queue is the claim, Ingress the statements of a worker
--                under its lease, Priority the reservation of a listener priority, Requests and
--                Draining the statements behind the requests of the control plane.
-- GatewayWorker  cmd/worker/gateway_provisioner.go: ProcessNextJob (Process), the handlers (Handlers)
--                and the names of resources (Names). AWS is the record `GatewayCloud` of answers and
--                Docker a function in `GatewayEnv`. Steps says which step a status allows, Leaves and
--                Teardown that a handler ends in one, Ticked and Ticks what that does to the table,
--                and History is a sequence of worker calls and requests.
-- Router         internal/gateway/router/matcher.go: MatchHTTP is match_http, whose loop is
--                consider_all with one turn `consider`; Paths, Best and Exact hold the theorems.
-- Middleware     internal/gateway/middleware: RouteMatcher (Matching), IPFilterMiddleware (IpFilter, with
--                internal/ipfilter in IpRules), CORS (Cors), AuthMiddleware (Access) and the rate limit
--                (Throttle), each a function from the next handler to a handler. Serving chains them
--                as NewRouter of internal/gateway/router.go does; Stages shows that each answers or
--                calls the next one, Admission what that gives for the chain.
-- Health         internal/gateway/health/checker.go: Register, SyncTargets (sync_targets), IsHealthy,
--                probeAll (probe_all) and setStatus; the answer of net/http is a parameter.
--
-- A worker calls ProcessNextJob, which claims a row under a new lease token, calls AWS and ends in one
-- statement under that lease. Requests of members write to the same table between the calls. The
-- gateway matches a route, checks the address, the origin and the identity, asks the limiter for
-- permission and a strategy for a target.
--
-- Bounds. The round-robin counter wraps at 2^64, and a theorem on it says so. Times are nanoseconds
-- and counts natural numbers; the wrap-around of the 64-bit counts of requests in flight and of
-- attempts is not modelled. No function needs fuel: loops are recursion on lists. Goroutines are
-- sequences of steps, since every operation runs under its mutex or is one SQL statement; the
-- locking of rows inside one statement (SKIP LOCKED) has no counterpart. EnqueueProvisioning,
-- EnqueueDeprovisioning, DeleteCustomDomain and ActivateCustomDomain make several statements and
-- take the store that each of them finds; the other requests of members, and SyncTargets, which
-- takes its lock for each target, run with nothing of others between their own. An UPDATE of a
-- worker whose rows the database refuses, for a constraint, a column's width or an encoding, is
-- one that the field `accepts` of the table turns down; it is arbitrary, and a theorem that needs
-- it to accept says so. An UPDATE with RETURNING, a claim, the reservation of a priority and the
-- INSERTs are refused only where the model's own tests say so. A uuid is a number, and that the
-- token of a claim is new is a hypothesis where it matters; that IDs are distinct is the primary
-- key.
--
-- Not modelled: logging, metrics, the proxy, configuration, the other tables, the queries that only list,
-- the AWS and Docker clients, tokens and mail. An error of the database is a store that is down for
-- the length of a call.
mod Prelude
pub mod Text
pub mod TextMap
pub mod LoadBalancer
pub mod RateLimit
pub mod Table
pub mod Domain
pub mod DomainRepo
pub mod Hostname
pub mod DomainService
pub mod Provisioner
pub mod Gateways
pub mod GatewayWorker
pub mod Router
pub mod Health
pub mod Middleware

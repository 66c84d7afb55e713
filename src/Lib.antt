-- ===== src/Lib.antt =====
-- Verification library for the core services of go-backend-core.
--
-- The program is a Go backend: services under internal/services, middleware under
-- internal/middleware, and reusable packages under pkg. This library models the parts whose
-- behaviour is their own logic, and takes databases, Redis, clocks, random numbers and HTTP as
-- parameters or as arguments of each call.
--
-- Files and what they model:
--   Net/Breaker, Net/Retry      pkg/net/breaker.go, pkg/net/retry.go
--   Database/Breaker            internal/database/breaker.go
--   Pagination                  pkg/pagination/pagination.go and query.go
--   Middleware/RateLimit        internal/middleware/ratelimit.go, the limiter in memory
--   Auth/Users                  internal/services/auth/store.go and user.go, the users in memory
--   Auth/ApiKeys                internal/services/auth/apikey.go, the keys in memory and the service
--   Auth/Rbac                   internal/services/auth/rbac.go, the roles in memory and the service
--   Auth/Tokens                 internal/services/auth/auth.go, with the JWT library as a parameter
--   Auth/Blacklist              internal/services/auth/blacklist.go, the one in memory
--   EventBus/DeadLetter         internal/services/eventbus/deadletter.go, the queue in memory
--   Discovery/Registry          internal/services/discovery/discovery.go, the registry in memory
--   EventBus/Local              internal/services/eventbus/eventbus.go, the bus in memory
--   Feature                     internal/services/feature/feature.go and store.go, without MySQL
--   Cache                       internal/services/cache/cache.go and codecs.go: Codecs, the local Level,
--                               the two Levels over Redis, many keys at once in Bulk
--   Ws/Hub                      internal/services/ws/hub.go
--   Scheduler/Store             internal/services/scheduler/task.go and store.go, the store in memory
--   Scheduler/Handlers          internal/services/scheduler/task.go, the handlers by name
--   Scheduler/Execution         internal/services/scheduler/scheduler.go and asynq_handler.go, one run
--   Scheduler/Cron              what the scheduler asks of the cron library, as a parameter
--   Scheduler/Jobs              internal/services/scheduler/scheduler.go, the entries of the cron
--   Auth/Listing                the page that the two listings of users and keys cut out
--   Prelude                     shared names: tests, lists, Go maps, Go integers
--
-- How they interact. The services of keys and roles and the flag manager that saves its changes call
-- a store; the tokens call a JWT library and the users call bcrypt; the queue of failed events calls
-- the handler it is given when it replays; the breakers and the retry loop guard a call that they
-- are given. The listings of users and of keys share the cut of a page. The cache asks its
-- local level first, then Redis, and keeps bytes of a codec; the hub shares its clients with their
-- connections; the scheduler keeps the entries of a cron in step with the tasks of a store, and runs
-- handlers between two writes of a log; the registry tells its watchers what it has of a service.
--
-- Conventions. A method that changes its receiver is a function to the new state; a method under a
-- mutex, or on atomics, is one step. The database breaker holds no lock while it waits for its call,
-- so calls overlap: a call is two steps there, its question and its answer. An instant is the number
-- of nanoseconds since the epoch, and the clock's reading is an argument. Go's int, int64, int32 and
-- time.Duration are integers whose wrap-around is written out where a sum or a product can leave the
-- range (wrap32, wrap64). A Go map is an association list read by its first entry for a key. A loop
-- over a slice is a recursion on the list, and a counted loop a recursion on the rounds left, so no
-- fuel is chosen anywhere.
--
-- Not modelled: the Redis, MySQL, MinIO and search back ends beyond their interfaces, HTTP routing,
-- configuration files, logging, metrics and the interleavings inside one step; of the cache the
-- subscription to expired keys, of the hub the connections, of the scheduler the built-in handlers.
-- A handler that is given to the bus, the queue or the scheduler does not call it back.
mod Prelude
pub mod Auth
pub mod Cache
pub mod Database
pub mod Discovery
pub mod EventBus
pub mod Feature
pub mod Middleware
pub mod Net
pub mod Pagination
pub mod Scheduler
pub mod Ws

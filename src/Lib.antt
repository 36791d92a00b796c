-- ===== src/Lib.antt =====
-- go-with-me: a Go backend for users, sessions and their audit. The API is gin over services over
-- repositories over PostgreSQL; Redis counts requests. A user is invited or created as the first super
-- admin, logs in with a password and a time-based code (TOTP), and holds a JWT session; a password is
-- reset by a code that is sent to the address.
--
-- The files, and the code each is about (paths from the repository's root):
--   ApiError, Http.Answers       internal/lib/apierror.go, internal/lib/response.go
--   Pagination                   internal/lib/pagination.go
--   Models, Models.Roles         internal/models
--   Claims, Token                internal/auth/token.go
--   Config, Config.Load          internal/config/config.go
--   Repository.Users, .Resets,   internal/repository/implementation, migrations
--     .Audit, .Newest
--   Repository.Sql, and Sql and  how the lists and Update put their statements together, and how rows
--     Rows below each table        are scanned; Users.Store is the users as a store by ids
--   Services.Auth and below      internal/services/auth_service.go: Login, Totp, Reset, Invite,
--                                Bootstrap, Profile, each with its theorems below it
--   Services.UserAdmin           internal/services/user_service.go
--   Http.Auth, Roles, Audit,     internal/api/middleware
--     RateLimit, RequestId
--   Http.AuthHandler, Body,      internal/api/handlers
--     UserHandler
--   Http.Routes                  internal/api/routes/routes.go
--   Http.Panics                  recovery.go and request_logger.go of internal/api/middleware: handlers
--                                that may panic, and the lines of the log
--   Http.Envelope                which codes and statuses the responses may have, and that each route's
--                                have them
--   Logger                       internal/lib/logger.go
--   Jobs.Worker, Jobs.Scheduler  internal/jobs
--   Events                       internal/events
--   Bootstrap.Process, Database, internal/bootstrap: the handles that are open, the pools, New and
--     Start, Run                 Shutdown, and the three ways to run
--   Commands                     cmd/api, cmd/server, cmd/worker
--   World, Action                the state that a call works on, and calls: a call takes the world
--                                and gives a value or a Go error, and the world after it
--   Changes                      what a call may write, and each call as such writes
--   App.Race                     two calls of Deactivate at once, or two that demote by Update
--   Services.Auth.Login.Replica  Login where its reads go to a replica that lags
--   Services.Auth.Login.AtOnce   calls with wrong passwords, statement by statement; Tally, Crowd and
--                                Alone are about them
--   Services.Auth.Reset.AtOnce   VerifyResetEmail in two parts: the look-up, and the use
--   Services.Auth.Reset.OneToken any number of its calls, their parts interleaved
--   App                          requests as calls of the services, and the tables under them
--   Http.Refines, Http.Managed   the same for requests that reach the server, on any route
--   Tests                        a small world, on which each theorem is applied
--   Base                         lists, texts and tests that the other files share
--
-- Functions keep the source's names in snake case: `AuthService.VerifyTOTP` is `verify_totp`. A Go
-- function that goes on after it has found a row is split there: `login_found` is the rest of
-- `Login`, `update_current` that of `Update`.
--
-- The world holds the three tables, the clock in nanoseconds and the lines of the notifier. A
-- statement may fail at any time (`Env.fails`), and what was written before stays written. A UUID is a
-- number, 0 the nil one. `failed_attempts` has 32 bits and an offset wraps around at 64, as in the
-- source; the sum of a time and a duration and a setting of the configuration are natural numbers.
-- Texts are Unicode texts with the length in bytes; the case mapping of addresses is that of ASCII.
--
-- A start and a shutdown work on a process: the world, and which handles (pools, connections, clients)
-- are open. The worker's goroutines are a step relation, with a step for each send, `Done` and receive;
-- the scheduler's are events, and a ticker may fire at any time. The counters of the rate limit are a
-- server of their own, beside the reply that the routes read.
--
-- Outside the repository, and so a parameter (`Env`, `Gin`, `Redis`, `RedisServer`, `Ilike`, `Drivers`,
-- `ParseUrl`, `Encoders`): golang-jwt, bcrypt, TOTP, SHA-256, crypto/rand, UUIDs, gin's router and
-- binding, Redis, ILIKE, pgxpool, goose, zap, url.Parse, env.Parse. Theorems assume of them only what
-- their hypotheses say, such as that the database answers (`IsUp`) or that INCR and EXPIRE do as
-- documented (`IsRedis`).
--
-- Not modelled: that a request takes time, and that requests interleave, but for App.Race, Login.AtOnce
-- and Reset.OneToken; a replica that lags behind, but for Login.Replica; headers; and log lines other
-- than those of Http.Panics. Recursion is on lists, texts, numbers and derivations, so no fuel is used.
pub mod Base
pub mod ApiError
pub mod Models
pub mod Config
pub mod Claims
pub mod World
pub mod Action
pub mod Token
pub mod Repository
pub mod Services
pub mod Changes
pub mod App
pub mod Jobs
pub mod Events
pub mod Logger
pub mod Bootstrap
pub mod Http
pub mod Pagination
pub mod Commands
mod Tests

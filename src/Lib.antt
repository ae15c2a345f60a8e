-- ===== src/Lib.antt =====
-- b-go-util: helpers for Go services, modelled as far as their logic is their own.
--
-- The repository is a set of packages that build on each other. `util` has the basics (assertions,
-- atomic values, retries, errors), `_set` and `store` have collections, and `async` has what runs
-- and coordinates goroutines: results, latches, groups, tickers and a time wheel, which use the
-- atomic values of `util`. `orm`, `bolt`, `rdb`, `http`, `rpc`, `grpc`, `scheduler`, `conf` and
-- `slog` wrap third-party packages.
--
-- Files and the code they model, by the names of the source in snake case:
-- - Base: the shared names, and its children: Boolean tests (Tests), lists over the native numbers
--   (Lists), signed integers with int64's wrap-around (Int), the keys of a map without values (Keys)
--   and a map (Dict), as association lists that hold a key once, and time.Time (Times). A map is read in
--   one order, the list's: no theorem says which order `range` takes.
-- - Set, IntSets: `_set/string_set.go` over any key type, and `_set/int64_set.go` and
--   `_set/int32_set.go` as the same code at their keys.
-- - Timer: `async/timer.go`. Buckets hold entries that point into a heap of task objects, as
--   pointers to one object are in a bucket and in the map of tasks. The goroutine `run` takes one
--   event at a time (put, delete, tick, close), so Timer.Run.run goes over a list of events; the
--   tasks that a tick starts are a list. The sum of two ints that finds the bucket of a new task wraps as
--   in Go, and a negative index is a panic, which ends the run.
-- - Ticker: `async/ticker.go`; Ticker/Executor is TickerExecutor. Times and durations are integers
--   in nanoseconds that are given to a step. The goroutine that receives from the channel and the
--   time ticker are events, in any order with the calls of the methods.
-- - Value, Result: `async/result.go`. Value is an `interface{}` with its dynamic type, used by Store
--   too. Result/Lists and Result/Maps are the collections, those with a lock under the prefix
--   `sync_`.
-- - Store: `store/store.go`. What it calls of fmt and strconv is the record Conversions, a parameter.
-- - Retry: `util/retry.go`. The loop of DoRetry runs on fuel; max count + 1 is enough,
--   since each failed run but the last counts up, and the counter stops at the max count.
-- - Pager: `orm/page.go`, with the package's defaults as constants.
-- - Atomic: `util/atomic.go`; an operation of sync/atomic is one step.
-- - Latch: `async/latch.go`. The queue of the condition variable, the goroutines before the lock and
--   those whose Wait returned are lists of the latch.
-- - Barrier: PeriodBarrier of `async/barrier.go`, with AtomicTime of `util/atomic.go`; goroutines that
--   call it are in lists by where they are. Barrier/Spacing has calls one after another, Barrier/Overlap
--   interleaved ones.
-- - Signals: `async/done.go` and `async/blocker.go`.
-- - Groups: `async/group.go`, whose goroutines are counted by where they are (Groups/Workers has those
--   of WorkerGroup, Groups/Routines those of RoutineGroup and WaitGroup); Groups/Runner is TaskRunner
--   and Groups/Members RunnerGroup of `async/runner.go`; a Start is four steps and a
--   Stop two, which others may interleave.
-- - BlockGroup: `async/block_group.go`. Holders live in a heap, since goroutines keep them after
--   their key is removed; Get and Put are two parts each, as they let the lock go between them. What strings.TrimSpace says of a key is a parameter.
-- - CacheGroup: `async/cache_group.go`, with its holders in a heap too; Do is a step up to the wait or
--   the task, one for the end of the task, and one for the end of the wait.
-- - Loops: `async/ctx.go`, `async/do.go`, `async/run.go` and `async/run_interval_helper.go`. A loop goes
--   over a list of rounds, each with what the context's Err returns at the select and in the task, and
--   whether the task calls Abort.
-- - Errors: `util/error.go` with Sprintf of `util/print.go`; Errors/Rpc is `rpc/error.go`. errors.As,
--   fmt.Sprintf and the status errors of gRPC are parameters.
-- - RedisCache: `rdb/cache.go`. Each Lua script is a function of the hash of its key; RedisCache/Fetching
--   has the calls around them, with what redis replies, the time and the owner as arguments.
-- - Scripts: the Lua scripts of `rdb/ca.go` over a record of redis commands with laws.
-- - Limiter: `rdb/limiter.go`, over a record of the commands that it needs.
-- - Locker: `rdb/locker.go`. The retries of obtainLock are those of Loops/Helper, with what Obtain returns
--   in each round; Locker/Session is SessionLock, as interleaved steps.
-- - Jobs: the packages `rdb/scheduler/option.go`, `rdb/scheduler/context.go` and
--   `rdb/scheduler/scheduler.go`, over the commands of Scripts and the locks of Locker.
-- - Cron: `scheduler/option.go` and `scheduler/scheduler.go`, over a record of the cron package.
-- - Http: `http/error.go` and `http/mw_err_handler.go`, with the arguments and codes of Errors.
-- - Bolt: `bolt/repo.go`. bbolt is a record of operations with documented laws; Bolt/Repository has the
--   methods and Bolt/Cursor the loop over a prefix, over keys as lists of bytes.
-- - Aes: `util/crypto_aes.go` and `util/crypto_aes_helper.go`, over crypto/aes as a record with laws.
-- - Tokens: the tokens of `util/crypto.go`, over texts as lists of bytes; Tokens/Auth is `rpc/mw_auth.go`
--   with GetMDVal of `rpc/util.go`, a client's call up to the server's check.
-- - Promise: `async/promise.go`; of the functions that run goroutines the events are the steps of the
--   loop, of the goroutines and of the ends of tasks.
-- - RpcState: `rpc/mw_state.go`, with the maps of all states in a list.
--
-- A method that holds a lock from its first to its last statement is one step. A panic is `none`.
-- Integers are the signed integers of Base; where the source adds or multiplies, the result is cut
-- to 64 bits, and theorems say for which sums they hold. Loops over maps and lists are structural
-- recursion; DoRetry needs fuel, and the digits of a number, of which it has no more than its value.
--
-- Not modelled: what wraps gorm, bbolt (but for the repository), go-redis (but for the cache, scripts,
-- limits, locks and the scheduler), gRPC (but for errors, authentication and state), gin (but for the error
-- handler), resty, zap and cron (but for the tasks), whose behaviour is that of the package; input and
-- output, signals and files of `util`; conversions to text; and of `async` Barrier, which is a mutex around
-- a call, and the adapters between types of tasks.
mod Base
pub mod Set
pub mod IntSets
pub mod Timer
pub mod Ticker
pub mod Value
pub mod Result
pub mod Store
pub mod Retry
pub mod Pager
pub mod Atomic
pub mod Latch
pub mod Barrier
pub mod Signals
pub mod Groups
pub mod Scripts
pub mod Limiter
pub mod Locker
pub mod Cron
pub mod Jobs
pub mod Http
pub mod BlockGroup
pub mod CacheGroup
pub mod Loops
pub mod Errors
pub mod RedisCache
pub mod Bolt
pub mod Aes
pub mod Tokens
pub mod Promise
pub mod RpcState

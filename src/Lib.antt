-- ===== src/Lib.antt =====
-- Verification of Spool, a distributed task queue in Go (repository farhan-ahmed1/spool).
--
-- The program. A task (internal/task/task.go) is put by a client into a queue on a Redis server
-- (internal/queue/redis.go): four lists of ids, one for each priority, beside the JSON text of each
-- task. Workers (internal/worker/worker.go) poll the queue, run the handler that is registered for
-- the type of the task (internal/task/handler.go), acknowledge a success, and put a failed task back
-- after a delay, or among the dead letters once its retries are used up. An autoscaler
-- (internal/monitoring/scaler.go) decides from the queue's depth and the idle workers how many
-- workers there should be, and a pool (internal/worker/pool.go) starts and stops them. A broker
-- (internal/broker/broker.go) takes tasks by HTTP, a dashboard (web/server.go) shows the metrics
-- (internal/monitoring/metrics.go), the tasks and a live feed, and internal/logger/logger.go writes
-- the log. The configuration is that of internal/config/config.go.
--
-- The model.
--   Prelude: tests, lists, association lists, and int32 and int64 as integers that wrap around.
--   Env, Effect: Go's contexts, clock and sleep as a record `World` over a state S of all that lies
--     outside the program, and fallible effects on S.
--   Task, Task/Registry: the task's record, its methods, and the registry of handlers. A handler is
--     a parameter: a function on S.
--   Redis: the commands of the Redis client as a record of functions on S. Redis/Keys has a
--     constructor for each key prefix; Redis/Laws states the documented effect of each command;
--     Redis/Memory is a server in memory that meets the laws.
--   Queue: the interface `Queue`; Queue/RedisQueue and its child Admin implement it over the
--     commands and a JSON codec, both parameters. Queue/RedisQueue/Lines says what the queue
--     promises without Redis, as four lines of tasks, and Queue/RedisQueue/Refinement relates the
--     two. Queue/Priority has the names of the priorities (internal/queue/priority.go).
--   Storage: the interface of the task store, and Storage/RedisStorage, which implements it over the
--     commands (internal/storage/redis_store.go).
--   Worker, Worker/Polling: the flags of Start and Stop, one poll with the execution of the task,
--     and the handling of a failure. Worker/Running has the loop, given by the cases that its
--     `select` takes, and Worker/Draining follows it over the lines of the queue.
--   Scaler, Scaler/Loop: decisions and targets, and the loop that carries them out;
--     Scaler/Loop/OnPool puts the pool in the place of its controller.
--   Metrics, Metrics/Tasks, Metrics/Report: the worker counts, the task counts, and the snapshots and
--     trends (internal/monitoring/metrics.go).
--   Instrumented: the workers whose counters a tick carries over to the metrics
--     (internal/worker/instrumented.go), and Instrumented/Pools their pool.
--   Pool: the pool of workers (internal/worker/pool.go), with the collector that it points to.
--   Http: what a handler sees of net/http, a request and the response so far, in which a status and
--     the headers are sent once, and a missing content type is detected at the first write.
--   Broker: the handlers of internal/broker/broker.go over any queue and store, with their routes.
--   Dashboard: what web/server.go shows; Dashboard/Handlers has its handlers, Dashboard/Sorting its
--     sort, and Dashboard/Feed the recent events, the channels and the connections of its clients as
--     one record that the calls and the loops change in any order; Dashboard/Feed/Streams has what
--     its event streams write, and the goroutine of each that takes task events.
--   Logger, Logger/Format: levels and fields, and the lines (internal/logger/logger.go); a text is the
--     list of its code points.
--   Config: the configuration and its validation.
--   ImageProcessor: the demonstration examples/image_processor/main.go, its images as functions on
--     points, its handlers and its tasks. Demos: parts of examples/dashboard/main.go and
--     examples/autoscaling/main.go.
--   Examples: the theorems at concrete inputs.
-- A function is named as in the source, in snake case: `handle_task_failure` is handleTaskFailure. A
-- method that changes its receiver returns the new record. Where the source has an error message, the
-- model has a constructor of an error type.
--
-- Conventions. `none` stands for nil, and an `Option CtxError` for `ctx.Err()`. `IsUp` says that under
-- a context the server answers every command on a key of the right type; no theorem that lacks it
-- says that a command succeeds. The laws describe one client: what other clients do between the
-- commands of one call is not modelled. Nor is the expiry of keys: an entry that Set gives a time to
-- live stays until a command takes it away, so that the theorems speak of times before it expires. Times are nanoseconds as natural numbers. Every loop of the
-- modelled code runs over a list or a counted range, so that no fuel is needed: the model's functions
-- are total. A method of the metrics and the pool reads the clock once, where the source may read it
-- twice. Lengths of lists are natural numbers, below 2^63 in any run.
--
-- Not modelled: the log lines of the components, the mutexes (calls are taken one at a time), the JSON
-- text of tasks and replies, which a codec stands for, and cmd, examples/simple and examples/queue_demo,
-- which are main functions that connect to Redis, make the components, call them once and print. Of the
-- other examples the output, the wiring and the sample handlers that sleep and fail at random are left
-- out.
pub mod Prelude
pub mod Env
pub mod Effect
pub mod Task
pub mod Redis
pub mod Queue
pub mod Config
pub mod Storage
pub mod Scaler
pub mod Worker
pub mod Examples
pub mod Metrics
pub mod Pool
pub mod Broker
pub mod Dashboard
pub mod Http
pub mod Instrumented
pub mod ImageProcessor
pub mod Demos
pub mod Logger

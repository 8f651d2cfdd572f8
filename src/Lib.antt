-- ===== src/Lib.antt =====
-- ErmineTQ, a task queue on SQLite: a model of its Go code and proofs about it.
--
-- Clients create tasks; workers claim them, which opens an attempt, and report how the attempt
-- ended; a scheduler queues due retries again, times out attempts without a heartbeat, and
-- creates the tasks of recurring schedules; an operator halts, resumes, cancels, retries and
-- restarts tasks. All of this goes through internal/store, where each operation that writes is
-- one SQLite transaction, run by a single goroutine. Around it stand the HTTP API with its stream
-- of events, the pools that run Go handlers, and the command that loads the settings and starts
-- the parts.
--
-- Which file is about what:
--   Prelude      shared names, Boolean tests, integers, tables of rows and their orders
--   Text         what the code uses of the packages strings, strconv, fmt and path/filepath, on
--                code points
--   Config       internal/config/config.go: the limits (Config, QueueLimit, TaskTypeLimit), Load,
--                validate and ConfigFilePath with loadConfig of cmd/server/main.go (Loading), the
--                parse of its flags (Flags), and what they come to (Limits, Precedence)
--   Store/Models   internal/store/models.go: Task, Attempt, TaskEvent, Worker, Schedule, the
--                statuses
--   Store/Db     internal/store/migrations/001_initial.sql (Db), and internal/store/store.go:
--                write, execTx, emit, and writeLoop as far as one write meets it (deliver)
--   Store/Statements   statements that the operations share (insertTaskEvent, loadRunningAttempt,
--                decrementWorker, taskStatusTx, readTaskTx)
--   Store/Tasks, Claim, Attempts, Control, Maintenance, Workers, Schedules
--                the files of internal/store with these names. An operation CamelCase of the Go
--                code is camel_case here; the function that it hands to `write` has a name in _tx
--                (end_failed for FailAttempt and TimeoutAttempt, which run the same statements)
--   Store/Operations   the calls that write, and histories of them
--   Store/Runs   how transaction bodies are reasoned about
--   Store/Steps  the contract of the store: what one committed write may do to the tables
--   Store/Refinement   the operations against the contract
--   Store/Invariant    what holds along histories of calls
--   Store/Atomicity, Store/Attempts/Backoff, Store/Attempts/Failures, Store/Control/Replies,
--   Store/Maintenance/Requeue, Store/Tasks/RoundTrip, Store/Claim/Replies
--                the write path, the delay before a retry, what a failure makes of a task, the
--                replies of the control actions, the requeuing of due retries, a created task read
--                back, and the replies of ClaimTask
--   Store/Scans    the functions that scan a row into a struct, and parseDBTime of id.go: rows of
--                tasks, attempts and events (Tasks), of workers and schedules (Parts), read back
--                (RoundTrip)
--   Store/Reads, Store/Refusals   the calls that only read, and the errors that blame the caller
--   Store/WriteLoop    internal/store/store.go: write, writeLoop and Close as events at the
--                channels of the Store, with the replies of the calls (Replies), their order
--                (Queueing) and the end of the loop (Draining)
--   Store/Migrate      internal/store/migrate.go, the rows that it records (Records), and a
--                second run (Reruns)
--   Scheduler    internal/scheduler: computeNextRun (NextRun, Intervals), and initSchedules, poll, fireDue,
--                scan and the requeuing of due retries (Ticks), with what they leave behind
--                (Sweeps, Fires), and the goroutines that run them (Loops)
--   Queue        internal/queue: registry.go (Registry), RunOnce of worker.go (RunOnce), and what
--                it has done when it returns (Outcomes, Results); NewPool and the loop of pool.go
--                (Pool, Keeps)
--   Api          internal/api: the routes and bodies (Requests), the handlers of tasks.go,
--                workers.go, pull_worker.go and schedules.go with helpers.go (Handlers), what
--                they do to the tables (Effects, Refusals) and their status codes (Statuses,
--                Controls); broker.go and the reads of events.go (Broker), and what the
--                subscribers get (Streams, Isolation)
--   System       the requests, ticks and rounds at one server, with the settings of loadConfig
--   Server       cmd/server/main.go: the subcommands as lists of calls, and their order (Order);
--                examples/go/server/main.go in the same way (Example)
--   Samples      examples/go/handlers: FileWrite and FileRead (Files), HTTPFetch and OllamaChat
--                (Web), and where they write (Confined)
--   Examples     concrete environments and histories, tests, and the theorems at inputs
--
-- How the code is translated. A program of the store is a function from a World to a reply and a
-- World (the monad M of Store/Db); a World has the tables, the events that went to the sink, and
-- counters of the answers that were drawn from the environment. A table is a list of rows in the
-- order of insertion, and each SQL statement is a function on the tables, with its WHERE, ORDER
-- BY and SET clauses as functions on rows, and PRIMARY KEY and REFERENCES as tests of the
-- inserts. What the code does not define is the record Env: ids (uuid.NewString), the clock,
-- whether the driver fails at a statement, at a BEGIN or at a COMMIT, whether SQLite enforces
-- REFERENCES, and how a write meets the end of its context and a closing store (Delivery). A
-- transaction that fails restores the tables. The parser of cron expressions is a parameter, and
-- so is the end of a context in the scheduler and in RunOnce, as a test of the world in which it
-- is asked. A handler is a function from a payload to an outcome and does not touch the store; it
-- runs at once, and the heartbeats of its time come before it.
--
-- Bounds. Times are nanoseconds since Go's zero time as natural numbers; a stored time drops the
-- fraction of a second, as the layout of fmtDBTime does, and the texts are ordered as the
-- instants are. Counts of rows and numbers of attempts are natural numbers, and the int columns
-- that can be negative (priority, limits, retry counts, concurrency, current_task_count) are
-- integers without wrap-around. The product of computeNextRun with an interval is taken in the 64
-- bits of a Duration, and no other definition wraps. An instant before Go's zero time is the zero
-- time; only an interval that reaches back past the year 1 comes to one. Only decimal_of has fuel,
-- the number of digits that it may print; all else recurses structurally.
--
-- Orders. A listing and the choice of a claim sort by the columns of their ORDER BY; rows that tie
-- come in an order that the environment gives for that statement (Env.tie), since SQLite promises
-- none. The statements without an ORDER BY give the rows in the order of the table.
--
-- The loop of a pool's goroutine is given a number of rounds, any number.
--
-- Concurrency. A committed write is one step on the tables, so the histories of Store/Operations
-- are the interleavings of all callers. In System a request, a tick and a round of a pool are
-- taken as wholes. The channels of the store and of the broker are modelled on their own, with an
-- event for each select that goes on; a select may take any case that is ready.
--
-- Rows as texts. The operations of the store read and write rows of the model. Store/Scans has
-- the columns as the driver hands them out, with the texts of times and statuses, and what the
-- scans make of them; the layouts of the package time, and the JSON of a worker's task types, are
-- a record of functions with the laws that a layout reads what it wrote (Formats, IsLawful). A
-- status that is none of the constants is no value of the model, and a scan of it is kept apart.
--
-- Sample handlers. A Go string is the list of its bytes; the decoders, the file system and the
-- network are a record of answers (Outside), and a handler gives its answer and the list of its
-- calls. The verb %d prints at most 20 digits, which a number below 2 ^ 64 does not pass.
-- Symbolic links are not followed.
--
-- Not modelled: the text of the HTTP answers and of the stream of events, JSON, the HTTP server,
-- the example program that submits tasks, the dashboard and the SDK. The three goroutines of the
-- scheduler are loops over the selects that they meet; they interleave with each other and with
-- all else tick by tick. A Delivery stands for what a closing store makes of one write; a write
-- that is never answered is not among the deliveries, and Store/WriteLoop has it as a call that
-- stays in the channel. Payloads, results and event details are texts or records that the store
-- passes on; a text that is not JSON is not refused. A glob and a read of the embedded migrations
-- do not fail.
mod Prelude
pub mod Text
pub mod Config
pub mod Store
pub mod Scheduler
pub mod Queue
pub mod Api
pub mod System
pub mod Samples
pub mod Server
mod Examples

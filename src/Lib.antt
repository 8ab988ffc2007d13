-- ===== src/Lib.antt =====
-- The chain reconciler: a program that reads the state of a perpetuals exchange from an Ethereum
-- node, exports what it reads as Prometheus gauges, and reports what looks wrong in a digest.
--
-- How the parts interact. main.go loads the configuration (internal/config/config.go) and makes a
-- list of twelve tasks (internal/reconciler). `RunAll` (internal/reconciler/reconciler.go) runs
-- each task for each configured version. A task computes storage keys (internal/chain/keys.go),
-- reads values through the client (internal/chain/client.go), sets gauges
-- (internal/metrics/exporter.go) and returns a report of lines and findings. `Render` makes one
-- text of all the reports, which internal/notify/slack.go posts once a day.
--
-- Which file models what:
--   Prelude           numbers, bytes, lists and texts that the components share
--   Chain/Geth        go-ethereum's hash and address functions, as parameters
--   Chain/Keys        internal/chain/keys.go, one definition per function and per root hash;
--                     Layout and Distinct compare it with the ABI and show that keys differ
--   Chain/Hex         `bytesToHex`, `hexNibble`, `hexToBytes` of internal/chain/client.go
--   Chain/Abi         `padUint`, `decodeAddressArray` and the decoding in the client's methods
--   Chain/Client      the methods of `Client`, over the node of an `Env`; Snapshot and Silent
--                     are about a chain that does not change, Garbled about answers that are not
--                     hexadecimal
--   Metrics           internal/metrics/exporter.go, and the events that a run emits; Values is what a
--                     gauge shows behind a list of events, Names and Apart tell gauges apart
--   Runtime           a small state monad: a run returns or panics; Keeps, Total and
--                     Exports are its rules
--   Config            internal/config/config.go; Defaults describes the defaults and
--                     the required fields, Validate and Overrides say what `Load` returns
--   Reconciler        internal/reconciler/reconciler.go; Render is the digest,
--                     Groups, Digest and Quiet compare it with a description without a map;
--                     RunAll, Clean and Exported are about `RunAll`
--   Tasks             one file per task of internal/reconciler, and the list of main.go; a round is
--                     one iteration of the loop of `Run`; Sound, Returns, Whole, Clean and Lines say
--                     what the tasks emit, when they return, what their findings mean and what the
--                     numbers in their lines are; Gauges describes, from the configuration and the
--                     answers of the node alone, which gauges a run sets and to what
--   Notify            internal/notify/slack.go, over an HTTP client that is a parameter
--   Schedule          `runOnce`, `nextDailyAt`, `parseLevel` and `versionNames` of main.go
--   Server            the registrations of `startMetricsServer` of main.go
--   Program           `main` of main.go up to the start of the daemon, and `NewClient`
--   Daemon            the goroutines of main.go as one step relation: `main`, `quickLoop`,
--                     `dailyLoop` and `startMetricsServer`; Runs, Outputs, Exports, Series, Alive,
--                     Digests, Progress, Gauges, Interval and Health are what holds of all its
--                     interleavings
--   Tests             concrete runs
--
-- State. An action is a function of the state of the world outside (`W`) and of the events emitted
-- so far. The node, the clock and the order in which Go ranges over a map are functions of the
-- world (`Env`), so that two calls may be answered differently. A panic ends the run and keeps the
-- events so far. A `map[string]string` is a list of entries.
--
-- Bounds. uint64 arithmetic has its wrap-around written out (`uint64`); `big.Int` is a natural
-- number or an integer; float64 values are an abstract type with the operations that the tasks
-- use (`Floats`), so that their rounding is not modelled. `make` panics above 2^48 bytes, the
-- address space of the platforms that Go supports. No definition needs fuel: every loop goes over
-- a list.
--
-- Interleaving. The goroutines of the daemon share the gauges, the clock and the process. A run of
-- `RunAll` is computed as a whole, against a node of which nothing is assumed but what a theorem
-- names, and its events then reach the trace one by one, between the steps of other goroutines; so
-- what two runs do to the node at once is left to the node. A call of `slack.Send` is one step.
--
-- Not modelled: the connection to the node and its deadlines (a timeout is an error that the node
-- may give), the answers of the HTTP server, the parsing of the flags, the printing and the
-- logging of main.go. The contexts that tasks are given are left out, since every task ignores them;
-- the deadline of `slack.Send` is part of its HTTP client. In `Roles.Run` the sorting of the
-- members is left out: the sorted slice is not read.
pub mod Chain
pub mod Config
pub mod Daemon
pub mod Metrics
pub mod Notify
pub mod Prelude
pub mod Program
pub mod Reconciler
pub mod Runtime
pub mod Schedule
pub mod Server
pub mod Tasks
pub mod Tests

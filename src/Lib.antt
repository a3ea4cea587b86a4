-- ===== src/Lib.antt =====
-- scx_cognis, a CPU scheduler: BPF code in the kernel decides for most tasks, and the Rust program
-- loads it, watches it, and schedules the tasks that cross into userspace. This library models the
-- Rust program (src/*.rs, paths from the repository's root).
--
-- The parts, and how they interact. BPF hands tasks and exits over through ring buffers, which
-- src/bpf.rs decodes. src/main.rs drains the tasks in batches, decides a slice, a lane and a
-- deadline for each, keeps them in three lanes (src/task_queue.rs) and dispatches them back. The
-- decision uses the recommended slice (src/ai/policy.rs), the label (src/ai/classifier.rs) and what
-- the lifetime table remembers of the pid. Off this path the housekeeping updates the slice and
-- moves expired lifetime entries into the trust table (src/ai/trust.rs), of which src/stats.rs
-- and the terminal report.
--
--   Base        Boolean tests, lists, 64-bit arithmetic and results that the parts share.
--   TaskQueue   src/task_queue.rs: `TaskRing`, `TaskQueue` (Defs), the FIFO that they implement
--               (Fifo), and the proofs (Ring, Refine, Queries).
--   Slots       the hash table of pids that src/ai/trust.rs and src/main.rs both write out: probing
--               (Probe) and the index of pids (Index).
--   Floats      the operations on f32 and f64 as a parameter, with the laws of IEEE 754 that single
--               theorems name; Floats/Fixed has fixed-point numbers for concrete runs.
--   Policy      src/ai/policy.rs: `SliceController`.
--   Classifier  src/ai/classifier.rs: `HeuristicClassifier::classify`.
--   Trust       src/ai/trust.rs: `TrustTable`, its reports (Report), the table as a map of pids
--               (Lookup, Exit, Flags), the range of the scores (Score), the watchlist.
--   Bpf         src/bpf.rs: `dequeue_task`, `dequeue_exited_pid`, `dispatch_task`, the decoding
--               (Decode, with RoundTrip and Faithful), `TopologyExport::detect` (Topology),
--               `BpfScheduler::init` (Setup), and the name that the kernel is given and that
--               `wait_for_detach` waits for (OpsName).
--   Lifetime    the lifetime table of src/main.rs, its invariant (Valid), and its lookups as a map of
--               pids (Lookup).
--   Scheduler   the `Scheduler` of src/main.rs: its state (Types), `derive_task_policy` (Features,
--               Wake, Derive), the lanes (Lanes), `drain_queued_tasks`, `dispatch_task` and
--               `schedule` (Pipeline), the housekeeping (Housekeeping), `init` (Runs); the proofs are
--               in Hold, Priority, Dispatch, Batch, Drain, Schedule, Promises, Bounds and Invariant.
--   Config      `Opts` and `BpfProfile` of src/main.rs, and what `main` does after a run (Restart).
--   Stats       src/stats.rs, the session of its server (Server), and `get_metrics`.
--   Tui         src/tui/dashboard.rs: `HistoryRing` and the latency chart (History), the numbers of
--               the other panels (Gauges), `DashboardState`, `update_tui` and `tick_tui`
--               (Dashboard), and the life of the terminal (Terminal).
--   Program     src/main.rs: the whole loop of `run` with its statistics' client and its terminal
--               (Program, with the proofs in Observers, Sound and Endings), `drop` (Session), and
--               the restart loop of `main` (MainLoop, and its exit code in ExitCode).
--
-- Conventions. A method that changes `self` returns the new value beside its result. Numbers are
-- natural numbers; a 64-bit `+` or `*` that the source does not guard wraps (`add64`, `mul64`), as
-- in the release build, and `saturating_sub` is the subtraction of natural numbers. Signed fields
-- are given by their bit patterns. Time is a sequence of readings of the clock, and the state
-- counts the readings; only the theorem on `wait_for_detach` says more of time, that a sleep lasts
-- as long as it is asked for. What the ring buffers of libbpf return is a list of
-- results to come in the state of `BpfScheduler`. The counters that BPF shares with the program are
-- read without a lock and may change at any time; the model of `run` lets BPF set them anew before
-- each turn and after the scheduling of each turn, and not inside of one call of `schedule`.
--
-- Fuel. `dispatch_all`, the dispatch loop of `schedule`, runs on fuel: `schedule` gives it the number
-- of waiting tasks, each round takes one away, and a theorem says that this is enough. The loop that
-- appends the suffix to the name of the scheduler has the length of the name's field as its fuel, and
-- `wait_for_detach` has 51 polls: the loop sleeps 10 ms between two of them and gives up after 500.
-- The drain counts its batch, and the probes of a table its `table_size` slots. The loops of `run`
-- and `main` run over what the environment does in their turns, however many these are.
--
-- Parameters. The floats, the clock, what libbpf, scx_utils and the kernel return at the set-up, and
-- the calls of crossterm are parameters; the theorems that rely on what they document name it. The
-- laws on floats hold for IEEE 754, infinities and NaN included. `disable_raw_mode` may fail, and
-- the source discards its result: the theorems on the terminal record whether it has failed.
--
-- Not modelled: the kernel side (main.bpf.c), `select_cpu` and the report of an exit, which are
-- single calls into it, the texts, colours and layout of the terminal, the printing, the logger, and
-- the scripts: they call the kernel or other libraries and keep no scheduling state.
pub mod Base
pub mod TaskQueue
pub mod Slots
pub mod Floats
pub mod Policy
pub mod Classifier
pub mod Trust
pub mod Bpf
pub mod Lifetime
pub mod Scheduler
pub mod Config
pub mod Stats
pub mod Tui
pub mod Program

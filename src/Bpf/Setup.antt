-- ===== src/Bpf/Setup.antt =====
-- `BpfScheduler::init` of src/bpf.rs: the read-only data and the operations that the BPF program is
-- given, the calls that may fail, and what is left attached and locked. What the calls of libbpf and
-- of the kernel return is a parameter.
pub mod Failure
pub mod Tests
use Prim.Native.Nat.{bit_or}
use scx_cognis.Base.{
  ℕ, ◌^◌, Bool, true, false, not, ◌&&◌, leb, Option, none, some, List, [], ◌∷◌, if◌then◌else◌,
  Result, ok, err,
}
use scx_cognis.Bpf.OpsName.{set_scx_ops_name}
use scx_cognis.Bpf.Topology.{Topology, TopologyExport, detect}
use scx_cognis.Config.{BpfProfile, is_server}

-- The arguments of `init` that it uses itself.
pub record InitArgs : Type 0 where
  pub exit_dump_len : ℕ
  pub is_partial : Bool
  pub userspace_fallback : Bool
  pub is_debug : Bool
  pub builtin_idle : Bool
  pub profile : BpfProfile
  pub name : List ℕ

-- What the calls return: each test says that its call succeeds, or that a map is there. The flags
-- are those of the running kernel, the suffix is that of `scx_utils`, the name field the one that the
-- opened object has. `use_sched_ext` is the `i32` that `pthread_setschedparam` returns, by its bit
-- pattern: 0, or an error number, which is positive.
pub record InitCalls : Type 0 where
  pub opens : Bool
  pub has_rodata : Bool
  pub topology : Result Topology ℕ
  pub enq_last : ℕ
  pub allow_queued_wakeup : ℕ
  pub switch_partial : ℕ
  pub process_id : ℕ
  pub version_suffix : List ℕ
  pub name_field : List ℕ
  pub loads : Bool
  pub has_bss : Bool
  pub attaches : Bool
  pub adds_queued : Bool
  pub builds_queued : Bool
  pub adds_task_exits : Bool
  pub builds_task_exits : Bool
  pub makes_user_ring : Bool
  pub use_sched_ext : ℕ

-- The fields of `rodata_data` that are written.
pub record Rodata : Type 0 where
  pub topo : TopologyExport
  pub usersched_enabled : Bool
  pub usersched_pid : ℕ
  pub builtin_idle : Bool
  pub slice_ns : ℕ
  pub slice_min_ns : ℕ
  pub slice_lag_ns : ℕ
  pub no_wake_sync : Bool
  pub sticky_tasks : Bool
  pub server_mode : Bool
  pub is_debug : Bool

-- The fields of the operations that are written.
pub record Ops : Type 0 where
  pub flags : ℕ
  pub exit_dump_len : ℕ
  pub name : List ℕ

pub data InitError : Type 0 where
  open_failed missing_rodata load_failed missing_bss attach_failed : InitError
  add_queued_failed build_queued_failed add_task_exits_failed build_task_exits_failed : InitError
  user_ring_failed setscheduler_failed : InitError

-- What `init` leaves: whether the operations are attached and the memory is locked, and the result.
-- The link that an error drops detaches them.
pub record Initialised : Type 0 where
  pub is_attached : Bool
  pub is_locked : Bool
  pub result : Result (Rodata × Ops) InitError

abbrev pub rodata_of : InitArgs → InitCalls → TopologyExport → Rodata
rodata_of args calls topo = record {
  topo = topo;
  usersched_enabled = args.userspace_fallback;
  usersched_pid = if args.userspace_fallback then calls.process_id else 0;
  builtin_idle = args.builtin_idle;
  slice_ns = args.profile.slice_ns;
  slice_min_ns = args.profile.slice_min_ns;
  slice_lag_ns = args.profile.slice_lag_ns;
  no_wake_sync = args.profile.no_wake_sync;
  sticky_tasks = args.profile.sticky_tasks;
  server_mode = is_server args.profile;
  is_debug = args.is_debug;
}

abbrev pub ops_of : InitArgs → InitCalls → Ops
ops_of args calls =
    let flags = bit_or calls.enq_last calls.allow_queued_wakeup in
    record {
      flags = if args.is_partial then bit_or flags calls.switch_partial else flags;
      exit_dump_len = args.exit_dump_len;
      name = (set_scx_ops_name calls.version_suffix calls.name_field args.name).0;
    }

abbrev pub failed : InitError → Initialised
failed e = record { is_attached = false; is_locked = false; result = err e }

-- `err < 0` of an `i32`.
abbrev pub is_negative : ℕ → Bool
is_negative code = leb (2 ^ 31) code

-- The end of `init`, from the locking of the memory on; `use_sched_ext` is called for a partial
-- switch only.
abbrev pub lock_and_finish : InitArgs → InitCalls → Rodata → Initialised
lock_and_finish args calls rodata =
    if args.is_partial && is_negative calls.use_sched_ext
    then record { is_attached = false; is_locked = true; result = err setscheduler_failed }
    else record { is_attached = true; is_locked = true; result = ok (rodata, ops_of args calls) }

-- The ring buffers.
abbrev pub build_rings : InitArgs → InitCalls → Rodata → Initialised
build_rings args calls rodata =
    if not calls.adds_queued
    then failed add_queued_failed
    else if not calls.builds_queued
    then failed build_queued_failed
    else if not calls.adds_task_exits
    then failed add_task_exits_failed
    else if not calls.builds_task_exits
    then failed build_task_exits_failed
    else if not calls.makes_user_ring
    then failed user_ring_failed
    else lock_and_finish args calls rodata

abbrev pub load_and_attach : InitArgs → InitCalls → Rodata → Initialised
load_and_attach args calls rodata =
    if not calls.loads
    then failed load_failed
    else if not calls.has_bss
    then failed missing_bss
    else if not calls.attaches
    then failed attach_failed
    else build_rings args calls rodata

abbrev pub with_topology : InitArgs → InitCalls → Option TopologyExport → Option Initialised
with_topology args calls none = none
with_topology args calls (some topo) = some (load_and_attach args calls (rodata_of args calls topo))

-- `init`; `none` is the panic of `detect`.
unfoldable pub init : InitArgs → InitCalls → Option Initialised
init args calls =
    if not calls.opens
    then some (failed open_failed)
    else if not calls.has_rodata
    then some (failed missing_rodata)
    else with_topology args calls (detect calls.topology)

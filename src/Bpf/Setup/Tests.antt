-- ===== src/Bpf/Setup/Tests.antt =====
-- A set-up of src/bpf.rs whose user ring buffer cannot be made.
use scx_cognis.Base.{◌≡◌, refl, true, false, some, [], ◌∷◌, replicate, err}
use scx_cognis.Bpf.Setup.{InitArgs, InitCalls, Initialised, init, rodata_of, ops_of}
use scx_cognis.Bpf.Setup.Failure.{Agrees, steps, init-first_error}
use scx_cognis.Bpf.Topology.{default_export, detect}
use scx_cognis.Config.{desktop}

abbrev args : InitArgs
args = record {
  exit_dump_len = 0;
  is_partial = true;
  userspace_fallback = true;
  is_debug = false;
  builtin_idle = true;
  profile = record {
    mode = desktop;
    slice_ns = 1_000_000;
    slice_min_ns = 250_000;
    slice_lag_ns = 40_000_000;
    no_wake_sync = false;
    sticky_tasks = true;
  };
  name = 99 ∷ 111 ∷ 103 ∷ [];
}

abbrev no_ring : InitCalls
no_ring = record {
  opens = true;
  has_rodata = true;
  topology = err 5;
  enq_last = 2;
  allow_queued_wakeup = 32;
  switch_partial = 8;
  process_id = 77;
  version_suffix = 95 ∷ 49 ∷ [];
  name_field = replicate 16 0;
  loads = true;
  has_bss = true;
  attaches = true;
  adds_queued = true;
  builds_queued = true;
  adds_task_exits = true;
  builds_task_exits = true;
  makes_user_ring = false;
  use_sched_ext = 1;
}

no_topology : detect no_ring.topology ≡ some default_export
unfolding detect
no_topology = refl

init-first_error_example :
    (x : Initialised) × (init args no_ring ≡ some x)
    × Agrees x (steps args no_ring) (rodata_of args no_ring default_export, ops_of args no_ring)
init-first_error_example = init-first_error args no_ring default_export no_topology

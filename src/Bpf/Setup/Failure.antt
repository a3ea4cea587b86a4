-- ===== src/Bpf/Setup/Failure.antt =====
-- How `BpfScheduler::init` of src/bpf.rs fails.
use scx_cognis.Base.{
  ◌≡◌, refl, Bool, true, false, not, ◌&&◌, Option, none, some, List, [], ◌∷◌, if◌then◌else◌, Result,
  ok, err,
}
use scx_cognis.Bpf.Setup.{
  is_negative, init, InitArgs, InitCalls, Rodata, Ops, InitError, Initialised, rodata_of, ops_of,
  failed, build_rings, load_and_attach, open_failed, missing_rodata, load_failed, missing_bss,
  attach_failed, add_queued_failed, build_queued_failed, add_task_exits_failed,
  build_task_exits_failed, user_ring_failed, setscheduler_failed,
}
use scx_cognis.Bpf.Topology.{TopologyExport, detect}

-- The calls in their order, each with whether the source takes it as a success and the error of its
-- failure. The last, the change of the scheduling class for a partial switch, fails on a negative
-- result only.
abbrev pub steps : InitArgs → InitCalls → List (Bool × InitError)
steps args calls =
    (calls.opens, open_failed)
    ∷ (calls.has_rodata, missing_rodata)
    ∷ (calls.loads, load_failed)
    ∷ (calls.has_bss, missing_bss)
    ∷ (calls.attaches, attach_failed)
    ∷ (calls.adds_queued, add_queued_failed)
    ∷ (calls.builds_queued, build_queued_failed)
    ∷ (calls.adds_task_exits, add_task_exits_failed)
    ∷ (calls.builds_task_exits, build_task_exits_failed)
    ∷ (calls.makes_user_ring, user_ring_failed)
    ∷ (not (args.is_partial && is_negative calls.use_sched_ext), setscheduler_failed)
    ∷ []

-- The error of the first step that fails.
abbrev pub first_error : List (Bool × InitError) → Option InitError
first_error [] = none
first_error ((b, e) ∷ rest) = if b then first_error rest else some e

abbrev pub result_of : Option InitError → Rodata × Ops → Result (Rodata × Ops) InitError
result_of none r = ok r
result_of (some e) r = err e

abbrev pub is_ok : Result (Rodata × Ops) InitError → Bool
is_ok (ok r) = true
is_ok (err e) = false

-- What `init` leaves agrees with steps: the result is the error of the first that fails, or the data
-- when none does, and the operations are attached exactly then.
pub record Agrees (x : Initialised) (ss : List (Bool × InitError)) (r : Rodata × Ops) : Type 0 where
  pub result : x.result ≡ result_of (first_error ss) r
  pub attached : x.is_attached ≡ is_ok x.result

step-Agrees :
    (b : Bool) (e : InitError) (x : Initialised) (ss : List (Bool × InitError)) (r : Rodata × Ops)
    → Agrees x ss r
    → Agrees (if not b then failed e else x) ((b, e) ∷ ss) r
step-Agrees true e x ss r h = record { result = h.result; attached = h.attached }
step-Agrees false e x ss r h = record { result = refl; attached = refl }

last_step : Bool → Rodata × Ops → Initialised
last_step fails r =
    if fails
    then record { is_attached = false; is_locked = true; result = err setscheduler_failed }
    else record { is_attached = true; is_locked = true; result = ok r }

last_step-Agrees :
    (fails : Bool) (r : Rodata × Ops)
    → Agrees (last_step fails r) ((not fails, setscheduler_failed) ∷ []) r
unfolding last_step
last_step-Agrees false r = record { result = refl; attached = refl }
last_step-Agrees true r = record { result = refl; attached = refl }

build_rings-Agrees :
    (args : InitArgs) (c : InitCalls) (r : Rodata)
    → Agrees
        (build_rings args c r)
        ((c.adds_queued, add_queued_failed)
          ∷ (c.builds_queued, build_queued_failed)
          ∷ (c.adds_task_exits, add_task_exits_failed)
          ∷ (c.builds_task_exits, build_task_exits_failed)
          ∷ (c.makes_user_ring, user_ring_failed)
          ∷ (not (args.is_partial && is_negative c.use_sched_ext), setscheduler_failed)
          ∷ [])
        (r, ops_of args c)
unfolding last_step
build_rings-Agrees args c r = step-Agrees c.adds_queued add_queued_failed _ _ _ (
    step-Agrees c.builds_queued build_queued_failed _ _ _ (
      step-Agrees c.adds_task_exits add_task_exits_failed _ _ _ (
        step-Agrees c.builds_task_exits build_task_exits_failed _ _ _ (
          step-Agrees c.makes_user_ring user_ring_failed _ _ _ (
            last_step-Agrees (args.is_partial && is_negative c.use_sched_ext)
              (r, ops_of args c))))))

opened :
    (b d : Bool) (x : Initialised)
    → (if not b
        then some (failed open_failed)
        else if not d
        then some (failed missing_rodata)
        else some x)
      ≡ some (if not b then failed open_failed else if not d then failed missing_rodata else x)
opened true true x = refl
opened true false x = refl
opened false d x = refl

init-opened :
    (args : InitArgs) (c : InitCalls) (topo : TopologyExport)
    → detect c.topology ≡ some topo
    → init args c
      ≡ some (
          if not c.opens
          then failed open_failed
          else if not c.has_rodata
          then failed missing_rodata
          else load_and_attach args c (rodata_of args c topo))
unfolding init
init-opened args c topo e = rw e (opened c.opens c.has_rodata _)

-- Where `detect` returns, `init` fails with the error of the first of its calls that fails, in the
-- order of the source, and succeeds with the data that it wrote when none does, where the change of
-- the scheduling class, tried for a partial switch only, counts as failed exactly when its result is
-- negative; the operations stay attached exactly when `init` succeeds, so also not when a call
-- fails after they were attached.
pub init-first_error :
    (args : InitArgs) (c : InitCalls) (topo : TopologyExport)
    → detect c.topology ≡ some topo
    → (x : Initialised) × (init args c ≡ some x)
      × Agrees x (steps args c) (rodata_of args c topo, ops_of args c)
init-first_error args c topo e =
    let r = rodata_of args c topo in
    (
      _,
      init-opened args c topo e,
      step-Agrees c.opens open_failed _ _ _ (
          step-Agrees c.has_rodata missing_rodata _ _ _ (
            step-Agrees c.loads load_failed _ _ _ (
              step-Agrees c.has_bss missing_bss _ _ _
                (step-Agrees c.attaches attach_failed _ _ _ (build_rings-Agrees args c r))))),
    )

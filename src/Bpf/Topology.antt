-- ===== src/Bpf/Topology.antt =====
-- `TopologyExport::detect` of src/bpf.rs: the indices of LLCs and nodes that the BPF program is
-- given. `Topology` of scx_utils is a parameter: the fields that the code reads, its maps as lists
-- in the order of their keys.
pub mod Remap
pub mod Placing
pub mod Export
pub mod Faithful
pub mod Tests
use scx_cognis.Base.{
  ℕ, ◌+◌, ◌-◌, ◌^◌, min, max, Bool, true, false, ◌||◌, Option, none, some, List, [], ◌∷◌, ltb, leb,
  ◌==◌, if◌then◌else◌, length, set, replicate, Result, ok, err,
}

abbrev pub max_topo_cpus : ℕ
max_topo_cpus = 1024

abbrev pub max_llcs : ℕ
max_llcs = 64

abbrev pub max_nodes : ℕ
max_nodes = 64

pub record Cpu : Type 0 where
  pub llc_id : ℕ
  pub node_id : ℕ

pub record Topology : Type 0 where
  pub smt_enabled : Bool
  pub all_llcs : List ℕ
  pub nodes : List ℕ
  pub all_cpus : List (ℕ × Cpu)

pub record TopologyExport : Type 0 where
  pub smt_enabled : Bool
  pub nr_llcs : ℕ
  pub nr_nodes : ℕ
  pub cpu_llc_idx_map : List ℕ
  pub cpu_node_idx_map : List ℕ
  pub llc_node_idx_map : List ℕ

-- `TopologyExport::default`
abbrev pub default_export : TopologyExport
default_export = record {
  smt_enabled = false;
  nr_llcs = 1;
  nr_nodes = 1;
  cpu_llc_idx_map = replicate max_topo_cpus 0;
  cpu_node_idx_map = replicate max_topo_cpus 0;
  llc_node_idx_map = replicate max_llcs 0;
}

-- `node_remap` with `next_node`, and `llc_remap` with `next_llc`.
pub record Indices : Type 0 where
  pub remap : List (ℕ × ℕ)
  pub next : ℕ

abbrev pub no_indices : Indices
no_indices = record { remap = []; next = 0 }

-- `BTreeMap::get`
abbrev pub index_of : List (ℕ × ℕ) → ℕ → Option ℕ
index_of [] id = none
index_of ((i, k) ∷ remap) id = if i == id then some k else index_of remap id

-- The index of an id that has one, or the next one, a saturating `u16`.
abbrev pub given : Indices → ℕ → Option ℕ → ℕ × Indices
given r id (some k) = (k, r)
given r id none =
    (r.next, record { remap = (id, r.next) ∷ r.remap; next = min (r.next + 1) (2 ^ 16 - 1) })

unfoldable pub assign : Indices → ℕ → ℕ × Indices
assign r id = given r id (index_of r.remap id)

-- The locals of the loop.
pub record Exporting : Type 0 where
  pub export : TopologyExport
  pub nodes : Indices
  pub llcs : Indices

-- The body of the loop; `none` is the panic of an index out of bounds, which only the map of the
-- LLCs can meet, since the id of the CPU is tested.
unfoldable pub export_cpu : Exporting → ℕ → Cpu → Option Exporting
export_cpu s cpu_id cpu =
    let (node_idx, nodes) = assign s.nodes cpu.node_id in
    let (llc_idx, llcs) = assign s.llcs cpu.llc_id in
    let e = s.export in
    if leb max_topo_cpus cpu_id
    then some s
    else if ltb llc_idx (length e.llc_node_idx_map)
    then some (record {
      nodes = nodes;
      llcs = llcs;
      export = record e {
        cpu_node_idx_map = set e.cpu_node_idx_map cpu_id node_idx;
        cpu_llc_idx_map = set e.cpu_llc_idx_map cpu_id llc_idx;
        llc_node_idx_map = set e.llc_node_idx_map llc_idx node_idx;
      };
    })
    else none

unfoldable pub export_cpus : Exporting → List (ℕ × Cpu) → Option Exporting
export_cpus s [] = some s
export_cpus s ((cpu_id, cpu) ∷ cpus) = elim (export_cpu s cpu_id cpu) [
  | none ↦ none
  | some s' ↦ export_cpus s' cpus
]

-- The end of `detect`, after the loop.
abbrev pub finish : Option Exporting → Option TopologyExport
finish none = none
finish (some s) =
    some (record s.export { nr_nodes = max s.nodes.next 1; nr_llcs = max s.llcs.next 1 })

-- The topologies that fall back to one LLC and one node.
abbrev pub is_unsupported : Topology → Bool
is_unsupported topo =
    length topo.all_llcs == 0
    || (ltb max_llcs (length topo.all_llcs) || ltb max_nodes (length topo.nodes))

-- `detect`, with what the probe of the topology returned.
unfoldable pub detect : Result Topology ℕ → Option TopologyExport
detect (err e) = some default_export
detect (ok topo) =
    let export : TopologyExport = record default_export { smt_enabled = topo.smt_enabled } in
    if is_unsupported topo
    then some export
    else finish (
        export_cpus (record { export = export; nodes = no_indices; llcs = no_indices })
          topo.all_cpus)

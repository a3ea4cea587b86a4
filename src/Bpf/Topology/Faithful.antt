-- ===== src/Bpf/Topology/Faithful.antt =====
-- What the maps that `TopologyExport::detect` of src/bpf.rs returns say of the topology.
use scx_cognis.Base.{
  ℕ, ◌<◌, ◌≡◌, refl, sym, max, Bool, false, ◌↔◌, some, List, [], ◌∷◌, arith, get_or, inl, inr, ok,
  length-replicate,
}
use scx_cognis.Bpf.Topology.{
  Cpu, Topology, TopologyExport, Indices, Exporting, index_of, export_cpus, is_unsupported, detect,
  max_topo_cpus, max_llcs, no_indices, default_export,
}
use scx_cognis.Bpf.Topology.Remap.{IsRemap}
use scx_cognis.Bpf.Topology.Placing.{cpu_at, AreCpus, IsPlaced, IsExporting}
use scx_cognis.Bpf.Topology.Export.{cpu_at-cases, export_cpus-Exported}

-- What the maps of an export say of the CPUs below 1024: the same index for the same LLC, and for
-- the same node, below the counts, and the node of an LLC is that of its CPUs.
pub record IsFaithful (e : TopologyExport) (cpus : List (ℕ × Cpu)) : Type 0 where
  pub llc_index :
      (i j : ℕ) (c d : Cpu)
      → cpu_at cpus i ≡ some c
      → cpu_at cpus j ≡ some d
      → i < max_topo_cpus
      → j < max_topo_cpus
      → (get_or e.cpu_llc_idx_map i 0 ≡ get_or e.cpu_llc_idx_map j 0) ↔ (c.llc_id ≡ d.llc_id)
  pub node_index :
      (i j : ℕ) (c d : Cpu)
      → cpu_at cpus i ≡ some c
      → cpu_at cpus j ≡ some d
      → i < max_topo_cpus
      → j < max_topo_cpus
      → (get_or e.cpu_node_idx_map i 0 ≡ get_or e.cpu_node_idx_map j 0) ↔ (c.node_id ≡ d.node_id)
  pub llc_bound :
      (i : ℕ) (c : Cpu)
      → cpu_at cpus i ≡ some c
      → i < max_topo_cpus
      → get_or e.cpu_llc_idx_map i 0 < e.nr_llcs
  pub node_bound :
      (i : ℕ) (c : Cpu)
      → cpu_at cpus i ≡ some c
      → i < max_topo_cpus
      → get_or e.cpu_node_idx_map i 0 < e.nr_nodes
  pub llc_node :
      (i : ℕ) (c : Cpu)
      → cpu_at cpus i ≡ some c
      → i < max_topo_cpus
      → get_or e.llc_node_idx_map (get_or e.cpu_llc_idx_map i 0) 0 ≡ get_or e.cpu_node_idx_map i 0

-- Two ids have the same index exactly when they are the same.
same_index :
    (r : Indices) (all : List ℕ) (a b k l : ℕ)
    → IsRemap r all
    → index_of r.remap a ≡ some k
    → index_of r.remap b ≡ some l
    → (k ≡ l) ↔ (a ≡ b)
same_index r all a b k l v e f = (λ h. v.one_id a b k e (rw h f), λ h. cc)

node_of-cpu_at :
    (node_of : ℕ → ℕ) (llcs nodes : List ℕ) (cpus : List (ℕ × Cpu)) (i : ℕ) (c : Cpu)
    → AreCpus node_of llcs nodes cpus
    → cpu_at cpus i ≡ some c
    → c.node_id ≡ node_of c.llc_id
node_of-cpu_at node_of llcs nodes [] i c a e = absurd (ground arith)
node_of-cpu_at node_of llcs nodes ((id, cpu) ∷ cpus) i c (new, hl, hn, same, a) e =
    elim (cpu_at-cases id cpu cpus i c e) [
      | inl (at, is) ↦ rw (sym is) same
      | inr (ne, later) ↦ node_of-cpu_at node_of llcs nodes cpus i c a later
    ]

abbrev finished : Exporting → TopologyExport
finished s = record s.export { nr_nodes = max s.nodes.next 1; nr_llcs = max s.llcs.next 1 }

finished-IsFaithful :
    (node_of : ℕ → ℕ) (llcs nodes : List ℕ) (s : Exporting) (cpus : List (ℕ × Cpu))
    → IsExporting node_of llcs nodes s
    → AreCpus node_of llcs nodes cpus
    → ((i : ℕ) (c : Cpu) → cpu_at cpus i ≡ some c → i < max_topo_cpus → IsPlaced s i c)
    → IsFaithful (finished s) cpus
finished-IsFaithful node_of llcs nodes s cpus v a p =
    let e = s.export in
    record {
      llc_index = λ i j c d ei ej hi hj.
          same_index s.llcs llcs c.llc_id d.llc_id (get_or e.cpu_llc_idx_map i 0)
            (get_or e.cpu_llc_idx_map j 0) v.llcs (p i c ei hi).llc (p j d ej hj).llc;
      node_index = λ i j c d ei ej hi hj.
          same_index s.nodes nodes c.node_id d.node_id (get_or e.cpu_node_idx_map i 0)
            (get_or e.cpu_node_idx_map j 0) v.nodes (p i c ei hi).node (p j d ej hj).node;
      llc_bound = λ i c ei hi.
          omega (arith, v.llcs.below c.llc_id (get_or e.cpu_llc_idx_map i 0) (p i c ei hi).llc);
      node_bound = λ i c ei hi.
          omega (arith, v.nodes.below c.node_id (get_or e.cpu_node_idx_map i 0) (p i c ei hi).node);
      llc_node = λ i c ei hi.
          let k = get_or e.cpu_llc_idx_map i 0 in
          let by_llc = v.node_of_llc c.llc_id k (p i c ei hi).llc in
          let by_cpu = (p i c ei hi).node in
          let same = node_of-cpu_at node_of llcs nodes cpus i c a ei in cc;
    }

start : Bool → Exporting
start smt = record {
  export = record default_export { smt_enabled = smt };
  nodes = no_indices;
  llcs = no_indices;
}

no_indices-IsRemap : (all : List ℕ) → IsRemap no_indices all
no_indices-IsRemap all = record {
  counted = refl;
  distinct = tt;
  known = tt;
  below = λ a k e. absurd (ground arith);
  one_id = λ a b k e f. absurd (ground arith);
}

start-IsExporting :
    (smt : Bool) (node_of : ℕ → ℕ) (llcs nodes : List ℕ)
    → IsExporting node_of llcs nodes (start smt)
unfolding start
start-IsExporting smt node_of llcs nodes = record {
  llcs = no_indices-IsRemap llcs;
  nodes = no_indices-IsRemap nodes;
  cpu_llcs = length-replicate {A = ℕ} max_topo_cpus 0;
  cpu_nodes = length-replicate {A = ℕ} max_topo_cpus 0;
  llc_nodes = length-replicate {A = ℕ} max_llcs 0;
  node_of_llc = λ l k e. absurd (ground arith);
}

detect-finished :
    (topo : Topology) (s : Exporting)
    → is_unsupported topo ≡ false
    → export_cpus (start topo.smt_enabled) topo.all_cpus ≡ some s
    → detect (ok topo) ≡ some (finished s)
unfolding detect start
detect-finished topo s h e = rw (h, e) refl

-- When a topology has at least one LLC and at most 64 LLCs and 64 nodes, and each CPU is listed
-- once, with a listed LLC and a listed node and one node for each LLC, then `detect` returns, no
-- index being out of bounds, and of its CPUs below 1024 the maps say: the LLC index of two is the
-- same exactly when the LLC is, the node index exactly when the node is, the indices are below
-- `nr_llcs` and `nr_nodes`, and the node of a CPU's LLC index is the CPU's node index.
pub detect-IsFaithful :
    (topo : Topology) (node_of : ℕ → ℕ)
    → is_unsupported topo ≡ false
    → AreCpus node_of topo.all_llcs topo.nodes topo.all_cpus
    → (e : TopologyExport) × (detect (ok topo) ≡ some e) × IsFaithful e topo.all_cpus
detect-IsFaithful topo node_of h a =
    let run =
      export_cpus-Exported node_of topo.all_llcs topo.nodes (start topo.smt_enabled) topo.all_cpus
        (start-IsExporting topo.smt_enabled node_of topo.all_llcs topo.nodes) a (ground arith)
        (ground arith) in
    (
      finished run.result,
      detect-finished topo run.result h run.runs,
      finished-IsFaithful node_of topo.all_llcs topo.nodes run.result topo.all_cpus run.valid a
          run.placed,
    )

-- ===== src/Bpf/Topology/Placing.antt =====
-- One CPU of the loop of `TopologyExport::detect` of src/bpf.rs: what its maps then say of the
-- topology.
use scx_cognis.Base.{
  ℕ, ◌≤◌, ◌<◌, ◌≡◌, sym, ap, ◌∙◌, true, Option, none, some, List, [], ◌∷◌, arith, ◌==◌,
  if◌then◌else◌, length, set, get_or, Bool-cases, inl, inr, get_or-set_self, get_or-set_ne,
  length-set, ==→eq,
}
use scx_cognis.Bpf.Topology.{
  Cpu, Indices, Exporting, index_of, assign, export_cpu, max_topo_cpus, max_llcs,
}
use scx_cognis.Bpf.Topology.Remap.{elem, IsRemap, Assigned}

-- The CPU with an id.
abbrev pub cpu_at : List (ℕ × Cpu) → ℕ → Option Cpu
cpu_at [] i = none
cpu_at ((id, cpu) ∷ cpus) i = if i == id then some cpu else cpu_at cpus i

-- The CPUs of a topology: ids once, LLCs and nodes that the topology lists, each LLC in one node.
abbrev pub AreCpus : (ℕ → ℕ) → List ℕ → List ℕ → List (ℕ × Cpu) → Type 0
AreCpus node_of llcs nodes [] = Unit
AreCpus node_of llcs nodes ((id, cpu) ∷ cpus) =
    (cpu_at cpus id ≡ none)
    × (elem cpu.llc_id llcs ≡ true)
    × (elem cpu.node_id nodes ≡ true)
    × (cpu.node_id ≡ node_of cpu.llc_id)
    × AreCpus node_of llcs nodes cpus

-- The indices of the CPU in the maps are those of its LLC and its node.
pub record IsPlaced (s : Exporting) (i : ℕ) (cpu : Cpu) : Type 0 where
  pub llc : index_of s.llcs.remap cpu.llc_id ≡ some (get_or s.export.cpu_llc_idx_map i 0)
  pub node : index_of s.nodes.remap cpu.node_id ≡ some (get_or s.export.cpu_node_idx_map i 0)

-- What a run over `cpus` leaves as it was.
pub record IsKept (s s' : Exporting) (cpus : List (ℕ × Cpu)) : Type 0 where
  pub llc : (a k : ℕ) → index_of s.llcs.remap a ≡ some k → index_of s'.llcs.remap a ≡ some k
  pub node : (a k : ℕ) → index_of s.nodes.remap a ≡ some k → index_of s'.nodes.remap a ≡ some k
  pub cpu_llc :
      (i : ℕ)
      → cpu_at cpus i ≡ none
      → get_or s'.export.cpu_llc_idx_map i 0 ≡ get_or s.export.cpu_llc_idx_map i 0
  pub cpu_node :
      (i : ℕ)
      → cpu_at cpus i ≡ none
      → get_or s'.export.cpu_node_idx_map i 0 ≡ get_or s.export.cpu_node_idx_map i 0

pub IsPlaced-kept :
    (s s' : Exporting) (cpus : List (ℕ × Cpu)) (i : ℕ) (cpu : Cpu)
    → IsKept s s' cpus
    → cpu_at cpus i ≡ none
    → IsPlaced s i cpu
    → IsPlaced s' i cpu
IsPlaced-kept s s' cpus i cpu k a p = record {
  llc = rw (k.cpu_llc i a) (k.llc cpu.llc_id (get_or s.export.cpu_llc_idx_map i 0) p.llc);
  node = rw (k.cpu_node i a) (k.node cpu.node_id (get_or s.export.cpu_node_idx_map i 0) p.node);
}

-- The state after a CPU whose indices are `n` and `l`.
abbrev pub placing : Exporting → ℕ → (ℕ × Indices) → (ℕ × Indices) → Exporting
placing s id (node_idx, nodes) (llc_idx, llcs) = record {
  nodes = nodes;
  llcs = llcs;
  export = record s.export {
    cpu_node_idx_map = set s.export.cpu_node_idx_map id node_idx;
    cpu_llc_idx_map = set s.export.cpu_llc_idx_map id llc_idx;
    llc_node_idx_map = set s.export.llc_node_idx_map llc_idx node_idx;
  };
}

pub export_cpu-placing :
    (s : Exporting) (id : ℕ) (cpu : Cpu)
    → id < max_topo_cpus
    → (assign s.llcs cpu.llc_id).0 < length s.export.llc_node_idx_map
    → export_cpu s id cpu
      ≡ some (placing s id (assign s.nodes cpu.node_id) (assign s.llcs cpu.llc_id))
unfolding export_cpu
export_cpu-placing s id cpu h k = ground arith

pub export_cpu-skip :
    (s : Exporting) (id : ℕ) (cpu : Cpu) → max_topo_cpus ≤ id → export_cpu s id cpu ≡ some s
unfolding export_cpu
export_cpu-skip s id cpu h = ground arith

module _ (node_of : ℕ → ℕ) (all_llcs all_nodes : List ℕ) where
  pub record IsExporting (s : Exporting) : Type 0 where
    pub llcs : IsRemap s.llcs all_llcs
    pub nodes : IsRemap s.nodes all_nodes
    pub cpu_llcs : length s.export.cpu_llc_idx_map ≡ max_topo_cpus
    pub cpu_nodes : length s.export.cpu_node_idx_map ≡ max_topo_cpus
    pub llc_nodes : length s.export.llc_node_idx_map ≡ max_llcs
    pub node_of_llc :
        (l k : ℕ)
        → index_of s.llcs.remap l ≡ some k
        → index_of s.nodes.remap (node_of l) ≡ some (get_or s.export.llc_node_idx_map k 0)

  pub placing-IsPlaced :
      (s : Exporting) (id : ℕ) (cpu : Cpu) (n l : ℕ × Indices)
      → IsExporting s
      → Assigned s.nodes all_nodes cpu.node_id n
      → Assigned s.llcs all_llcs cpu.llc_id l
      → id < max_topo_cpus
      → IsPlaced (placing s id n l) id cpu
  placing-IsPlaced s id cpu n l v an al h = record {
    llc =
        rw (get_or-set_self s.export.cpu_llc_idx_map id l.0 0 (omega (arith, v.cpu_llcs))) al.found;
    node =
        rw (get_or-set_self s.export.cpu_node_idx_map id n.0 0 (omega (arith, v.cpu_nodes)))
          an.found;
  }

  pub placing-IsKept :
      (s : Exporting) (id : ℕ) (cpu : Cpu) (n l : ℕ × Indices)
      → Assigned s.nodes all_nodes cpu.node_id n
      → Assigned s.llcs all_llcs cpu.llc_id l
      → IsKept s (placing s id n l) ((id, cpu) ∷ [])
  placing-IsKept s id cpu n l an al = record {
    llc = al.kept;
    node = an.kept;
    cpu_llc = λ i e. get_or-set_ne s.export.cpu_llc_idx_map id i l.0 0 (ground arith);
    cpu_node = λ i e. get_or-set_ne s.export.cpu_node_idx_map id i n.0 0 (ground arith);
  }

  -- The map of the LLCs after a CPU: at the LLC's index its node's, elsewhere as it was.
  placing-node_of_llc :
      (s : Exporting) (id : ℕ) (cpu : Cpu) (n l : ℕ × Indices)
      → IsExporting s
      → Assigned s.nodes all_nodes cpu.node_id n
      → Assigned s.llcs all_llcs cpu.llc_id l
      → cpu.node_id ≡ node_of cpu.llc_id
      → l.0 < max_llcs
      → (a k : ℕ) → index_of l.1.remap a ≡ some k
      → index_of n.1.remap (node_of a) ≡ some (get_or (set s.export.llc_node_idx_map l.0 n.0) k 0)
  placing-node_of_llc s id cpu n l v an al same small a k e = elim (Bool-cases (l.0 == k)) [
    | inl same_k ↦
        let here : l.0 ≡ k = ==→eq l.0 k same_k in
        let found : index_of l.1.remap cpu.llc_id ≡ some k = al.found ∙ ap some here in
        let one : a ≡ cpu.llc_id = al.valid.one_id a cpu.llc_id k e found in
        let stored =
          get_or-set_self s.export.llc_node_idx_map l.0 n.0 0 (omega (arith, v.llc_nodes)) in
        rw (one, sym same, sym here, stored) an.found
    | inr other_k ↦
        let other = get_or-set_ne s.export.llc_node_idx_map l.0 k n.0 0 (ground arith) in
        elim (al.fresh_or_old a k e) [
          | inl fresh ↦ absurd (ground arith)
          | inr old ↦
              rw other
                (an.kept (node_of a) (get_or s.export.llc_node_idx_map k 0) (v.node_of_llc a k old))
        ]
  ]

  pub placing-IsExporting :
      (s : Exporting) (id : ℕ) (cpu : Cpu) (n l : ℕ × Indices)
      → IsExporting s
      → Assigned s.nodes all_nodes cpu.node_id n
      → Assigned s.llcs all_llcs cpu.llc_id l
      → cpu.node_id ≡ node_of cpu.llc_id
      → l.0 < max_llcs
      → IsExporting (placing s id n l)
  placing-IsExporting s id cpu n l v an al same small = record {
    llcs = al.valid;
    nodes = an.valid;
    cpu_llcs = length-set s.export.cpu_llc_idx_map id l.0 ∙ v.cpu_llcs;
    cpu_nodes = length-set s.export.cpu_node_idx_map id n.0 ∙ v.cpu_nodes;
    llc_nodes = length-set s.export.llc_node_idx_map l.0 n.0 ∙ v.llc_nodes;
    node_of_llc = placing-node_of_llc s id cpu n l v an al same small;
  }

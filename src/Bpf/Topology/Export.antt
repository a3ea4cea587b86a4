-- ===== src/Bpf/Topology/Export.antt =====
-- The run of `TopologyExport::detect` of src/bpf.rs over the CPUs: what its maps say of the
-- topology.
use scx_cognis.Base.{
  ℕ, ◌≤◌, ◌<◌, ◌≡◌, ◌≢◌, refl, sym, ◌∙◌, true, ◌⊎◌, Option, some, List, [], ◌∷◌, arith, ◌==◌,
  length, Bool-cases, inl, inr, ltb,
}
use scx_cognis.Bpf.Topology.{
  Cpu, Exporting, assign, export_cpu, export_cpus, max_topo_cpus, max_llcs, max_nodes,
}
use scx_cognis.Bpf.Topology.Remap.{elem, assign-Assigned}
use scx_cognis.Bpf.Topology.Placing.{
  cpu_at, AreCpus, IsPlaced, IsExporting, IsKept, IsPlaced-kept, placing, export_cpu-placing,
  export_cpu-skip, placing-IsPlaced, placing-IsKept, placing-IsExporting,
}

pub cpu_at-cases :
    (id : ℕ) (cpu : Cpu) (cpus : List (ℕ × Cpu)) (i : ℕ) (c : Cpu)
    → cpu_at ((id, cpu) ∷ cpus) i ≡ some c
    → ((i ≡ id) × (cpu ≡ c)) ⊎ ((i ≢ id) × (cpu_at cpus i ≡ some c))
cpu_at-cases id cpu cpus i c e = elim (Bool-cases (i == id)) [
  | inl same ↦ inl (ground arith, ground arith)
  | inr other ↦ inr (ground arith, ground arith)
]

module _ (node_of : ℕ → ℕ) (all_llcs all_nodes : List ℕ) where
  -- A run over `cpus` that does not panic, and what it leaves.
  pub record Exported (s : Exporting) (cpus : List (ℕ × Cpu)) (r : Option Exporting) : Type 0 where
    pub result : Exporting
    pub runs : r ≡ some result
    pub valid : IsExporting node_of all_llcs all_nodes result
    pub kept : IsKept s result cpus
    pub placed :
        (i : ℕ) (cpu : Cpu) → cpu_at cpus i ≡ some cpu → i < max_topo_cpus → IsPlaced result i cpu

  nothing-IsKept : (s : Exporting) (cpus : List (ℕ × Cpu)) → IsKept s s cpus
  nothing-IsKept s cpus = record {
    llc = λ a k e. e;
    node = λ a k e. e;
    cpu_llc = λ i e. refl;
    cpu_node = λ i e. refl;
  }

  IsKept-∙ :
      (s s' s'' : Exporting) (id : ℕ) (cpu : Cpu) (cpus : List (ℕ × Cpu))
      → IsKept s s' ((id, cpu) ∷ [])
      → IsKept s' s'' cpus
      → IsKept s s'' ((id, cpu) ∷ cpus)
  IsKept-∙ s s' s'' id cpu cpus k k' = record {
    llc = λ a i e. k'.llc a i (k.llc a i e);
    node = λ a i e. k'.node a i (k.node a i e);
    cpu_llc = λ i e. k'.cpu_llc i (ground arith) ∙ k.cpu_llc i (ground arith);
    cpu_node = λ i e. k'.cpu_node i (ground arith) ∙ k.cpu_node i (ground arith);
  }

  export_cpu-Exported :
      (s : Exporting) (id : ℕ) (cpu : Cpu)
      → IsExporting node_of all_llcs all_nodes s
      → elem cpu.llc_id all_llcs ≡ true
      → elem cpu.node_id all_nodes ≡ true
      → cpu.node_id ≡ node_of cpu.llc_id
      → length all_llcs ≤ max_llcs
      → length all_nodes ≤ max_nodes
      → Exported s ((id, cpu) ∷ []) (export_cpu s id cpu)
  export_cpu-Exported s id cpu v hl hn same few_l few_n = elim (Bool-cases (ltb id max_topo_cpus)) [
    | inl below ↦
        let h : id < max_topo_cpus = ground arith in
        let al = assign-Assigned s.llcs all_llcs cpu.llc_id v.llcs hl (omega (arith, few_l)) in
        let an = assign-Assigned s.nodes all_nodes cpu.node_id v.nodes hn (omega (arith, few_n)) in
        let n = assign s.nodes cpu.node_id in
        let l = assign s.llcs cpu.llc_id in
        let small : l.0 < max_llcs = omega (arith, al.inside, few_l) in
        record {
          result = placing s id n l;
          runs = export_cpu-placing s id cpu h (omega (arith, small, v.llc_nodes));
          valid = placing-IsExporting node_of all_llcs all_nodes s id cpu n l v an al same small;
          kept = placing-IsKept node_of all_llcs all_nodes s id cpu n l an al;
          placed = λ i c e k. elim (cpu_at-cases id cpu [] i c e) [
            | inl (at, is) ↦
                rw (at, sym is) (placing-IsPlaced node_of all_llcs all_nodes s id cpu n l v an al h)
            | inr (ne, later) ↦ absurd (ground arith)
          ];
        }
    | inr above ↦ record {
      result = s;
      runs = export_cpu-skip s id cpu (ground arith);
      valid = v;
      kept = nothing-IsKept s ((id, cpu) ∷ []);
      placed = λ i c e k. absurd (ground arith);
    }
  ]

  export_cpus-∷ :
      (s s' : Exporting) (id : ℕ) (cpu : Cpu) (cpus : List (ℕ × Cpu))
      → export_cpu s id cpu ≡ some s'
      → export_cpus s ((id, cpu) ∷ cpus) ≡ export_cpus s' cpus
  unfolding export_cpus
  export_cpus-∷ s s' id cpu cpus e = rw (e, export_cpus) refl

  -- The loop never panics, and places each CPU.
  pub export_cpus-Exported :
      (s : Exporting) (cpus : List (ℕ × Cpu))
      → IsExporting node_of all_llcs all_nodes s
      → AreCpus node_of all_llcs all_nodes cpus
      → length all_llcs ≤ max_llcs
      → length all_nodes ≤ max_nodes
      → Exported s cpus (export_cpus s cpus)
  unfolding export_cpus
  export_cpus-Exported s [] v a few_l few_n = record {
    result = s;
    runs = refl;
    valid = v;
    kept = nothing-IsKept s [];
    placed = λ i c e k. absurd (ground arith);
  }
  export_cpus-Exported s ((id, cpu) ∷ cpus) v (new, hl, hn, same, a) few_l few_n =
      let one = export_cpu-Exported s id cpu v hl hn same few_l few_n in
      let rest = export_cpus-Exported one.result cpus one.valid a few_l few_n in
      record {
        result = rest.result;
        runs = export_cpus-∷ s one.result id cpu cpus one.runs ∙ rest.runs;
        valid = rest.valid;
        kept = IsKept-∙ s one.result rest.result id cpu cpus one.kept rest.kept;
        placed = λ i c e k. elim (cpu_at-cases id cpu cpus i c e) [
          | inl (at, is) ↦
              rw (at, sym is)
                (IsPlaced-kept one.result rest.result cpus id cpu rest.kept new
                  (one.placed id cpu (ground arith) (ground arith)))
          | inr (ne, later) ↦ rest.placed i c later k
        ];
      }

-- ===== src/Bpf/Topology/Tests.antt =====
-- A concrete topology for the theorem on `TopologyExport::detect` of src/bpf.rs.
use scx_cognis.Base.{ℕ, ◌≡◌, refl, true, some, [], ◌∷◌, ok, ◌==◌, if◌then◌else◌}
use scx_cognis.Bpf.Topology.{Topology, TopologyExport, detect}
use scx_cognis.Bpf.Topology.Faithful.{detect-IsFaithful, IsFaithful}

-- Two nodes with one LLC each, and three CPUs.
abbrev two_nodes : Topology
two_nodes = record {
  smt_enabled = true;
  all_llcs = 7 ∷ 3 ∷ [];
  nodes = 0 ∷ 1 ∷ [];
  all_cpus =
      (0, record { llc_id = 3; node_id = 1 })
      ∷ (1, record { llc_id = 7; node_id = 0 })
      ∷ (2, record { llc_id = 3; node_id = 1 })
      ∷ [];
}

abbrev node_of_two : ℕ → ℕ
node_of_two l = if l == 3 then 1 else 0

detect-IsFaithful_example :
    (e : TopologyExport) × (detect (ok two_nodes) ≡ some e) × IsFaithful e two_nodes.all_cpus
detect-IsFaithful_example =
    detect-IsFaithful two_nodes node_of_two refl
      ((refl, refl, refl, refl, (refl, refl, refl, refl, (refl, refl, refl, refl, tt))))

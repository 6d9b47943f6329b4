-- ===== src/Protocol/Rows.antt =====
-- protocol.rs: the rows that are made of the agent's data.
pub mod Depth
use oprofiler.Base.{
  ℕ, zero, suc, ◌+◌, Bool, true, false, ◌&&◌, ℤ, List, [], ◌∷◌, ◌++◌, Option, none, some, map, take,
  is_empty, find_first, ltb, if◌then◌else◌, eq_ℤ, is_nonneg,
}
use oprofiler.Base.Text.{Text, codes, text_eq, replace_char}
use oprofiler.Base.Sort.{sort_by}
use oprofiler.Model.Floats.{Host}
use oprofiler.Model.Rows.{AllocationHotSpotRow, CpuMethodRow, CpuMethodEdgeRow}
use oprofiler.Protocol.Messages.{
  HotSpot, MethodNode, MethodEdge, MethodGraph, CpuData, AllocationTreeNode, MemoryData,
}

module _ {F : Type 0} (host : Host F) where
  abbrev is_method : HotSpot F → MethodNode → Bool
  is_method hs node =
      text_eq node.class_name hs.class_name
      && text_eq node.method_name hs.method_name
      && text_eq node.method_descriptor hs.method_descriptor

  abbrev node_id_of : Option MethodNode → Option ℤ
  node_id_of none = none
  node_id_of (some node) = some node.id

  -- The id of the first node of the graph with the method's name.
  unfoldable pub method_id_of : Option MethodGraph → HotSpot F → Option ℤ
  method_id_of none hs = none
  method_id_of (some graph) hs = node_id_of (find_first (is_method hs) graph.nodes)

  unfoldable pub cpu_row : Option MethodGraph → HotSpot F → CpuMethodRow F
  unfolding method_id_of
  cpu_row graph hs = record {
    method_id = method_id_of graph hs;
    method = hs.class_name ++ (codes "." ++ (hs.method_name ++ hs.method_descriptor));
    total_samples = hs.total_samples;
    self_samples = hs.self_samples;
    total_ms = host.div (host.of_nat hs.total_duration_nano) (host.of_nat 1_000_000);
    self_ms = host.div (host.of_nat hs.self_duration_nano) (host.of_nat 1_000_000);
    percent = host.as_f32 (host.div hs.percent (host.of_nat 100));
    class_name = hs.class_name;
    method_name = hs.method_name;
    descriptor = hs.method_descriptor;
    invocations = hs.invocations;
    average_nanos =
        if ltb 0 hs.invocations
        then host.div (host.of_nat hs.self_duration_nano) (host.of_nat hs.invocations)
        else host.of_nat 0;
  }

  abbrev edge_row : MethodEdge → CpuMethodEdgeRow
  edge_row edge = record {
    from_method_id = edge.from_node_id;
    to_method_id = edge.to_node_id;
    call_count = edge.call_count;
    total_duration_nano = edge.total_duration_nano;
  }

  abbrev edge_rows : Option MethodGraph → List CpuMethodEdgeRow
  edge_rows none = []
  edge_rows (some graph) = map edge_row graph.edges

  -- Rows by falling self time, at most 250. A comparison with a NaN counts as equal.
  unfoldable pub cpu_rows_from_agent_data :
      CpuData F → List (CpuMethodRow F) × List CpuMethodEdgeRow
  unfolding cpu_row
  cpu_rows_from_agent_data cpu = (
    take 250 (
        sort_by (λ a b. host.lt b.self_ms a.self_ms)
          (map (cpu_row cpu.method_graph) cpu.hot_spots)),
    edge_rows cpu.method_graph,
  )

-- The loop of `allocation_depth`, on the rounds that are left of 16.
unfoldable pub depth_rounds : ℕ → ℕ → ℤ → List AllocationTreeNode → ℕ
depth_rounds zero depth parent_id nodes = depth
depth_rounds (suc rounds) depth parent_id nodes =
    let after = elim (find_first (λ node. eq_ℤ node.id parent_id) nodes) as (λ _. ℕ) [
      | none ↦ depth + 1
      | some parent ↦ depth_rounds rounds (depth + 1) parent.parent_id nodes
    ] in
    if is_nonneg parent_id then after else depth

unfoldable pub allocation_depth : ℤ → List AllocationTreeNode → ℕ
unfolding depth_rounds
allocation_depth parent_id nodes = depth_rounds 16 0 parent_id nodes

unfoldable pub allocation_row : List AllocationTreeNode → AllocationTreeNode → AllocationHotSpotRow
unfolding allocation_depth
allocation_row nodes node =
    let allocated_type = replace_char b'/' b'.' node.allocated_type in
    record {
      node_id = node.id;
      parent_id = if is_nonneg node.parent_id then some node.parent_id else none;
      depth = allocation_depth node.parent_id nodes;
      name =
          if is_empty node.class_name && is_empty node.method_name
          then allocated_type
          else node.class_name ++ (codes "." ++ (node.method_name ++ node.method_descriptor));
      allocated_type = allocated_type;
      bytes = node.allocated_size;
      allocations = node.instance_count;
    }

unfoldable pub allocation_hotspots_from_agent_data : MemoryData → List AllocationHotSpotRow
unfolding allocation_row
allocation_hotspots_from_agent_data memory = elim memory.allocation_tree [
  | none ↦ []
  | some nodes ↦ map (allocation_row nodes) nodes
]

-- ===== src/CallTree.antt =====
-- crates/tui/src/call_tree.rs: the call tree that is built from stack samples. Nodes are keyed by the
-- method, so a method has one node, under the parent where it was met first.
pub mod Shape
pub mod Built
pub mod Children
use oprofiler.Base.{
  ℕ, zero, suc, ◌+◌, ◌-◌, Bool, not, ◌&&◌, List, [], ◌∷◌, ◌++◌, none, some, reverse, length, drop,
  is_empty, any_of, keep, map, ltb, ◌==◌, if◌then◌else◌, max,
}
use oprofiler.Base.Text.{Text, codes, text_eq, contains_text}
use oprofiler.Base.Maps.{lookup, insert}
use oprofiler.Model.Floats.{Host}
use oprofiler.Model.Rows.{CpuMethodRow}
use oprofiler.Model.Threads.{StackTraceElement, StackSample}
use oprofiler.Model.Tree.{CallTreeNode, MethodEdge, CallTree, node_full_name}

pub record CallTreeConfig (F : Type 0) : Type 0 where
  pub total_sample_count : ℕ
  pub sampling_interval_ms : F

-- The variables of the loop over the samples.
pub record Builder (F : Type 0) : Type 0 where
  pub node_map : List (Text × ℕ)
  pub nodes : List (CallTreeNode F)
  pub edges : List (MethodEdge F)
  pub edge_map : List ((ℕ × ℕ) × ℕ)

abbrev pub root_id : ℕ
root_id = 0

unfoldable pub same_pair : ℕ × ℕ → ℕ × ℕ → Bool
same_pair (a, b) (c, d) = a == c && b == d

-- `{class}::{method}{descriptor}`.
unfoldable pub frame_key : StackTraceElement → Text
frame_key frame = frame.class_name ++ (codes "::" ++ (frame.method_name ++ frame.descriptor))

-- Thread-state lines that were taken for frames are left out.
abbrev pub is_frame : StackTraceElement → Bool
is_frame f = not (contains_text f.class_name (codes "java.lang.Thread.State"))

module _ {F : Type 0} where
  -- An index that is known to be in bounds is updated in place.
  unfoldable pub update_node :
      List (CallTreeNode F) → ℕ → (CallTreeNode F → CallTreeNode F) → List (CallTreeNode F)
  update_node [] i f = []
  update_node (n ∷ nodes) zero f = f n ∷ nodes
  update_node (n ∷ nodes) (suc i) f = n ∷ update_node nodes i f

  unfoldable pub update_edge :
      List (MethodEdge F) → ℕ → (MethodEdge F → MethodEdge F) → List (MethodEdge F)
  update_edge [] i f = []
  update_edge (e ∷ edges) zero f = f e ∷ edges
  update_edge (e ∷ edges) (suc i) f = e ∷ update_edge edges i f

  abbrev pub adopt : ℕ → CallTreeNode F → CallTreeNode F
  adopt idx parent =
      if any_of (λ c. c == idx) parent.children
      then parent
      else record parent { children = parent.children ++ idx ∷ [] }

module _ {F : Type 0} (host : Host F) (config : CallTreeConfig F) where
  -- One more sample of a method.
  abbrev pub count_sample : Bool → CallTreeNode F → CallTreeNode F
  count_sample is_leaf node = record node {
    total_duration_ms = host.add node.total_duration_ms config.sampling_interval_ms;
    self_duration_ms =
        if is_leaf
        then host.add node.self_duration_ms config.sampling_interval_ms
        else node.self_duration_ms;
    call_count = node.call_count + 1;
  }

  abbrev pub new_node : ℕ → ℕ → Bool → StackTraceElement → CallTreeNode F
  new_node idx parent is_leaf frame = record {
    id = idx;
    parent_id = some parent;
    class_name = frame.class_name;
    method_name = frame.method_name;
    descriptor = frame.descriptor;
    file_name = frame.file_name;
    line_number = frame.line_number;
    self_duration_ms = if is_leaf then config.sampling_interval_ms else host.of_nat 0;
    total_duration_ms = config.sampling_interval_ms;
    call_count = 1;
    children = [];
  }

  -- The node of a frame: the one that its key has, or a new one under the parent.
  unfoldable pub enter_frame : Builder F → ℕ → Bool → StackTraceElement → Builder F × ℕ
  unfolding update_node
  enter_frame b parent is_leaf frame = elim (lookup text_eq (frame_key frame) b.node_map) [
    | some idx ↦ (record b { nodes = update_node b.nodes idx (count_sample is_leaf) }, idx)
    | none ↦ (
      record b {
        nodes =
            update_node (b.nodes ++ new_node (length b.nodes) parent is_leaf frame ∷ []) parent
              (adopt (length b.nodes));
        node_map = insert text_eq (frame_key frame) (length b.nodes) b.node_map;
      },
      length b.nodes,
    )
  ]

  -- Calls between two methods below the root are counted on an edge.
  unfoldable pub count_edge : Builder F → ℕ → ℕ → Builder F
  unfolding update_edge
  count_edge b parent node =
      if not (parent == root_id) && not (parent == node)
      then elim (lookup same_pair (parent, node) b.edge_map) [
        | some edge ↦ record b {
          edges = update_edge b.edges edge (λ e. record e {
            call_count = e.call_count + 1;
            total_duration_ms = host.add e.total_duration_ms config.sampling_interval_ms;
          });
        }
        | none ↦ record b {
          edges =
              b.edges
              ++ record {
                from_id = parent;
                to_id = node;
                call_count = 1;
                total_duration_ms = config.sampling_interval_ms;
              }
                ∷ [];
          edge_map = insert same_pair (parent, node) (length b.edges) b.edge_map;
        }
      ]
      else b

  -- The frames of a sample from the outermost inwards, from place `i` of `total` on.
  unfoldable pub walk_frames : ℕ → ℕ → ℕ → List StackTraceElement → Builder F → Builder F
  unfolding enter_frame count_edge
  walk_frames total i parent [] b = b
  walk_frames total i parent (frame ∷ rest) b =
      let (entered, node) = enter_frame b parent (i == total - 1) frame in
      walk_frames total (i + 1) node rest (count_edge entered parent node)

  abbrev pub is_skipped : Text → StackSample F → Bool
  is_skipped thread_filter sample =
      not (is_empty thread_filter)
      && not (text_eq thread_filter (codes "Runnable"))
      && not (text_eq sample.state (codes "RUNNABLE"))

  unfoldable pub add_samples : Text → List (StackSample F) → Builder F → Builder F
  unfolding walk_frames
  add_samples thread_filter [] b = b
  add_samples thread_filter (sample ∷ rest) b =
      let frames = keep is_frame sample.stack_trace in
      add_samples thread_filter rest (
        if is_skipped thread_filter sample
        then b
        else walk_frames (length frames) 0 root_id (reverse frames) b)

  -- Only the root, under the key that no frame has.
  unfoldable pub start_builder : Builder F
  start_builder = record {
    node_map = (codes "root", root_id) ∷ [];
    nodes =
        record {
          id = root_id;
          parent_id = none;
          class_name = codes "root";
          method_name = codes "all";
          descriptor = [];
          file_name = none;
          line_number = none;
          self_duration_ms = host.of_nat 0;
          total_duration_ms = host.of_nat 0;
          call_count = 0;
          children = [];
        }
        ∷ [];
    edges = [];
    edge_map = [];
  }

  unfoldable pub build_call_tree : List (StackSample F) → Text → CallTree F
  unfolding start_builder add_samples
  build_call_tree samples thread_filter =
      let b = add_samples thread_filter samples start_builder in
      record { nodes = b.nodes; edges = b.edges }

module _ {F : Type 0} (host : Host F) where
  unfoldable pub hot_spot_row : ℕ → CallTreeNode F → CpuMethodRow F
  hot_spot_row denominator n = record {
    method_id = none;
    method = node_full_name n;
    total_samples = n.call_count;
    self_samples = host.to_u64 (host.div n.self_duration_ms (host.of_nat 10));
    total_ms = n.total_duration_ms;
    self_ms = n.self_duration_ms;
    percent = host.as_f32 (host.div (host.of_nat n.call_count) (host.of_nat denominator));
    class_name = n.class_name;
    method_name = n.method_name;
    descriptor = n.descriptor;
    invocations = n.call_count;
    average_nanos =
        if ltb 0 n.call_count
        then host.div (host.mul n.self_duration_ms (host.of_nat 1_000_000))
            (host.of_nat n.call_count)
        else host.of_nat 0;
  }

  unfoldable pub build_hot_spots : CallTree F → ℕ → List (CpuMethodRow F)
  unfolding hot_spot_row
  build_hot_spots tree total_sample_count =
      map (hot_spot_row (max total_sample_count 1))
        (keep (λ n. ltb 0 n.call_count) (drop 1 tree.nodes))

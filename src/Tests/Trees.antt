-- ===== src/Tests/Trees.antt =====
-- A call tree of two samples, and a table of allocation sites.
use oprofiler.Base.{ℕ, refl, [], ◌∷◌, List, none, length, All, false, true}
use oprofiler.Base.Text.{Text, codes, contains_text, text_eq}
use oprofiler.Base.Maps.{lookup, insert}
use oprofiler.Model.Threads.{StackTraceElement, StackSample}
use oprofiler.Model.Tree.{CallTreeNode, children_of}
use oprofiler.CallTree.{CallTreeConfig, build_call_tree, frame_key}
use oprofiler.CallTree.Shape.{ArePlaced, Joins}
use oprofiler.CallTree.Built.{build_call_tree-ArePlaced}
use oprofiler.CallTree.Children.{Finds, children_of-Finds}
use oprofiler.Agent.{AgentState, NativeAllocationStats}
use oprofiler.Tests.Values.{whole_host}

abbrev config : CallTreeConfig ℕ
config = record { total_sample_count = 2; sampling_interval_ms = 10 }

abbrev frame_in : Text → StackTraceElement
frame_in name = record {
  class_name = codes "shop.Cart";
  method_name = name;
  descriptor = [];
  file_name = none;
  line_number = none;
  native_method = false;
  raw = name;
}

abbrev sample_of : List StackTraceElement → StackSample ℕ
sample_of stack = record {
  thread = codes "main";
  state = codes "RUNNABLE";
  frames = [];
  stack_trace = stack;
  captured_at = codes "12:00:00";
  elapsed_secs = 1;
}

abbrev samples : List (StackSample ℕ)
samples =
    sample_of (frame_in (codes "add") ∷ frame_in (codes "main") ∷ [])
    ∷ sample_of (frame_in (codes "main") ∷ [])
    ∷ []

build_call_tree-ArePlaced_example :
    ArePlaced
      (length (build_call_tree whole_host config samples []).nodes)
      0
      (build_call_tree whole_host config samples []).nodes
    × All
        (Joins (length (build_call_tree whole_host config samples []).nodes))
        (build_call_tree whole_host config samples []).edges
build_call_tree-ArePlaced_example = build_call_tree-ArePlaced whole_host config samples []

abbrev root : CallTreeNode ℕ
root = record {
  id = 0;
  parent_id = none;
  class_name = codes "root";
  method_name = codes "all";
  descriptor = [];
  file_name = none;
  line_number = none;
  self_duration_ms = 0;
  total_duration_ms = 0;
  call_count = 0;
  children = 1 ∷ [];
}

children_of-Finds_example :
    Finds (length root.children) (children_of (build_call_tree whole_host config samples []) 0)
unfolding build_call_tree contains_text lookup text_eq frame_key insert
children_of-Finds_example = children_of-Finds whole_host config samples [] 0 root refl

abbrev site_at : List ℕ → ℕ → NativeAllocationStats
site_at path size = record {
  path = path;
  method = record {
    class_name = codes "shop.Cart";
    method_name = codes "add";
    method_descriptor = codes "()V";
  };
  allocated_type = codes "int[]";
  allocated_size = size;
  instance_count = 1;
}

abbrev recorder : AgentState
recorder = record {
  recording = true;
  snapshot_in_progress = true;
  total_samples = 0;
  sampling_interval_ms = 10;
  hotspots = [];
  jdbc_stats = [];
  method_meta = [];
  allocations = (codes "7/8", site_at (7 ∷ 8 ∷ []) 16) ∷ (codes "7", site_at (7 ∷ []) 64) ∷ [];
}

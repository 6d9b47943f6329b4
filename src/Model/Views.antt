-- ===== src/Model/Views.antt =====
-- model.rs: the categories of the sidebar and the views.
use oprofiler.Base.{List, [], ◌∷◌, ◌≡◌, Bool, true, false, ◌↔◌, arith}
use oprofiler.Base.Text.{Text, codes}

pub data Category : Type 0 where
  telemetries cpu_views live_memory databases : Category

pub data ViewId : Type 0 where
  start_center tele_overview tele_memory tele_gc tele_classes tele_threads tele_cpu_load : ViewId
  live_all_objects live_recorded_objects live_allocation_call_tree : ViewId
  live_allocation_hot_spots live_class_tracker : ViewId
  heap_start heap_classes heap_biggest_objects heap_references : ViewId
  cpu_call_tree cpu_hot_spots cpu_call_graph cpu_tracer cpu_complexity cpu_outliers : ViewId
  threads_history threads_monitor threads_dumps : ViewId
  databases_jdbc databases_jpa databases_mongo databases_cassandra : ViewId

Category-discrete : Discrete Category
Category-discrete = hlevel

ViewId-discrete : Discrete ViewId
ViewId-discrete = hlevel

unfoldable pub same_category : Category → Category → Bool
unfolding Category-discrete
same_category c d = elim (Category-discrete c d) [ yes _ ↦ true | no _ ↦ false ]

unfoldable pub same_view : ViewId → ViewId → Bool
unfolding ViewId-discrete
same_view v w = elim (ViewId-discrete v w) [ yes _ ↦ true | no _ ↦ false ]

pub same_view_iff : (v w : ViewId) → (same_view v w ≡ true) ↔ (v ≡ w)
unfolding same_view
same_view_iff v w = ground arith

pub same_category_iff : (c d : Category) → (same_category c d ≡ true) ↔ (c ≡ d)
unfolding same_category
same_category_iff c d = ground arith

-- One entry of `CATEGORIES`.
pub record CategoryEntry : Type 0 where
  pub category : Category
  pub title : Text
  pub views : List ViewId

abbrev pub categories : List CategoryEntry
categories =
    record { category = telemetries; title = codes "Telemetries"; views = tele_overview ∷ [] }
    ∷ record { category = cpu_views; title = codes "CPU"; views = cpu_hot_spots ∷ [] }
    ∷ record {
      category = live_memory;
      title = codes "Memory";
      views = live_allocation_hot_spots ∷ [];
    }
    ∷ record { category = databases; title = codes "Databases"; views = databases_jdbc ∷ [] }
    ∷ []

unfoldable pub label : ViewId → Text
label start_center = codes "Start Center"
label tele_overview = codes "Overview"
label tele_memory = codes "Memory"
label tele_gc = codes "GC Activity"
label tele_classes = codes "Classes"
label tele_threads = codes "Threads"
label tele_cpu_load = codes "CPU Load"
label live_all_objects = codes "All Objects"
label live_recorded_objects = codes "Recorded Objects"
label live_allocation_call_tree = codes "Alloc Call Tree"
label live_allocation_hot_spots = codes "Alloc Hot Spots"
label live_class_tracker = codes "Class Tracker"
label heap_start = codes "Start"
label heap_classes = codes "Classes"
label heap_biggest_objects = codes "Biggest Objects"
label heap_references = codes "References"
label cpu_call_tree = codes "Call Tree"
label cpu_hot_spots = codes "Hot Spots"
label cpu_call_graph = codes "Call Graph"
label cpu_outliers = codes "Outliers"
label cpu_complexity = codes "Complexity"
label cpu_tracer = codes "Call Tracer"
label threads_history = codes "Thread History"
label threads_monitor = codes "Thread Monitor"
label threads_dumps = codes "Thread Dumps"
label databases_jdbc = codes "JDBC"
label databases_jpa = codes "JPA"
label databases_mongo = codes "MongoDB"
label databases_cassandra = codes "Cassandra"

-- ===== src/Tests/Drawing.antt =====
-- Shortened texts, and what is drawn of the first state of the program.
use oprofiler.Base.{
  arith, done, suc, zero, List, length, All, take, drop, max, ℕ, ◌-◌, ◌≤◌, ◌<◌, ◌≡◌, ◌↔◌, refl, [],
  ◌∷◌, none, some, pos,
}
use oprofiler.Base.Text.{Text, codes}
use oprofiler.Base.Sort.{IsSorted}
use mathlib.Core.List.{Perm}
use oprofiler.Tests.Values.{whole_host, clock}
use oprofiler.Render.Texts.{Shown, byte_length, truncate_str}
use oprofiler.Render.Texts.Cut.{Cuts, truncate_str-none_iff, truncate_str-bounded}
use oprofiler.Render.Threads.{render_thread_dumps}
use oprofiler.Render.Threads.Dumps.{poll_queries-thread_dumps_shown}
use oprofiler.Render.Memory.{memory_rows}
use oprofiler.Render.Memory.Order.{Ordered, memory_rows-Ordered}
use oprofiler.App.Results.{poll_queries}
use oprofiler.App.Invariant.{IsValid}
use oprofiler.Model.Threads.{ThreadDump}
use oprofiler.App.State.{capture_thread_dump, thread_dump, App, new}
use oprofiler.App.Rows.{
  filtered_memory_rows, filtered_cpu_rows, shown_children, visible_hotspot_row_count,
}
use oprofiler.Model.Rows.{MemoryClassRow, CpuMethodRow, CpuMethodEdgeRow}
use oprofiler.Render.Hotspots.{visible_lines}
use oprofiler.Render.Hotspots.Page.{
  all_lines, visible_lines-page, all_lines-visible_hotspot_row_count,
}

-- Fourteen characters of three bytes each, as in a thread's Japanese name.
abbrev wide_name : Text
wide_name =
    12473 ∷ 12524 ∷ 12483 ∷ 12489 ∷ 12473 ∷ 12524 ∷ 12483 ∷ 12489 ∷ 12473 ∷ 12524 ∷ 12483 ∷ 12489
    ∷ 12473 ∷ 12524 ∷ []

truncate_str-none_iff_example :
    (truncate_str wide_name 40 ≡ none)
    ↔ ((40 < byte_length wide_name) × (¬ Cuts (40 - 3) wide_name))
truncate_str-none_iff_example = truncate_str-none_iff wide_name 40

-- The cut at the byte 37 is inside the thirteenth character.
wide_name_panics : truncate_str wide_name 40 ≡ none
unfolding truncate_str
wide_name_panics = refl

abbrev long_name : Text
long_name = codes "abcdefgh"

long_name-cut : truncate_str long_name 6 ≡ some (codes "abc...")
unfolding truncate_str
long_name-cut = refl

truncate_str-bounded_example : byte_length (codes "abc...") ≤ max 3 6
truncate_str-bounded_example = truncate_str-bounded long_name 6 (codes "abc...") long_name-cut

abbrev dump_of : Text → ThreadDump
dump_of raw = record { captured_at = codes "12:00:00"; raw = raw; threads = [] }

-- The older of two dumps is selected, and a third one has come in.
abbrev dumped : App ℕ
dumped = record (new whole_host (clock 100)) {
  threads = record (new whole_host (clock 100)).threads {
    dumps = dump_of (codes "second") ∷ dump_of (codes "first") ∷ [];
    selected_dump = some 1;
  };
  thread_query = some (record {
    task = capture_thread_dump 4711;
    rx = some (thread_dump (done (dump_of (codes "third"))));
  });
}

dumped-IsValid : IsValid dumped
unfolding new
dumped-IsValid = ground arith

poll_queries-thread_dumps_shown_example :
    (box : Shown) × (render_thread_dumps whole_host 24 (poll_queries whole_host (clock 101) dumped)
      ≡ some box)
poll_queries-thread_dumps_shown_example =
    poll_queries-thread_dumps_shown whole_host 24 (clock 101) dumped dumped-IsValid

abbrev class_row : Text → ℕ → MemoryClassRow
class_row name bytes = record {
  rank = 1;
  name = name;
  instances = 2;
  bytes = bytes;
  delta_instances = pos 0;
  delta_bytes = pos 0;
}

abbrev loaded : App ℕ
loaded = record (new whole_host (clock 100)) {
  memory = record (new whole_host (clock 100)).memory {
    rows = class_row (codes "int[]") 64 ∷ class_row (codes "shop.Cart") 128 ∷ [];
  };
}

memory_rows-Ordered_example :
    Perm (memory_rows whole_host loaded) (filtered_memory_rows whole_host loaded)
    × Ordered loaded.memory.sort_column loaded.memory.sort_asc
        (filtered_memory_rows whole_host loaded)
        (memory_rows whole_host loaded)
unfolding new oprofiler.Model.Views.same_view
memory_rows-Ordered_example = memory_rows-Ordered whole_host loaded refl

abbrev hot_method : ℕ → Text → CpuMethodRow ℕ
hot_method id name = record {
  method_id = some (pos id);
  method = name;
  total_samples = 4;
  self_samples = 2;
  total_ms = 8;
  self_ms = 4;
  percent = 1;
  class_name = codes "shop.Cart";
  method_name = name;
  descriptor = [];
  invocations = 3;
  average_nanos = 1000;
}

abbrev calls : ℕ → List CpuMethodEdgeRow
calls zero = []
calls (suc n) =
    record {
      from_method_id = pos 1;
      to_method_id = pos 2;
      call_count = 1;
      total_duration_nano = 1000;
    }
    ∷ calls n

-- A hot spot that is expanded, with a number of callees, and a second one below.
abbrev expanded : ℕ → App ℕ
expanded callees = record (new whole_host (clock 100)) {
  cpu = record (new whole_host (clock 100)).cpu {
    methods = hot_method 1 (codes "buy") ∷ hot_method 2 (codes "pay") ∷ [];
    method_edges = calls callees;
    expanded_hotspots = pos 1 ∷ [];
    row_offset = 1;
  };
}

visible_lines-page_example :
    visible_lines whole_host 5 (expanded 2)
    ≡ take (5 - 3) (
        drop
          (expanded 2).cpu.row_offset
          (all_lines (expanded 2) (filtered_cpu_rows whole_host (expanded 2))))
visible_lines-page_example = visible_lines-page whole_host 5 (expanded 2)

all_lines-visible_hotspot_row_count_example :
    (length (all_lines (expanded 13) (filtered_cpu_rows whole_host (expanded 13)))
      ≡ visible_hotspot_row_count whole_host (expanded 13))
    ↔ All
        (λ row. length (shown_children (expanded 13) row) ≤ 12)
        (filtered_cpu_rows whole_host (expanded 13))
all_lines-visible_hotspot_row_count_example =
    all_lines-visible_hotspot_row_count whole_host (expanded 13)

-- With thirteen callees the cursor has fifteen places and the table fourteen lines.
fifteen_places : visible_hotspot_row_count whole_host (expanded 13) ≡ 15
unfolding visible_hotspot_row_count new oprofiler.App.Rows.is_database_method
    oprofiler.Base.Text.text_eq oprofiler.App.Rows.passes_filter oprofiler.Base.Maps.member
    oprofiler.App.Rows.hotspot_children oprofiler.Base.Sort.sort_by mathlib.Core.List.filter_map
    oprofiler.Base.Maps.lookup oprofiler.Base.Maps.collect
fifteen_places = refl

fourteen_lines : length (all_lines (expanded 13) (filtered_cpu_rows whole_host (expanded 13))) ≡ 14
unfolding all_lines filtered_cpu_rows new oprofiler.App.Rows.shown_children
    oprofiler.App.Rows.is_database_method oprofiler.Base.Text.text_eq
    oprofiler.App.Rows.passes_filter oprofiler.Base.Maps.member oprofiler.App.Rows.hotspot_children
    oprofiler.Base.Sort.sort_by mathlib.Core.List.filter_map oprofiler.Base.Maps.lookup
    oprofiler.Base.Maps.collect
fourteen_lines = refl

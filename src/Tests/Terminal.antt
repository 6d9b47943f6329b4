-- ===== src/Tests/Terminal.antt =====
-- The terminal loop: discovery of a process, a turn, and the key that starts a recording.
use oprofiler.Base.{
  ℕ, ◌≡◌, ◌≤◌, ◌<◌, ◌+◌, refl, [], ◌∷◌, none, some, length, as_num, true, false, not, ltb, inl, pos,
  arith, if◌then◌else◌,
}
use oprofiler.App.State.{QueryHandle, spawn, refresh_jvms, jvms}
use oprofiler.App.Flight.{starts, stops}
use oprofiler.App.Invariant.{DumpSelected}
use oprofiler.App.Selection.{move_index, keep_visible}
use oprofiler.App.Selection.Window.{IsShown, move_index-le, keep_visible-IsShown}
use oprofiler.App.Attach.{Ports, port_is_usable_for_attach, select_attach_port}
use oprofiler.App.Attach.Choice.{Found, select_attach_port-Found}
use oprofiler.Event.{KeyEvent, KeyCode, char, press}
use oprofiler.Event.Terminal.{Terminal, KeyDebounce, refresh_turn, key_turn, debounce_nanos}
use oprofiler.Event.Terminal.Debounce.{is_accepted, after_key, press_twice}
use oprofiler.Reach.{start_terminal, arrives, to_jvms, turn, answer, Reach, started, after}
use oprofiler.Reach.Safety.{Reach-one_in_flight, Reach-bounded, Reach-key_returns}
use oprofiler.Tests.Values.{whole_host, clock, demo_target, clipboard}
use oprofiler.Model.Views.{same_view, live_allocation_hot_spots}

abbrev fresh : Terminal ℕ
fresh = start_terminal whole_host (clock 100) none

abbrev found_jvms : QueryHandle ℕ
found_jvms = record { task = refresh_jvms; rx = some (jvms (demo_target ∷ [])) }

abbrev discovered : Terminal ℕ
discovered = record fresh { app = record fresh.app { jvms_query = some found_jvms } }

abbrev s_key : KeyEvent
s_key = record { key_code = char b's'; modifiers = 0; kind = press }

discovered-Reach : Reach whole_host discovered
unfolding start_terminal oprofiler.App.Session.spawn_refresh_jvms spawn
discovered-Reach = after fresh discovered (started (clock 100) none) (
    answer discovered.app (
      to_jvms (spawn refresh_jvms) found_jvms refl (
        arrives (spawn refresh_jvms) (jvms (demo_target ∷ [])) refl
          (inl (demo_target ∷ [], refl)))))

abbrev listed : Terminal ℕ
listed = refresh_turn whole_host (clock 101) discovered

discovered_running : discovered.running ≡ true
unfolding start_terminal
discovered_running = refl

listed-Reach : Reach whole_host listed
listed-Reach = after discovered listed discovered-Reach (turn (clock 101) discovered_running)

listed_running : listed.running ≡ true
unfolding refresh_turn start_terminal
listed_running = refl

listed_view : same_view listed.app.selected_view live_allocation_hot_spots ≡ false
unfolding oprofiler.Model.Views.same_view refresh_turn oprofiler.App.Update.auto_update
    oprofiler.App.Results.poll_queries start_terminal oprofiler.App.Session.spawn_refresh_jvms
    oprofiler.App.State.new oprofiler.App.State.push_log
    oprofiler.App.Session.ensure_default_jvm_selected oprofiler.Jvm.Targets.is_likely_demo_server
    oprofiler.Base.Text.contains_text oprofiler.App.Session.spawn_refresh_telemetry
    oprofiler.App.Selection.is_memory_view
listed_view = refl

Reach-key_returns_example :
    (t' : Terminal ℕ) × (key_turn whole_host (clock 102) clipboard s_key listed ≡ some t')
    × Reach whole_host t'
Reach-key_returns_example =
    Reach-key_returns whole_host listed (clock 102) clipboard s_key listed-Reach listed_running
      listed_view

Reach-one_in_flight_example :
    (starts listed.app.pending_queries ≡ as_num listed.app.cpu_recording_start_pending)
    × (starts listed.app.pending_queries ≤ 1)
    × (stops listed.app.pending_queries ≡ as_num listed.app.cpu_recording_stop_pending)
    × (stops listed.app.pending_queries ≤ 1)
Reach-one_in_flight_example = Reach-one_in_flight whole_host listed listed-Reach

Reach-bounded_example :
    (length listed.app.logs ≤ 100)
    × (length listed.app.telemetry_state.samples ≤ 240)
    × (length listed.app.cpu.samples ≤ 800)
    × (length listed.app.threads.history ≤ 240)
    × (length listed.app.threads.dumps ≤ 20)
    × DumpSelected listed.app.threads.selected_dump (length listed.app.threads.dumps)
Reach-bounded_example = Reach-bounded whole_host listed listed-Reach

move_index-le_example : move_index 3 (pos 20) 9 ≤ 9
move_index-le_example = move_index-le 3 (pos 20) 9 (omega arith)

keep_visible-IsShown_example :
    IsShown (keep_visible 10 45 30) 45 30 × (IsShown 10 45 30 → keep_visible 10 45 30 ≡ 10)
keep_visible-IsShown_example = keep_visible-IsShown 10 45 30 (omega arith) (omega arith)

abbrev some_ports : Ports
some_ports = record {
  owner_pids = λ port. if ltb port 8851 then 99 ∷ [] else [];
  bind_v4 = λ port. true;
  bind_v6 = λ port. true;
}

select_attach_port-Found_example :
    (port_is_usable_for_attach some_ports 4711 8849 ≡ true
      → select_attach_port some_ports 4711 8849 ≡ some 8849)
    × (port_is_usable_for_attach some_ports 4711 8849 ≡ false
        → Found some_ports 4711 8849 151 (select_attach_port some_ports 4711 8849))
select_attach_port-Found_example = select_attach_port-Found some_ports 4711 8849

abbrev idle : KeyDebounce
idle = record { last = none }

press_twice_example :
    (is_accepted (5 + 100_000_000) s_key (after_key 5 s_key idle)
      ≡ not (ltb 100_000_000 debounce_nanos))
    × (100_000_000 < debounce_nanos
        → after_key (5 + 100_000_000) s_key (after_key 5 s_key idle) ≡ after_key 5 s_key idle)
unfolding oprofiler.Event.Terminal.is_navigation_key oprofiler.Event.Terminal.should_accept
press_twice_example = press_twice idle (char b's') 0 5 100_000_000 refl refl

-- ===== src/Reach/Safety.antt =====
-- app.rs and crates/tui/src/lib.rs: what holds in every state that the terminal loop can reach.
use oprofiler.Base.{
  ℕ, ◌≤◌, ◌≡◌, Bool, true, false, List, [], ◌∷◌, ◌++◌, Option, none, some, arith, All, Result,
  length, as_num, if◌then◌else◌, not, ◌&&◌, subst, refl, ap, Option-cases, inl, inr,
}
use oprofiler.Base.Text.{Text}
use oprofiler.Model.Views.{same_view, live_allocation_hot_spots}
use oprofiler.Model.Floats.{Host}
use oprofiler.App.State.{App, Now, QueryHandle, new}
use oprofiler.App.Session.{set_agent_port}
use oprofiler.App.Flight.{Answers-Sent, IsHonest, IsQuiet, starts, stops}
use oprofiler.App.Invariant.{IsValid, DumpSelected, new-IsValid}
use oprofiler.App.Invariant.Actions.{set_agent_port-IsValid, spawn_refresh_jvms-IsValid}
use oprofiler.App.Invariant.Polled.{poll_queries-IsValid}
use oprofiler.App.Invariant.Turn.{auto_update-IsValid, handle_key-Handles, Handles}
use oprofiler.App.Results.{poll_queries}
use oprofiler.Event.{KeyEvent, Outcome, handle_key, char, esc}
use oprofiler.Event.Terminal.{
  Terminal, refresh_turn, key_turn, should_accept, conclude, same_key, is_normal,
}
use oprofiler.Reach.{
  start_terminal, Arrives, arrives, Delivers, to_jvms, to_telemetry, to_memory, to_thread,
  to_pending, Step, turn, key, answer, Reach, started, after,
}

module _ {F : Type 0} where
  -- An answer that arrives leaves its query what it was.
  arrived-IsHonest : (h h' : QueryHandle F) → Arrives h h' → IsHonest h → IsHonest h'
  arrived-IsHonest _ _ (arrives h r e a) (named, sent) = (named, Answers-Sent h.task r named a)

  arrived-task : (h h' : QueryHandle F) → Arrives h h' → h'.task ≡ h.task
  arrived-task _ _ (arrives h r e a) = refl

  arrived-IsQuiet : (h h' : QueryHandle F) → Arrives h h' → IsQuiet (some h) → IsQuiet (some h')
  arrived-IsQuiet _ _ (arrives h r e a) ((named, sent), no_start, no_stop) =
      ((named, Answers-Sent h.task r named a), no_start, no_stop)

  replaced-IsHonest :
      (before rest : List (QueryHandle F)) (h h' : QueryHandle F)
      → Arrives h h'
      → All IsHonest (before ++ h ∷ rest)
      → All IsHonest (before ++ h' ∷ rest)
  replaced-IsHonest [] rest h h' a (honest, others) = (arrived-IsHonest h h' a honest, others)
  replaced-IsHonest (b ∷ before) rest h h' a (honest, others) =
      (honest, replaced-IsHonest before rest h h' a others)

  replaced-starts :
      (before rest : List (QueryHandle F)) (h h' : QueryHandle F)
      → Arrives h h'
      → starts (before ++ h' ∷ rest) ≡ starts (before ++ h ∷ rest)
  replaced-starts [] rest _ _ (arrives h r e a) = refl
  replaced-starts (b ∷ before) rest h h' a = omega (arith, replaced-starts before rest h h' a)

  replaced-stops :
      (before rest : List (QueryHandle F)) (h h' : QueryHandle F)
      → Arrives h h'
      → stops (before ++ h' ∷ rest) ≡ stops (before ++ h ∷ rest)
  replaced-stops [] rest _ _ (arrives h r e a) = refl
  replaced-stops (b ∷ before) rest h h' a = omega (arith, replaced-stops before rest h h' a)

  delivered-IsValid : (app app' : App F) → Delivers app app' → IsValid app → IsValid app'
  delivered-IsValid app _ (to_jvms h h' at a) v =
      let quiet = arrived-IsQuiet h h' a (subst IsQuiet at v.quiet_jvms) in ground (arith, quiet)
  delivered-IsValid app _ (to_telemetry h h' at a) v =
      let quiet = arrived-IsQuiet h h' a (subst IsQuiet at v.quiet_telemetry) in
      ground (arith, quiet)
  delivered-IsValid app _ (to_memory h h' at a) v =
      let quiet = arrived-IsQuiet h h' a (subst IsQuiet at v.quiet_memory) in ground (arith, quiet)
  delivered-IsValid app _ (to_thread h h' at a) v =
      let quiet = arrived-IsQuiet h h' a (subst IsQuiet at v.quiet_thread) in ground (arith, quiet)
  delivered-IsValid app _ (to_pending before rest h h' at a) v =
      let honest = replaced-IsHonest before rest h h' a (subst (All IsHonest) at v.honest) in
      let same_starts = replaced-starts before rest h h' a in
      let same_stops = replaced-stops before rest h h' a in
      ground (arith, honest, same_starts, same_stops, ap starts at, ap stops at)

module _ {F : Type 0} (host : Host F) where
  start_terminal-IsValid :
      (now : Now) (port : Option ℕ) → IsValid (start_terminal host now port).app
  unfolding start_terminal
  start_terminal-IsValid now none = spawn_refresh_jvms-IsValid (new host now) (new-IsValid host now)
  start_terminal-IsValid now (some port) =
      spawn_refresh_jvms-IsValid (set_agent_port port (new host now))
        (set_agent_port-IsValid port (new host now) (new-IsValid host now))

  refresh_turn-IsValid :
      (now : Now) (t : Terminal F) → IsValid t.app → IsValid (refresh_turn host now t).app
  unfolding refresh_turn
  refresh_turn-IsValid now t v =
      auto_update-IsValid host now _ (poll_queries-IsValid host now t.app v)

  -- A turn with a key returns, and to a valid application.
  abbrev KeyReturns : Option (Terminal F) → Type 0
  KeyReturns none = ⊥
  KeyReturns (some t) = IsValid t.app

  concluded : (t : Terminal F) (o : Outcome F) → Handles o → KeyReturns (conclude t o)
  concluded t none v = absurd v
  concluded t (some (app, result)) v = ground arith

  either-KeyReturns :
      (b : Bool) (t u : Option (Terminal F))
      → KeyReturns t
      → KeyReturns u
      → KeyReturns (if b then t else u)
  either-KeyReturns true t u v w = v
  either-KeyReturns false t u v w = w

  -- A panic is nowhere in a turn with a key: the turn ends, with a valid application.
  pub key_turn-KeyReturns :
      (now : Now) (copied : Text → Result (Unit {0})) (event : KeyEvent) (t : Terminal F)
      → IsValid t.app
      → KeyReturns (key_turn host now copied event t)
  unfolding key_turn
  key_turn-KeyReturns now copied event t v =
      let polled = poll_queries-IsValid host now t.app v in
      let handled = handle_key-Handles host now copied event (poll_queries host now t.app) polled in
      let next : Terminal F = record t {
        app = poll_queries host now t.app;
        debounce = (should_accept now.instant event t.debounce).0;
      } in
      let app = poll_queries host now t.app in
      let ended = concluded next (handle_key host now copied event app) handled in
      either-KeyReturns (not (should_accept now.instant event t.debounce).1)
        (some (record t { debounce = next.debounce })) _ v
        (either-KeyReturns (same_key event.key_code (char b'?') && is_normal app.input_mode)
          (some (record next { app = record app { show_help = not app.show_help } })) _
          (ground arith)
          (either-KeyReturns (app.show_help && same_key event.key_code esc)
            (some (record next { app = record app { show_help = false } })) _ (ground arith)
            (either-KeyReturns app.show_help (some next)
              (conclude next (handle_key host now copied event app)) polled ended)))

  Step-IsValid : (t t' : Terminal F) → Step host t t' → IsValid t.app → IsValid t'.app
  Step-IsValid t _ (turn now on) v = refresh_turn-IsValid now t v
  Step-IsValid t t' (key now copied event _ on e) v =
      subst KeyReturns e (key_turn-KeyReturns now copied event t v)
  Step-IsValid t _ (answer app' d) v = delivered-IsValid t.app app' d v

  -- Every reachable state has a valid application.
  pub Reach-IsValid : (t : Terminal F) → Reach host t → IsValid t.app
  Reach-IsValid _ (started now port) = start_terminal-IsValid now port
  Reach-IsValid _ (after t t' r s) = Step-IsValid t t' s (Reach-IsValid t r)

  -- In every state that the loop can reach, the flag of a start request says exactly whether one is
  -- among the pending queries, and at most one is; and the same for a stop request.
  pub Reach-one_in_flight :
      (t : Terminal F)
      → Reach host t
      → (starts t.app.pending_queries ≡ as_num t.app.cpu_recording_start_pending)
        × (starts t.app.pending_queries ≤ 1)
        × (stops t.app.pending_queries ≡ as_num t.app.cpu_recording_stop_pending)
        × (stops t.app.pending_queries ≤ 1)
  Reach-one_in_flight t r = let v = Reach-IsValid t r in ground arith

  -- In every state that the loop can reach, the history kept is bounded: 100 log entries, 240
  -- telemetry samples, 800 stack samples, 240 thread summaries and 20 thread dumps; and a selected
  -- dump is one of those kept.
  pub Reach-bounded :
      (t : Terminal F)
      → Reach host t
      → (length t.app.logs ≤ 100)
        × (length t.app.telemetry_state.samples ≤ 240)
        × (length t.app.cpu.samples ≤ 800)
        × (length t.app.threads.history ≤ 240)
        × (length t.app.threads.dumps ≤ 20)
        × DumpSelected t.app.threads.selected_dump (length t.app.threads.dumps)
  Reach-bounded t r = let v = Reach-IsValid t r in ground arith

  -- In every state that the loop can reach, in which it still runs and which does not show the view of
  -- the allocation hot spots, the turn with a key event, whatever the key, the time and the clipboard's
  -- answer, returns without a panic, and the state after it is reachable too. (In the view of the
  -- allocation hot spots the turn lists the visible rows, which ends only if no rows run in a circle.)
  pub Reach-key_returns :
      (t : Terminal F) (now : Now) (copied : Text → Result (Unit {0})) (event : KeyEvent)
      → Reach host t
      → t.running ≡ true
      → same_view t.app.selected_view live_allocation_hot_spots ≡ false
      → (t' : Terminal F) × (key_turn host now copied event t ≡ some t') × Reach host t'
  Reach-key_returns t now copied event r on other =
      elim (Option-cases (key_turn host now copied event t)) [
        | inl e ↦
            absurd (subst KeyReturns e (key_turn-KeyReturns now copied event t (Reach-IsValid t r)))
        | inr (t', e) ↦ (t', e, after t t' r (key now copied event t' on e))
      ]

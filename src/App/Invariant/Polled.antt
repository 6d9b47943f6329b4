-- ===== src/App/Invariant/Polled.antt =====
-- app.rs: polling takes the answers that have come in and applies them one after the other; at the
-- end the flags of the start and stop requests say again what is in flight.
use oprofiler.Base.{
  ℕ, suc, ◌+◌, ◌≡◌, refl, Bool, true, false, List, [], ◌∷◌, ◌++◌, Option, none, some, arith, All,
  inl, inr, Option-cases, Bool-cases,
}
use oprofiler.Base.Text.{Text, text_eq}
use oprofiler.Model.Floats.{Host}
use oprofiler.Model.Rows.{LogLevel}
use oprofiler.App.State.{
  App, Now, QueryResult, QueryHandle, jvms, jvms_error, telemetry, live_memory_rows, cpu_sample,
  cpu_instrumentation, thread_dump, heap_snapshot, cpu_recording, gc, poll, push_log,
}
use oprofiler.App.Flight.{
  IsHonest, IsQuiet, starts, stops, result_starts, result_stops, stop_action,
}
use oprofiler.App.Session.{set_agent_port}
use oprofiler.App.Results.{
  apply_cpu_recording, apply_result, take_answer, left_in_slot, answers_of, still_pending,
  apply_results, poll_queries,
}
use oprofiler.App.Invariant.{IsValid, IsValidDuring, push_log-IsValid}
use oprofiler.App.Invariant.Actions.{spawn_fetch-IsValid}
use oprofiler.App.Invariant.Applied.{apply_plain-IsValid}

module _ {F : Type 0} where
  -- The answers to start requests among answers, and those to stop requests.
  abbrev pub answered_starts : List (QueryResult F) → ℕ
  answered_starts [] = 0
  answered_starts (r ∷ rest) = result_starts r + answered_starts rest

  abbrev pub answered_stops : List (QueryResult F) → ℕ
  answered_stops [] = 0
  answered_stops (r ∷ rest) = result_stops r + answered_stops rest

  answered_starts-append :
      (xs ys : List (QueryResult F))
      → answered_starts (xs ++ ys) ≡ answered_starts xs + answered_starts ys
  answered_starts-append [] ys = omega arith
  answered_starts-append (r ∷ xs) ys = omega (arith, answered_starts-append xs ys)

  answered_stops-append :
      (xs ys : List (QueryResult F))
      → answered_stops (xs ++ ys) ≡ answered_stops xs + answered_stops ys
  answered_stops-append [] ys = omega arith
  answered_stops-append (r ∷ xs) ys = omega (arith, answered_stops-append xs ys)

  -- Taking the answers out of the pending queries neither loses nor invents a request.
  counted_starts :
      (hs : List (QueryHandle F))
      → All IsHonest hs
      → starts (still_pending hs) + answered_starts (answers_of hs) ≡ starts hs
  unfolding still_pending answers_of poll
  counted_starts [] a = omega arith
  counted_starts (h ∷ hs) (honest, rest) = elim (Option-cases h.rx) [
    | inl e ↦ ground (arith, counted_starts hs rest)
    | inr (r, e) ↦ ground (arith, counted_starts hs rest)
  ]

  counted_stops :
      (hs : List (QueryHandle F))
      → All IsHonest hs
      → stops (still_pending hs) + answered_stops (answers_of hs) ≡ stops hs
  unfolding still_pending answers_of poll
  counted_stops [] a = omega arith
  counted_stops (h ∷ hs) (honest, rest) = elim (Option-cases h.rx) [
    | inl e ↦ ground (arith, counted_stops hs rest)
    | inr (r, e) ↦ ground (arith, counted_stops hs rest)
  ]

  still_pending-IsHonest :
      (hs : List (QueryHandle F)) → All IsHonest hs → All IsHonest (still_pending hs)
  unfolding still_pending poll
  still_pending-IsHonest [] a = tt
  still_pending-IsHonest (h ∷ hs) (honest, rest) = elim (Option-cases h.rx) [
    | inl e ↦ ground (arith, still_pending-IsHonest hs rest)
    | inr (r, e) ↦ ground (arith, still_pending-IsHonest hs rest)
  ]

  -- A slot answers neither start nor stop requests.
  take_answer-IsQuiet :
      (slot : Option (QueryHandle F))
      → IsQuiet slot
      → (answered_starts (take_answer slot) ≡ 0)
        × (answered_stops (take_answer slot) ≡ 0)
        × IsQuiet (left_in_slot slot)
  unfolding poll
  take_answer-IsQuiet none q = ground arith
  take_answer-IsQuiet (some h) q = elim (Option-cases h.rx) [
    | inl e ↦ ground arith
    | inr (r, e) ↦ ground arith
  ]

module _ {F : Type 0} where
  recount :
      {s t s' t' : ℕ} (app : App F)
      → s ≡ s'
      → t ≡ t'
      → IsValidDuring s t app
      → IsValidDuring s' t' app
  recount app a b v = ground arith

  -- The answers taken out of the slots and the pending queries, in the order in which they are applied.
  abbrev pub taken : App F → List (QueryResult F)
  taken app =
      take_answer app.jvms_query
      ++ (take_answer app.telemetry_query
          ++ (take_answer app.memory_query
              ++ (take_answer app.thread_query ++ answers_of app.pending_queries)))

  -- And the application without them.
  abbrev pub emptied : App F → App F
  emptied app = record app {
    jvms_query = left_in_slot app.jvms_query;
    telemetry_query = left_in_slot app.telemetry_query;
    memory_query = left_in_slot app.memory_query;
    thread_query = left_in_slot app.thread_query;
    pending_queries = still_pending app.pending_queries;
  }

  taken_starts :
      (app : App F)
      → IsValid app
      → answered_starts (taken app) ≡ answered_starts (answers_of app.pending_queries)
  taken_starts app v = omega (
    arith,
    answered_starts-append (take_answer app.jvms_query) (
        take_answer app.telemetry_query
        ++ (take_answer app.memory_query
            ++ (take_answer app.thread_query ++ answers_of app.pending_queries))),
    answered_starts-append (take_answer app.telemetry_query) (
        take_answer app.memory_query
        ++ (take_answer app.thread_query ++ answers_of app.pending_queries)),
    answered_starts-append (take_answer app.memory_query)
        (take_answer app.thread_query ++ answers_of app.pending_queries),
    answered_starts-append (take_answer app.thread_query) (answers_of app.pending_queries),
    (take_answer-IsQuiet app.jvms_query v.quiet_jvms).0,
    (take_answer-IsQuiet app.telemetry_query v.quiet_telemetry).0,
    (take_answer-IsQuiet app.memory_query v.quiet_memory).0,
    (take_answer-IsQuiet app.thread_query v.quiet_thread).0,
  )

  taken_stops :
      (app : App F)
      → IsValid app
      → answered_stops (taken app) ≡ answered_stops (answers_of app.pending_queries)
  taken_stops app v = omega (
    arith,
    answered_stops-append (take_answer app.jvms_query) (
        take_answer app.telemetry_query
        ++ (take_answer app.memory_query
            ++ (take_answer app.thread_query ++ answers_of app.pending_queries))),
    answered_stops-append (take_answer app.telemetry_query) (
        take_answer app.memory_query
        ++ (take_answer app.thread_query ++ answers_of app.pending_queries)),
    answered_stops-append (take_answer app.memory_query)
        (take_answer app.thread_query ++ answers_of app.pending_queries),
    answered_stops-append (take_answer app.thread_query) (answers_of app.pending_queries),
    (take_answer-IsQuiet app.jvms_query v.quiet_jvms).1,
    (take_answer-IsQuiet app.telemetry_query v.quiet_telemetry).1,
    (take_answer-IsQuiet app.memory_query v.quiet_memory).1,
    (take_answer-IsQuiet app.thread_query v.quiet_thread).1,
  )

  emptied-IsValid :
      (app : App F)
      → IsValid app
      → IsValidDuring (answered_starts (taken app)) (answered_stops (taken app)) (emptied app)
  emptied-IsValid app v =
      let jvms_left = (take_answer-IsQuiet app.jvms_query v.quiet_jvms).2 in
      let telemetry_left = (take_answer-IsQuiet app.telemetry_query v.quiet_telemetry).2 in
      let memory_left = (take_answer-IsQuiet app.memory_query v.quiet_memory).2 in
      let thread_left = (take_answer-IsQuiet app.thread_query v.quiet_thread).2 in
      let honest = still_pending-IsHonest app.pending_queries v.honest in
      record {
        category = v.category;
        item = v.item;
        few_logs = v.few_logs;
        few_samples = v.few_samples;
        few_stacks = v.few_stacks;
        few_summaries = v.few_summaries;
        few_dumps = v.few_dumps;
        dump = v.dump;
        honest = honest;
        start_flag =
            omega (
              arith,
              v.start_flag,
              taken_starts app v,
              counted_starts app.pending_queries v.honest,
            );
        stop_flag =
            omega
              (arith, v.stop_flag, taken_stops app v, counted_stops app.pending_queries v.honest);
        quiet_jvms = jvms_left;
        quiet_telemetry = telemetry_left;
        quiet_memory = memory_left;
        quiet_thread = thread_left;
      }

module _ {F : Type 0} (host : Host F) (now : Now) where
  -- The answer to a start or stop request: whatever it says, it takes one request out of the count.
  recording_stop-IsValid :
      {s t : ℕ} (success : Bool) (action message : Text) (port : ℕ) (app : App F)
      → text_eq action stop_action ≡ true
      → IsValidDuring s (suc t) app
      → IsValidDuring s t (apply_cpu_recording host now success action message port app)
  unfolding apply_cpu_recording
  recording_stop-IsValid {s} {t} success action message port app named v =
      let stopped : App F = record app { cpu_recording_stop_pending = false } in
      let ended : App F = record stopped { cpu = record app.cpu { recording = false } } in
      let stopped_valid : IsValidDuring s t stopped = ground arith in
      let ended_valid : IsValidDuring s t ended = ground arith in
      ground (
        arith,
        push_log-IsValid now LogLevel.ok action message {app = ended} ended_valid,
        push_log-IsValid now LogLevel.error action message {app = stopped} stopped_valid,
      )

  recording_start-IsValid :
      {s t : ℕ} (success : Bool) (action message : Text) (port : ℕ) (app : App F)
      → text_eq action stop_action ≡ false
      → IsValidDuring (suc s) t app
      → IsValidDuring s t (apply_cpu_recording host now success action message port app)
  unfolding apply_cpu_recording set_agent_port
  recording_start-IsValid {s} {t} success action message port app named v =
      let answered : App F =
        record (set_agent_port port (record app { cpu_recording_start_pending = false })) {
          agent_enabled = true;
          cpu = record app.cpu { agent_port = port; recording = true };
        } in
      let refused : App F = record app {
        cpu_recording_start_pending = false;
        cpu = record app.cpu { recording = false };
      } in
      let answered_valid : IsValidDuring s t answered = ground arith in
      let refused_valid : IsValidDuring s t refused = ground arith in
      let logged =
        push_log-IsValid now LogLevel.ok action message {app = answered} answered_valid in
      ground (
        arith,
        logged,
        spawn_fetch-IsValid (push_log now LogLevel.ok action message answered) logged,
        push_log-IsValid now LogLevel.error action message {app = refused} refused_valid,
      )

  pub apply_result-IsValid :
      {s t : ℕ} (r : QueryResult F) (app : App F)
      → IsValidDuring (result_starts r + s) (result_stops r + t) app
      → IsValidDuring s t (apply_result host now r app)
  unfolding apply_result
  apply_result-IsValid (cpu_recording success action message pid port) app v =
      elim (Bool-cases (text_eq action stop_action)) [
        | inl e ↦
            recording_stop-IsValid success action message port app e
              (recount app (ground arith) (ground arith) v)
        | inr e ↦
            recording_start-IsValid success action message port app e
              (recount app (ground arith) (ground arith) v)
      ]
  apply_result-IsValid (jvms targets) app v =
      apply_plain-IsValid host now (jvms targets) app refl refl
        (recount app (omega arith) (omega arith) v)
  apply_result-IsValid (jvms_error message) app v =
      apply_plain-IsValid host now (jvms_error message) app refl refl
        (recount app (omega arith) (omega arith) v)
  apply_result-IsValid (telemetry process heap gc_counts elapsed cpu_seconds) app v =
      apply_plain-IsValid host now (telemetry process heap gc_counts elapsed cpu_seconds) app refl
        refl (recount app (omega arith) (omega arith) v)
  apply_result-IsValid (live_memory_rows result) app v =
      apply_plain-IsValid host now (live_memory_rows result) app refl refl
        (recount app (omega arith) (omega arith) v)
  apply_result-IsValid (cpu_sample result thread_status) app v =
      apply_plain-IsValid host now (cpu_sample result thread_status) app refl refl
        (recount app (omega arith) (omega arith) v)
  apply_result-IsValid (cpu_instrumentation result) app v =
      apply_plain-IsValid host now (cpu_instrumentation result) app refl refl
        (recount app (omega arith) (omega arith) v)
  apply_result-IsValid (thread_dump result) app v =
      apply_plain-IsValid host now (thread_dump result) app refl refl
        (recount app (omega arith) (omega arith) v)
  apply_result-IsValid (heap_snapshot success message path pid) app v =
      apply_plain-IsValid host now (heap_snapshot success message path pid) app refl refl
        (recount app (omega arith) (omega arith) v)
  apply_result-IsValid (gc success message pid) app v =
      apply_plain-IsValid host now (gc success message pid) app refl refl
        (recount app (omega arith) (omega arith) v)

  pub apply_results-IsValid :
      (rs : List (QueryResult F)) (app : App F)
      → IsValidDuring (answered_starts rs) (answered_stops rs) app
      → IsValid (apply_results host now rs app)
  unfolding apply_results
  apply_results-IsValid [] app v = v
  apply_results-IsValid (r ∷ rs) app v =
      apply_results-IsValid rs (apply_result host now r app) (apply_result-IsValid r app v)

  pub poll_queries-IsValid : (app : App F) → IsValid app → IsValid (poll_queries host now app)
  unfolding poll_queries
  poll_queries-IsValid app v =
      apply_results-IsValid (taken app) (emptied app) (emptied-IsValid app v)

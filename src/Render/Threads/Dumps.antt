-- ===== src/Render/Threads/Dumps.antt =====
-- crates/tui/src/render.rs: the thread dumps can be drawn after every poll.
use oprofiler.Base.{
  ap, ℕ, zero, suc, ◌<◌, ◌≡◌, List, [], ◌∷◌, Option, none, some, length, get_elem?, refl, arith,
}
use oprofiler.Base.Options.{◌>>=◌}
use oprofiler.Model.Floats.{Host}
use oprofiler.App.Invariant.{IsValid, DumpSelected}
use oprofiler.App.Invariant.Polled.{poll_queries-IsValid}
use oprofiler.App.Results.{poll_queries}
use oprofiler.App.State.{App, Now}
use oprofiler.Render.Texts.{Shown}
use oprofiler.Render.Threads.{shown_dump, dump_box, no_dumps, render_thread_dumps}
use oprofiler.Model.Threads.{ThreadDump}

get_elem?-some {ℓ} :
    {A : Type ℓ} (xs : List A) (i : ℕ) → i < length xs → (x : A) × (get_elem? xs i ≡ some x)
get_elem?-some [] i h = absurd (omega (arith, h))
get_elem?-some (x ∷ xs) zero h = (x, refl)
get_elem?-some (x ∷ xs) (suc i) h = get_elem?-some xs i (omega (arith, h))

module _ {F : Type 0} (host : Host F) where
  shown_dump-some :
      (height : ℕ) (dumps : List ThreadDump) (selected : Option ℕ)
      → DumpSelected selected (length dumps)
      → (box : Shown) × (shown_dump host height dumps selected ≡ some box)
  shown_dump-some height [] selected h = (no_dumps host, refl)
  shown_dump-some height (dump ∷ rest) none h = absurd (omega (arith, h))
  shown_dump-some height (dump ∷ rest) (some i) h =
      let (shown, e) = get_elem?-some (dump ∷ rest) i h in
      (dump_box host height i shown, ap (λ o. o >>= λ d. some (dump_box host height i d)) e)

  -- After any poll of a valid application, whatever dumps it had and got, the view of the thread dumps
  -- is drawn: the dump that it shows is one of those kept.
  pub poll_queries-thread_dumps_shown :
      (height : ℕ) (now : Now) (app : App F)
      → IsValid app
      → (box : Shown) × (render_thread_dumps host height (poll_queries host now app) ≡ some box)
  unfolding render_thread_dumps
  poll_queries-thread_dumps_shown height now app valid =
      let polled = poll_queries host now app in
      shown_dump-some height polled.threads.dumps polled.threads.selected_dump
        (let v = poll_queries-IsValid host now app valid in v.dump)

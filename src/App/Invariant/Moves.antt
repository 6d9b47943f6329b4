-- ===== src/App/Invariant/Moves.antt =====
-- app.rs: the operations that move the cursor keep the application valid.
use oprofiler.Base.{
  ◌⊎◌, ◌-◌, max, unsigned_abs, ℕ, zero, suc, ◌<◌, ◌≡◌, ℤ, Option, none, some, arith, length, inl,
  inr, Option-cases,
}
use oprofiler.Model.Floats.{Host}
use oprofiler.Model.Views.{ViewId}
use oprofiler.App.State.{App, Now, current_category_views}
use oprofiler.App.Selection.{
  go_to_view, toggle_focus_pane, next_category, prev_category, enter_filter_mode,
  on_selected_jvm_changed, step_jvm, next_jvm, prev_jvm, show_item, item_down, item_up, jumped,
  navigate_sidebar_down, navigate_sidebar_up, times, toggle_selected_hotspot_expanded,
  toggle_selected_allocation_hotspot_expanded,
}
use oprofiler.App.Update.{move_selection, navigate_left, navigate_right}
use oprofiler.App.Invariant.{IsValid, push_log-IsValid}

-- The operation returns, and to a valid application.
abbrev pub Returns : {F : Type 0} → Option (App F) → Type 0
Returns none = ⊥
Returns (some app) = IsValid app

category_cases : (i : ℕ) → i < 4 → (i ≡ 0) ⊎ ((i ≡ 1) ⊎ ((i ≡ 2) ⊎ (i ≡ 3)))
category_cases i h = ground arith

module _ {F : Type 0} where
  pub toggle_focus_pane-IsValid : {app : App F} → IsValid app → IsValid (toggle_focus_pane app)
  unfolding toggle_focus_pane
  toggle_focus_pane-IsValid v = ground arith

  pub enter_filter_mode-IsValid : {app : App F} → IsValid app → IsValid (enter_filter_mode app)
  unfolding enter_filter_mode
  enter_filter_mode-IsValid v = ground arith

  pub go_to_view-IsValid :
      (view : ViewId) {app : App F} → IsValid app → IsValid (go_to_view view app)
  unfolding go_to_view
  go_to_view-IsValid view v = ground arith

  pub next_category-IsValid : {app : App F} → IsValid app → IsValid (next_category app)
  unfolding next_category current_category_views
  next_category-IsValid v = ground arith

  pub prev_category-IsValid : {app : App F} → IsValid app → IsValid (prev_category app)
  unfolding prev_category current_category_views
  prev_category-IsValid v = ground arith

  -- The sidebar has one view to a category, so the selected one is always there.
  pub show_item-Returns : (app : App F) → IsValid app → Returns (show_item app)
  unfolding show_item current_category_views
  show_item-Returns app v = ground (arith, category_cases app.selected_category_idx)

  pub views_one : (app : App F) → IsValid app → length (current_category_views app) ≡ 1
  unfolding current_category_views
  views_one app v = ground (arith, category_cases app.selected_category_idx)

  item_down-IsValid : (app : App F) → IsValid app → IsValid (item_down app)
  unfolding item_down
  item_down-IsValid app v = ground (arith, views_one app v, next_category-IsValid {app = app} v)

  item_up-IsValid : (app : App F) → IsValid app → IsValid (item_up app)
  unfolding item_up
  item_up-IsValid app v = ground (arith, prev_category-IsValid {app = app} v)

  pub navigate_sidebar_down-Returns :
      (app : App F) → IsValid app → Returns (navigate_sidebar_down app)
  unfolding navigate_sidebar_down
  navigate_sidebar_down-Returns app v = show_item-Returns (item_down app) (item_down-IsValid app v)

  pub navigate_sidebar_up-Returns : (app : App F) → IsValid app → Returns (navigate_sidebar_up app)
  unfolding navigate_sidebar_up
  navigate_sidebar_up-Returns app v = show_item-Returns (item_up app) (item_up-IsValid app v)

  pub on_selected_jvm_changed-IsValid :
      (now : Now) (app : App F) → IsValid app → IsValid (on_selected_jvm_changed now app)
  unfolding on_selected_jvm_changed
  on_selected_jvm_changed-IsValid now app v = elim (Option-cases app.selected_pid) [
    | inl e ↦ rw e (ground arith)
    | inr (pid, e) ↦ rw e (push_log-IsValid _ _ _ _ (ground arith))
  ]

  jumped-IsValid : (jump : ℕ) (app : App F) → IsValid app → IsValid (jumped jump app)
  unfolding jumped
  jumped-IsValid jump app v = ground arith

  pub step_jvm-IsValid :
      (jump : ℕ) (now : Now) (app : App F) → IsValid app → IsValid (step_jvm jump now app)
  unfolding step_jvm
  step_jvm-IsValid jump now app v =
      ground
        (arith, on_selected_jvm_changed-IsValid now (jumped jump app) (jumped-IsValid jump app v))

  pub next_jvm-IsValid : (now : Now) (app : App F) → IsValid app → IsValid (next_jvm now app)
  unfolding next_jvm
  next_jvm-IsValid now app v = step_jvm-IsValid 1 now app v

  pub prev_jvm-IsValid : (now : Now) (app : App F) → IsValid app → IsValid (prev_jvm now app)
  unfolding prev_jvm
  prev_jvm-IsValid now app v = step_jvm-IsValid (length app.jvm_targets - 1) now app v

  pub times-IsValid :
      (f : App F → App F)
      → ((app : App F) → IsValid app → IsValid (f app))
      → (n : ℕ) (app : App F) → IsValid app
      → IsValid (times n f app)
  unfolding times
  times-IsValid f keep zero app v = v
  times-IsValid f keep (suc n) app v = times-IsValid f keep n (f app) (keep app v)

module _ {F : Type 0} (host : Host F) where
  pub toggle_hotspot-IsValid :
      (app : App F) → IsValid app → IsValid (toggle_selected_hotspot_expanded host app)
  unfolding toggle_selected_hotspot_expanded
  toggle_hotspot-IsValid app v = ground arith

  pub toggle_allocation-IsValid :
      (app : App F) → IsValid app → IsValid (toggle_selected_allocation_hotspot_expanded host app)
  unfolding toggle_selected_allocation_hotspot_expanded
  toggle_allocation-IsValid app v = ground arith

  pub navigate_left-IsValid : (app : App F) → IsValid app → IsValid (navigate_left host app)
  unfolding navigate_left
  navigate_left-IsValid app v = ground (arith, prev_category-IsValid {app = app} v)

  pub navigate_right-IsValid : (app : App F) → IsValid app → IsValid (navigate_right host app)
  unfolding navigate_right
  navigate_right-IsValid app v = ground (
    arith,
    next_category-IsValid {app = app} v,
    toggle_hotspot-IsValid app v,
    toggle_allocation-IsValid app v,
  )

  pub move_selection-Returns :
      (now : Now) (delta : ℤ) (app : App F)
      → IsValid app
      → Returns (move_selection host now delta app)
  unfolding move_selection
  move_selection-Returns now delta app v = ground (
    arith,
    times-IsValid (next_jvm now) (next_jvm-IsValid now) (max (unsigned_abs delta) 1) app v,
    times-IsValid (prev_jvm now) (prev_jvm-IsValid now) (max (unsigned_abs delta) 1) app v,
    navigate_sidebar_down-Returns app v,
    navigate_sidebar_up-Returns app v,
  )

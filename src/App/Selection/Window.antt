-- ===== src/App/Selection/Window.antt =====
-- app.rs: the selected row stays on the list and on the page that is shown.
use oprofiler.Base.{ℕ, ◌+◌, ◌^◌, ◌≤◌, ◌<◌, ◌≡◌, ℤ, arith, max}
use oprofiler.App.Selection.{move_index, keep_visible}

-- The row is on the page of `page_rows` rows, at least one, that begins at `offset`.
abbrev pub IsShown : ℕ → ℕ → ℕ → Type 0
IsShown offset row page_rows = (offset ≤ row) × (row < offset + max page_rows 1)

-- The cursor never leaves the list: from a place on it, any step ends at most at the last place.
pub move_index-le :
    (current : ℕ) (delta : ℤ) (max_idx : ℕ)
    → current ≤ max_idx
    → move_index current delta max_idx ≤ max_idx
unfolding move_index
move_index-le current delta max_idx h = ground arith

-- The new page shows the selected row; it is the old page where that shows the row already.
pub keep_visible-IsShown :
    (offset row page_rows : ℕ)
    → offset < 2 ^ 32
    → page_rows < 2 ^ 32
    → IsShown (keep_visible offset row page_rows) row page_rows
      × (IsShown offset row page_rows → keep_visible offset row page_rows ≡ offset)
unfolding keep_visible
keep_visible-IsShown offset row page_rows h k = ground arith

-- ===== src/Render/Hotspots/Page.antt =====
-- crates/tui/src/render.rs: the lines of CPU hot spots on the screen, and the places that the cursor
-- counts.
use oprofiler.Base.{
  ℕ, zero, suc, ◌+◌, ◌-◌, ◌≤◌, ◌∷◌, [], ◌++◌, List, ◌≡◌, refl, ◌↔◌, ◌&&◌, if◌then◌else◌, ltb, leb,
  take, drop, length, All, length-append, length-map, Bool-cases, inl, inr, arith, append-nil, sym,
  ap, append_assoc, ◌∙◌, min, length-take,
}
use oprofiler.Model.Floats.{Host}
use oprofiler.Model.Rows.{CpuMethodRow}
use oprofiler.App.State.{App}
use oprofiler.App.Rows.{shown_children, filtered_cpu_rows, count_rows, visible_hotspot_row_count}
use oprofiler.Render.Hotspots.{
  HotspotLine, callee_line, lines_of_row, push_lines, collect_lines, visible_lines,
}

-- The part of a list on a page.
abbrev page {ℓ} : {A : Type ℓ} → ℕ → ℕ → List A → List A
page offset limit xs = take limit (drop offset xs)

take-nil {ℓ} : {A : Type ℓ} (n : ℕ) → take {A = A} n [] ≡ []
take-nil zero = refl
take-nil (suc n) = refl

drop-nil {ℓ} : {A : Type ℓ} (n : ℕ) → drop {A = A} n [] ≡ []
drop-nil zero = refl
drop-nil (suc n) = refl

take-snoc {ℓ} :
    {A : Type ℓ} (limit : ℕ) (xs : List A) (x : A)
    → take limit (xs ++ x ∷ [])
      ≡ (if ltb (length (take limit xs)) limit then take limit xs ++ x ∷ [] else take limit xs)
take-snoc zero xs x = refl
take-snoc {A = A} (suc n) [] x = ground (arith, take-nil {A = A} n)
take-snoc (suc n) (y ∷ ys) x = ground (arith, take-snoc n ys x)

page-snoc {ℓ} :
    {A : Type ℓ} (offset limit : ℕ) (xs : List A) (x : A)
    → page offset limit (xs ++ x ∷ []) ≡ (
        if leb offset (length xs) && ltb (length (page offset limit xs)) limit
        then page offset limit xs ++ x ∷ []
        else page offset limit xs)
page-snoc zero limit xs x = ground (arith, take-snoc limit xs x)
page-snoc {A = A} (suc o) limit [] x = ground (arith, drop-nil {A = A} o)
page-snoc (suc o) limit (y ∷ ys) x = ground (arith, page-snoc o limit ys x)

take-full {ℓ} :
    {A : Type ℓ} (limit : ℕ) (xs ys : List A)
    → limit ≤ length (take limit xs)
    → take limit (xs ++ ys) ≡ take limit xs
take-full zero xs ys h = refl
take-full (suc n) [] ys h = absurd (omega arith)
take-full (suc n) (x ∷ xs) ys h = rw (take-full n xs ys (omega arith)) refl

page-full {ℓ} :
    {A : Type ℓ} (offset limit : ℕ) (xs ys : List A)
    → limit ≤ length (page offset limit xs)
    → page offset limit (xs ++ ys) ≡ page offset limit xs
page-full zero limit xs ys h = take-full limit xs ys h
page-full (suc o) zero [] ys h = refl
page-full (suc o) (suc n) [] ys h = absurd (omega arith)
page-full (suc o) limit (x ∷ xs) ys h = page-full o limit xs ys h

module _ {F : Type 0} where
  -- All lines of the table, in sight or not.
  unfoldable pub all_lines : App F → List (CpuMethodRow F) → List (HotspotLine F)
  unfolding lines_of_row
  all_lines app [] = []
  all_lines app (row ∷ rest) = lines_of_row app row ++ all_lines app rest

  -- One step of `push_lines` on a page.
  pushed-page :
      (offset limit : ℕ) (before : List (HotspotLine F)) (line : HotspotLine F)
      → ◌≡◌ {A = List (HotspotLine F) × ℕ}
          (
            if leb offset (length before) && ltb (length (page offset limit before)) limit
                then page offset limit before ++ line ∷ []
                else page offset limit before,
            length before + 1,
          )
          (page offset limit (before ++ line ∷ []), length (before ++ line ∷ []))
  pushed-page offset limit before line =
      rw (page-snoc offset limit before line, length-append before (line ∷ [])) refl

  push_lines-page :
      (offset limit : ℕ) (lines before : List (HotspotLine F))
      → push_lines offset limit lines (page offset limit before, length before)
        ≡ (page offset limit (before ++ lines), length (before ++ lines))
  unfolding push_lines
  push_lines-page offset limit [] before = rw (append-nil before) refl
  push_lines-page offset limit (line ∷ rest) before =
      ap (push_lines offset limit rest) (pushed-page offset limit before line)
      ∙ (push_lines-page offset limit rest (before ++ line ∷ [])
          ∙ ap (λ all. (page offset limit all, length all)) (append_assoc before (line ∷ []) rest))

  nothing-page : (offset limit : ℕ) → page {A = HotspotLine F} offset limit [] ≡ []
  nothing-page offset limit =
      ap (λ xs. take limit xs) (drop-nil {A = HotspotLine F} offset) ∙ take-nil limit

  collect_lines-page :
      (app : App F) (limit : ℕ) (rows : List (CpuMethodRow F)) (before : List (HotspotLine F))
      → collect_lines app limit rows (page app.cpu.row_offset limit before, length before)
        ≡ page app.cpu.row_offset limit (before ++ all_lines app rows)
  unfolding collect_lines all_lines
  collect_lines-page app limit [] before = rw (append-nil before) refl
  collect_lines-page app limit (row ∷ rest) before =
      let seen = before ++ lines_of_row app row in
      let here = page app.cpu.row_offset limit seen in
      rw
        (
          push_lines-page app.cpu.row_offset limit (lines_of_row app row) before,
          sym (append_assoc before (lines_of_row app row) (all_lines app rest)),
        )
        (elim (Bool-cases (leb limit (length here))) [
          | inl full ↦ ground (
            arith,
            full,
            collect_lines-page app limit rest seen,
            page-full app.cpu.row_offset limit seen (all_lines app rest) (ground (arith, full)),
          )
          | inr more ↦ ground (arith, more, collect_lines-page app limit rest seen)
        ])

  lines_of_row-length :
      (app : App F) (row : CpuMethodRow F)
      → length (lines_of_row app row) ≡ 1 + min 12 (length (shown_children app row))
  unfolding lines_of_row
  lines_of_row-length app row = omega (
    arith,
    length-map (callee_line row) (take 12 (shown_children app row)),
    length-take 12 (shown_children app row),
  )

  count_rows-from :
      (app : App F) (count : ℕ) (rows : List (CpuMethodRow F))
      → count_rows app count rows ≡ count + count_rows app 0 rows
  unfolding count_rows
  count_rows-from app count [] = omega arith
  count_rows-from app count (row ∷ rest) =
      let more = length (shown_children app row) in
      omega (
        arith,
        count_rows-from app (count + 1 + more) rest,
        count_rows-from app (0 + 1 + more) rest,
      )

  -- A row and those below it, in the lines of the table and in the places of the cursor.
  counts_of_row :
      (app : App F) (row : CpuMethodRow F) (rest : List (CpuMethodRow F))
      → (length (all_lines app (row ∷ rest))
          ≡ 1 + min 12 (length (shown_children app row)) + length (all_lines app rest))
        × (count_rows app 0 (row ∷ rest)
            ≡ 1 + length (shown_children app row) + count_rows app 0 rest)
  unfolding all_lines count_rows
  counts_of_row app row rest = (
    omega (
      arith,
      length-append (lines_of_row app row) (all_lines app rest),
      lines_of_row-length app row,
    ),
    omega (arith, count_rows-from app (0 + 1 + length (shown_children app row)) rest),
  )

  all_lines-le :
      (app : App F) (rows : List (CpuMethodRow F))
      → length (all_lines app rows) ≤ count_rows app 0 rows
  unfolding all_lines count_rows
  all_lines-le app [] = omega arith
  all_lines-le app (row ∷ rest) =
      let (lines, places) = counts_of_row app row rest in
      omega (arith, lines, places, all_lines-le app rest)

  abbrev Fits : App F → CpuMethodRow F → Type 0
  Fits app row = length (shown_children app row) ≤ 12

  all_lines-Fits :
      (app : App F) (rows : List (CpuMethodRow F))
      → length (all_lines app rows) ≡ count_rows app 0 rows
      → All (Fits app) rows
  all_lines-Fits app [] same = tt
  all_lines-Fits app (row ∷ rest) same =
      let (lines, places) = counts_of_row app row rest in
      let fewer = all_lines-le app rest in
      (
        omega (arith, same, lines, places, fewer),
        all_lines-Fits app rest (omega (arith, same, lines, places, fewer)),
      )

  all_lines-same :
      (app : App F) (rows : List (CpuMethodRow F))
      → All (Fits app) rows
      → length (all_lines app rows) ≡ count_rows app 0 rows
  unfolding all_lines count_rows
  all_lines-same app [] fits = refl
  all_lines-same app (row ∷ rest) (fits, later) =
      let (lines, places) = counts_of_row app row rest in
      omega (arith, lines, places, fits, all_lines-same app rest later)

module _ {F : Type 0} (host : Host F) where
  -- The lines that the table of hot spots shows are those of the page: of all lines, those from the
  -- offset on, as many as fit; the loop that stops early loses none of them.
  pub visible_lines-page :
      (height : ℕ) (app : App F)
      → visible_lines host height app
        ≡ take (height - 3) (drop app.cpu.row_offset (all_lines app (filtered_cpu_rows host app)))
  unfolding visible_lines
  visible_lines-page height app =
      let rows = filtered_cpu_rows host app in
      ap (λ start. collect_lines app (height - 3) rows (start, 0))
        (sym (nothing-page app.cpu.row_offset (height - 3)))
      ∙ collect_lines-page app (height - 3) rows []

  -- The table has as many lines as the cursor has places exactly if no row that is expanded has more
  -- than twelve callees.
  pub all_lines-visible_hotspot_row_count :
      (app : App F)
      → (length (all_lines app (filtered_cpu_rows host app)) ≡ visible_hotspot_row_count host app)
        ↔ All (λ row. length (shown_children app row) ≤ 12) (filtered_cpu_rows host app)
  unfolding visible_hotspot_row_count
  all_lines-visible_hotspot_row_count app =
      let rows = filtered_cpu_rows host app in (all_lines-Fits app rows, all_lines-same app rows)

-- ===== src/Slam/MapPng/Gray.antt =====
-- `to_gray`: every cell of the grid is drawn, upside down.
use mathlib.Core.Option
use olivaw_hub.Prelude.{
  ℕ, zero, suc, ◌+◌, ◌-◌, ◌*◌, ◌≤◌, ◌<◌, ◌≡◌, refl, ap, ◌∙◌, subst, ◌⊎◌, inl, inr, true, false,
  some, List, [], ◌∷◌, arith, ltb, length, get_elem?, take, drop, set, replicate, length-take,
  length-drop, length-set, length-replicate, get_elem?-set_self, get_elem?-set_ne, get_elem?-take,
  get_elem?-drop, lt→ltb, ge→ltb,
}
use native.Mathlib.Decide.{dec_lt}
use native.Mathlib.Nat.{mul_comm}
use olivaw_hub.Text.{Bytes}
use olivaw_hub.External.{Types, Floats}
use olivaw_hub.Slam.MapPng.{GridLib, GridLaws, gray_of, write_row, write_rows, to_gray}

module _ {t : Types} (floats : Floats t) where
  -- `after` is `before` with a run of pixels from `i` on drawn from `row`.
  record Drawn (row : List t.Cell) (i : ℕ) (before after : Bytes) : Type 0 where
    kept_length : length after ≡ length before
    outside : (j : ℕ) → (j < i) ⊎ (i + length row ≤ j) → get_elem? after j ≡ get_elem? before j
    inside :
        (k : ℕ)
        → k < length row
        → get_elem? after (i + k) ≡ Option.map (gray_of floats) (get_elem? row k)

  Drawn-cons :
      (c : t.Cell) (row : List t.Cell) (i : ℕ) (gray after : Bytes)
      → i < length gray
      → Drawn row (suc i) (set gray i (gray_of floats c)) after
      → Drawn (c ∷ row) i gray after
  Drawn-cons c row i gray after h d = record {
    kept_length = d.kept_length ∙ length-set gray i v;
    outside = outside;
    inside = inside;
  }
    where
      v : ℕ
      v = gray_of floats c

      outside :
          (j : ℕ) → (j < i) ⊎ (i + length (c ∷ row) ≤ j) → get_elem? after j ≡ get_elem? gray j
      outside j (inl l) =
          d.outside j (inl (omega arith)) ∙ get_elem?-set_ne gray i j v (λ e. absurd (omega arith))
      outside j (inr l) =
          d.outside j (inr (omega arith)) ∙ get_elem?-set_ne gray i j v (λ e. absurd (omega arith))

      inside :
          (k : ℕ)
          → k < length (c ∷ row)
          → get_elem? after (i + k) ≡ Option.map (gray_of floats) (get_elem? (c ∷ row) k)
      inside zero l =
          let e : i + 0 ≡ i = omega arith in
          ap (get_elem? after) e ∙ d.outside i (inl (omega arith)) ∙ get_elem?-set_self gray i v h
      inside (suc k) l =
          let e : i + suc k ≡ suc i + k = omega arith in
          ap (get_elem? after) e ∙ d.inside k (omega arith)

  write_row-Drawn :
      (row : List t.Cell) (i : ℕ) (gray : Bytes)
      → i + length row ≤ length gray
      → (after : Bytes) × (write_row floats row i gray ≡ some after) × Drawn row i gray after
  unfolding write_row
  write_row-Drawn [] i gray h =
      (gray, refl, record { kept_length = refl; outside = λ j o. refl; inside = λ k l. elim l [ ] })
  write_row-Drawn (c ∷ row) i gray h =
      let v = gray_of floats c in
      let kept = length-set gray i v in
      let (after, e, d) = write_row-Drawn row (suc i) (set gray i v) (omega arith) in
      let fits : ltb i (length gray) ≡ true = lt→ltb _ _ (omega arith) in
      (after, rw fits e, Drawn-cons c row i gray after (omega arith) d)

  -- The first `row` rows of the grid are drawn.
  record RowsDrawn (cells : List t.Cell) (w h row : ℕ) (gray : Bytes) : Type 0 where
    sized : length gray ≡ w * h
    pixels :
        (r c : ℕ)
        → r < row
        → c < w
        → get_elem? gray ((h - 1 - r) * w + c)
          ≡ Option.map (gray_of floats) (get_elem? cells (r * w + c))

  row_fits : (a b w : ℕ) → a < b → a * w + w ≤ b * w
  row_fits a b w h = grind arith

  next_row : (row w : ℕ) → (row + 1) * w ≡ row * w + w
  next_row row w = grind arith

  length-src :
      (cells : List t.Cell) (w h row : ℕ)
      → row < h
      → length cells ≡ h * w
      → length (take w (drop (row * w) cells)) ≡ w
  length-src cells w h row l whole =
      let fits = row_fits row h w l in
      omega (arith, length-take w (drop (row * w) cells), length-drop (row * w) cells)

  RowsDrawn-suc :
      (cells : List t.Cell) (w h row : ℕ) (gray after : Bytes)
      → row < h
      → length cells ≡ h * w
      → RowsDrawn cells w h row gray
      → Drawn (take w (drop (row * w) cells)) ((h - 1 - row) * w) gray after
      → RowsDrawn cells w h (row + 1) after
  RowsDrawn-suc cells w h row gray after l whole before d = record {
    sized = d.kept_length ∙ before.sized;
    pixels = pixels;
  }
    where
      src : List t.Cell
      src = take w (drop (row * w) cells)

      full : length src ≡ w
      full = length-src cells w h row l whole

      pixels :
          (r c : ℕ)
          → r < row + 1
          → c < w
          → get_elem? after ((h - 1 - r) * w + c)
            ≡ Option.map (gray_of floats) (get_elem? cells (r * w + c))
      pixels r c hr hc = elim (dec_lt r row) [
        | yes older ↦
            let above = row_fits (h - 1 - row) (h - 1 - r) w (omega arith) in
            d.outside ((h - 1 - r) * w + c) (inr (omega (arith, above, full)))
            ∙ before.pixels r c older hc
        | no newer ↦
            let same : r ≡ row = omega arith in
            rw same (
              d.inside c (omega (arith, full))
              ∙ ap (Option.map (gray_of floats))
                  (get_elem?-take w (drop (row * w) cells) c hc ∙ get_elem?-drop (row * w) cells c))
      ]

  write_rows-suc :
      (cells : List t.Cell) (w h left row : ℕ) (gray now : Bytes)
      → ltb (length cells) ((row + 1) * w) ≡ false
      → write_row floats (take w (drop (row * w) cells)) ((h - 1 - row) * w) gray ≡ some now
      → write_rows floats cells w h (suc left) row gray
        ≡ write_rows floats cells w h left (row + 1) now
  unfolding write_rows
  write_rows-suc cells w h left row gray now inside drawn = ground arith

  write_rows-RowsDrawn :
      (cells : List t.Cell) (w h left row : ℕ) (gray : Bytes)
      → row + left ≡ h
      → length cells ≡ h * w
      → RowsDrawn cells w h row gray
      → (after : Bytes) × (write_rows floats cells w h left row gray ≡ some after)
        × RowsDrawn cells w h h after
  unfolding write_rows
  write_rows-RowsDrawn cells w h zero row gray e whole before =
      let same : row ≡ h = omega arith in
      (gray, refl, subst (λ k. RowsDrawn cells w h k gray) same before)
  write_rows-RowsDrawn cells w h (suc left) row gray e whole before =
      let src = take w (drop (row * w) cells) in
      let up = row_fits row h w (omega arith) in
      let down = row_fits (h - 1 - row) h w (omega arith) in
      let full = length-src cells w h row (omega arith) whole in
      let area : w * h ≡ h * w = mul_comm w h in
      let room : (h - 1 - row) * w + length src ≤ length gray =
        omega (arith, down, full, area, before.sized) in
      let (now, drawn, d) = write_row-Drawn src ((h - 1 - row) * w) gray room in
      let end = next_row row w in
      let inside : ltb (length cells) ((row + 1) * w) ≡ false =
        ge→ltb _ _ (omega (arith, up, end)) in
      let (after, rest, all) =
        write_rows-RowsDrawn cells w h left (row + 1) now (omega arith) whole
          (RowsDrawn-suc cells w h row gray now (omega arith) whole before d) in
      (after, write_rows-suc cells w h left row gray now inside drawn ∙ rest, all)

  module _ (lib : GridLib t) (laws : GridLaws lib) where
    -- Every pixel of the rendered grid.
    pub to_gray_drawn :
        (grid : t.Grid)
        → (gray : Bytes) × (to_gray floats lib grid ≡ some gray)
          × (length gray ≡ GridLib.width lib grid * GridLib.height lib grid)
          × ((r c : ℕ)
              → r < GridLib.height lib grid
              → c < GridLib.width lib grid
              → get_elem? gray ((GridLib.height lib grid - 1 - r) * GridLib.width lib grid + c)
                ≡ Option.map
                    (gray_of floats)
                    (get_elem? (GridLib.cells lib grid) (r * GridLib.width lib grid + c)))
    unfolding to_gray
    to_gray_drawn grid =
        let w = GridLib.width lib grid in
        let h = GridLib.height lib grid in
        let (gray, e, all) =
          write_rows-RowsDrawn (GridLib.cells lib grid) w h h 0 (replicate (w * h) 205)
            (omega arith) (GridLaws.length-cells laws grid)
            (record { sized = length-replicate (w * h) 205; pixels = λ r c l. elim l [ ] }) in
        (gray, e, all.sized, all.pixels)

    -- `to_gray` does not panic: it gives a pixel for each cell of the grid, and the cell in row `r`
    -- and column `c`, rows counted from below, gives the pixel in that column of the row that is
    -- `r` rows above the last.
    pub to_gray-pixels :
        (grid : t.Grid) (r c : ℕ)
        → r < GridLib.height lib grid
        → c < GridLib.width lib grid
        → (gray : Bytes) × (to_gray floats lib grid ≡ some gray)
          × (length gray ≡ GridLib.width lib grid * GridLib.height lib grid)
          × (get_elem? gray ((GridLib.height lib grid - 1 - r) * GridLib.width lib grid + c)
              ≡ Option.map
                  (gray_of floats)
                  (get_elem? (GridLib.cells lib grid) (r * GridLib.width lib grid + c)))
    to_gray-pixels grid r c hr hc =
        let (gray, e, sized, pixels) = to_gray_drawn grid in (gray, e, sized, pixels r c hr hc)

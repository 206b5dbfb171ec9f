-- ===== src/Slam/MapPng.antt =====
-- src/slam/map_png.rs: an occupancy grid as gray pixels, as a PNG and as a PGM.
pub mod Gray
pub mod Pgm
use olivaw_hub.Prelude.{
  ℕ, zero, suc, ◌+◌, ◌-◌, ◌*◌, ◌^◌, ◌≡◌, Bool, true, false, Option, none, some, List, [], ◌∷◌, ◌++◌,
  map, ltb, if◌then◌else◌, length, take, drop, set, replicate, ◌&&◌,
}
use olivaw_hub.Text.{Text, Bytes, codes}
use olivaw_hub.Text.Decimal.{decimal}
use olivaw_hub.External.{Types, FloatOps, Floats}

pub record MapSnapshot (t : Types) : Type 0 where
  pub version : ℕ
  pub width : ℕ
  pub height : ℕ
  pub origin : t.F64 × t.F64
  pub resolution : t.F64
  pub gray : Bytes
  pub png : Bytes

-- `OccupancyGrid` of olivaw-slam and the encoder of the png crate, as the hub calls them.
pub record GridLib (t : Types) : Type 0 where
  pub width : t.Grid → ℕ
  pub height : t.Grid → ℕ
  pub cells : t.Grid → List t.Cell
  pub origin : t.Grid → t.F64 × t.F64
  pub resolution_m : t.Grid → t.F64
  pub png_encode : ℕ → ℕ → Bytes → Option Bytes

-- `cells` has a cell for each column of each row.
pub record GridLaws {t : Types} (g : GridLib t) : Type 0 where
  pub length-cells :
      (grid : t.Grid) → length (GridLib.cells g grid) ≡ GridLib.height g grid * GridLib.width g grid

module _ {t : Types} (floats : Floats t) where
  open floats use {cell}

  -- One cell: ((1 - p) * 255).round().clamp(0, 255) as u8, with p = 1 / (1 + exp (- log_odds)).
  unfoldable pub gray_of : t.Cell → ℕ
  gray_of log_odds =
      let one = FloatOps.lit cell 1 0 in
      let p =
        FloatOps.over cell one
          (FloatOps.plus cell one (FloatOps.exp cell (FloatOps.neg cell log_odds))) in
      let scaled = FloatOps.times cell (FloatOps.minus cell one p) (FloatOps.lit cell 255 0) in
      FloatOps.to_uint cell 8 (
        FloatOps.clamp cell (FloatOps.round cell scaled) (FloatOps.lit cell 0 0)
          (FloatOps.lit cell 255 0))

  -- A cell of `row` for each pixel from `i` on. Out of bounds the program panics: `none`.
  unfoldable pub write_row : List t.Cell → ℕ → Bytes → Option Bytes
  write_row [] i gray = some gray
  write_row (c ∷ row) i gray =
      if ltb i (length gray) then write_row row (suc i) (set gray i (gray_of c)) else none

  -- The rounds of `for row in 0..h` from `row` on, `left` of them; grid rows go up, pixel rows down.
  unfoldable pub write_rows : List t.Cell → ℕ → ℕ → ℕ → ℕ → Bytes → Option Bytes
  write_rows cells w h zero row gray = some gray
  write_rows cells w h (suc left) row gray =
      let src = take w (drop (row * w) cells) in
      elim (ltb (length cells) ((row + 1) * w)) [
        | true ↦ none
        | false ↦ elim (write_row src ((h - 1 - row) * w) gray) [
          | none ↦ none
          | some gray' ↦ write_rows cells w h left (row + 1) gray'
        ]
      ]

  module _ (lib : GridLib t) where
    open lib use {width, height, cells, origin, resolution_m, png_encode}

    unfoldable pub to_gray : t.Grid → Option Bytes
    to_gray grid =
        let w = width grid in
        let h = height grid in write_rows (cells grid) w h h 0 (replicate (w * h) 205)

    -- `none`: a side does not fit a u32, or the encoder fails. (`to_gray` does not panic: `Gray`.)
    unfoldable pub from_grid : t.Grid → ℕ → Option (MapSnapshot t)
    from_grid grid version =
        if ltb (width grid) (2 ^ 32) && ltb (height grid) (2 ^ 32)
        then elim (to_gray grid) [
          | none ↦ none
          | some gray ↦ elim (png_encode (width grid) (height grid) gray) [
            | none ↦ none
            | some png ↦ some (record {
              version = version;
              width = width grid;
              height = height grid;
              origin = origin grid;
              resolution = resolution_m grid;
              gray = gray;
              png = png;
            })
          ]
        ]
        else none

-- The `map_server` convention: occupied 0, free 254, unknown 205.
unfoldable pub pgm_level : ℕ → ℕ
pgm_level g = if ltb g 90 then 0 else if ltb 205 g then 254 else 205

unfoldable pub pgm_header : ℕ → ℕ → Text
pgm_header width height =
    codes "P5\n" ++ (decimal width ++ (codes " " ++ (decimal height ++ codes "\n255\n")))

unfoldable pub to_pgm : {t : Types} → MapSnapshot t → Bytes
to_pgm m = pgm_header m.width m.height ++ map pgm_level m.gray

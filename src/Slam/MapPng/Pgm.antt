-- ===== src/Slam/MapPng/Pgm.antt =====
-- The PGM twin of a rendered map.
use olivaw_hub.Prelude.{
  ℕ, ◌+◌, ◌*◌, ◌^◌, ◌<◌, ◌≡◌, ap, ◌∙◌, inl, inr, some, map, arith, length, length-append,
  length-map, Option-cases,
}
use olivaw_hub.External.{Types, Floats}
use olivaw_hub.Slam.MapPng.{
  GridLib, GridLaws, MapSnapshot, from_grid, pgm_level, pgm_header, to_pgm,
}
use olivaw_hub.Slam.MapPng.Gray.{to_gray_drawn}

length-to_pgm :
    {t : Types} (m : MapSnapshot t)
    → length (to_pgm m) ≡ length (pgm_header m.width m.height) + length m.gray
unfolding to_pgm
length-to_pgm m =
    length-append (pgm_header m.width m.height) (map pgm_level m.gray)
    ∙ ap (λ n. length (pgm_header m.width m.height) + n) (length-map m.gray pgm_level)

module _ {t : Types} (floats : Floats t) (lib : GridLib t) (laws : GridLaws lib) where
  -- A map that is rendered has the grid's sides, which fit a u32, a gray pixel for each cell and the
  -- encoder's PNG of just those pixels; its PGM is as long as the header for those sides and one
  -- byte for each pixel.
  pub from_grid-sizes :
      (grid : t.Grid) (version : ℕ) (m : MapSnapshot t)
      → from_grid floats lib grid version ≡ some m
      → (m.version ≡ version)
        × (m.width ≡ GridLib.width lib grid)
        × (m.height ≡ GridLib.height lib grid)
        × (m.width < 2 ^ 32)
        × (m.height < 2 ^ 32)
        × (length m.gray ≡ m.width * m.height)
        × (GridLib.png_encode lib m.width m.height m.gray ≡ some m.png)
        × (length (to_pgm m) ≡ length (pgm_header m.width m.height) + m.width * m.height)
  unfolding from_grid
  from_grid-sizes grid version m h =
      let (gray, e, sized, _) = to_gray_drawn floats lib laws grid in
      let pgm = length-to_pgm m in
      elim (Option-cases
        (GridLib.png_encode lib (GridLib.width lib grid) (GridLib.height lib grid) gray)) [
          | inl failed ↦ absurd (ground arith)
          | inr (png, q) ↦ (
            ground arith,
            ground arith,
            ground arith,
            ground arith,
            ground arith,
            ground arith,
            ground arith,
            ground arith,
          )
        ]

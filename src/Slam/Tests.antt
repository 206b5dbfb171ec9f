-- ===== src/Slam/Tests.antt =====
-- A grid of two rows drawn, and a scan thinned out.
use mathlib.Core.Option
use olivaw_hub.Prelude.{
  false, ℕ, ◌+◌, ◌-◌, ◌*◌, ◌/◌, ◌++◌, ◌⊎◌, none, ◌^◌, ◌≤◌, ◌<◌, max, ◌≡◌, refl, some, List, [], ◌∷◌,
  arith, length, get_elem?,
}
use olivaw_hub.Text.{Bytes}
use olivaw_hub.External.Toy.{toy, toy_floats, toy_proto, toy_slam}
use olivaw_hub.Slam.Toy.{toy_grids, tuning, rounds, first_thread, last_thread, goes_on}
use olivaw_hub.Slam.MapPng.{
  GridLaws, MapSnapshot, gray_of, write_row, write_rows, to_gray, from_grid, pgm_header, to_pgm,
}
use olivaw_hub.Slam.MapPng.Gray.{to_gray-pixels}
use olivaw_hub.Slam.MapPng.Pgm.{from_grid-sizes}
use olivaw_hub.Slam.Worker.{decimate_step, to_world, decimate, start, work_all}
use olivaw_hub.Slam.Worker.Cadence.{from, versions, poses}
use olivaw_hub.Slam.Worker.Numbering.{work_all-versions}
use olivaw_hub.Slam.Worker.Mailbox.{
  Exchange, Step, submits, takes, Reach, later, taken-Sub, latest-taken,
}
use olivaw_hub.Slam.Worker.{submit, notify_one}
use olivaw_hub.Slam.Worker.Mailbox
use olivaw_hub.Slam.Worker.Decimate.{decimate-spaced, decimate_exceeds}

grids_laws : GridLaws toy_grids
grids_laws = record { length-cells = λ g. refl }

abbrev pixels : Bytes
pixels = 0 ∷ 255 ∷ 255 ∷ 0 ∷ []

abbrev drawn : MapSnapshot toy
drawn = record {
  version = 1;
  width = 2;
  height = 2;
  origin = (0, 0);
  resolution = 1;
  gray = pixels;
  png = pixels;
}

from_grid_5 : from_grid toy_floats toy_grids 5 1 ≡ some drawn
unfolding from_grid to_gray gray_of write_rows write_row
from_grid_5 = refl

-- The cell in the bottom row's first column.
to_gray-pixels_example :
    (gray : Bytes) × (to_gray toy_floats toy_grids 5 ≡ some gray)
    × (length gray ≡ 2 * 2)
    × (get_elem? gray ((2 - 1 - 0) * 2 + 0)
        ≡ Option.map (gray_of toy_floats) (get_elem? (5 ∷ 0 ∷ 0 ∷ 300 ∷ []) (0 * 2 + 0)))
to_gray-pixels_example =
    to_gray-pixels toy_floats toy_grids grids_laws 5 0 0 (omega arith) (omega arith)

from_grid-sizes_example :
    (drawn.version ≡ 1)
    × (drawn.width ≡ 2)
    × (drawn.height ≡ 2)
    × (drawn.width < 2 ^ 32)
    × (drawn.height < 2 ^ 32)
    × (length drawn.gray ≡ drawn.width * drawn.height)
    × (some drawn.gray ≡ some drawn.png)
    × (length (to_pgm drawn)
        ≡ length (pgm_header drawn.width drawn.height) + drawn.width * drawn.height)
from_grid-sizes_example = from_grid-sizes toy_floats toy_grids grids_laws 5 1 drawn from_grid_5

abbrev seven : List ℕ
seven = 1 ∷ 2 ∷ 3 ∷ 4 ∷ 5 ∷ 6 ∷ 7 ∷ []

-- Seven points with a limit of three: every second one.
decimate-spaced_example :
    ((i : ℕ)
      → get_elem? (decimate toy_floats toy_slam seven 10 3) i
        ≡ Option.map (to_world toy_floats toy_slam 10) (get_elem? seven (i * decimate_step 7 3)))
    × (7 ≤ length (decimate toy_floats toy_slam seven 10 3) * decimate_step 7 3)
    × (length (decimate toy_floats toy_slam seven 10 3) * decimate_step 7 3 < 7 + decimate_step 7 3)
    × (length (decimate toy_floats toy_slam seven 10 3) < 2 * max 3 1)
decimate-spaced_example = decimate-spaced toy_floats toy_slam seven 10 3

-- With a limit of four, all seven.
decimate_exceeds_example : length (decimate toy_floats toy_slam seven 10 4) ≡ 7
decimate_exceeds_example =
    decimate_exceeds toy_floats toy_slam seven 10 4 (omega arith) (omega arith)

work_all-versions_example :
    versions (work_all toy_floats toy_proto toy_slam toy_grids tuning first_thread rounds).0
    ≡ from 0
        (poses (work_all toy_floats toy_proto toy_slam toy_grids tuning first_thread rounds).0 / 2)
unfolding start
work_all-versions_example =
    work_all-versions toy_floats toy_proto toy_slam toy_grids tuning first_thread last_thread rounds
      refl (omega arith) goes_on

-- Two frames are submitted, the second while the first one waits.
abbrev first_frame : List ℕ
first_frame = 1 ∷ []

abbrev second_frame : List ℕ
second_frame = 2 ∷ 3 ∷ []

abbrev waiting : Exchange toy
waiting = record {
  worker = record { slot = some second_frame; asleep = false };
  submitted = first_frame ∷ second_frame ∷ [];
  taken = [];
}

waiting-Reach : Reach waiting
unfolding submit notify_one
waiting-Reach = later (later Mailbox.start (submits first_frame refl)) (submits second_frame refl)

latest-taken_example :
    ((waiting.worker.slot ≡ none)
      × (before : List (List ℕ)) × (waiting.taken ≡ before ++ second_frame ∷ []))
    ⊎ ((y : Exchange toy) × Step waiting y × (y.taken ≡ second_frame ∷ []) × (y.worker.slot ≡ none))
latest-taken_example = latest-taken waiting (first_frame ∷ []) second_frame waiting-Reach refl

-- ===== src/Sim/Nearest.antt =====
-- A ray ends at the nearest wall that it meets.
use olivaw_hub.Prelude.{◌≡◌, ◌⊎◌, true, false, none, some, List, [], ◌∷◌}
use olivaw_hub.External.{FloatOps}
use olivaw_hub.Sim.{RoomOps, Wall, meets}

-- What `<` of the floating-point numbers satisfies, NaN included.
pub record OrderLaws {A : Type 0} (ops : RoomOps A) : Type 0 where
  pub lt_irrefl : (x : A) → RoomOps.lt ops x x ≡ false
  pub lt_trans :
      (x y z : A)
      → RoomOps.lt ops x y ≡ true
      → RoomOps.lt ops y z ≡ true
      → RoomOps.lt ops x z ≡ true

module _ {A : Type 0} (f : FloatOps A) (ops : RoomOps A) (o : A × A) (theta : A) where
  -- One of the walls is met at the distance `d`.
  abbrev pub Hits : A → List (Wall A) → Type 0
  Hits d [] = ⊥
  Hits d (w ∷ ws) = (meets f ops o theta w ≡ some d) ⊎ Hits d ws

  -- None of the walls is met before the distance `d`.
  abbrev pub Farther : A → List (Wall A) → Type 0
  Farther d [] = Unit {0}
  Farther d (w ∷ ws) =
      ((meets f ops o theta w ≡ none)
        ⊎ ((t : A) × (meets f ops o theta w ≡ some t) × (RoomOps.lt ops t d ≡ false)))
      × Farther d ws

  abbrev Kept : A → A → List (Wall A) → Type 0
  Kept best r ws =
      ((r ≡ best) × Farther best ws) ⊎ ((RoomOps.lt ops r best ≡ true) × Hits r ws × Farther r ws)

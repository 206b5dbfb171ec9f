-- ===== src/Sim.antt =====
-- src/sim/room.rs: a car that drives around a room, with a lidar made of rays.
pub mod Lcg
pub mod Nearest
pub mod Drive
mod Tests
use olivaw_hub.Prelude.{
  ℕ, zero, suc, ◌+◌, ◌-◌, Bool, true, false, not, ◌&&◌, Option, none, some, List, [], ◌∷◌, ◌++◌,
  if◌then◌else◌, length, get_elem?, map,
}
use olivaw_hub.External.{FloatOps}

-- What the simulator uses of `f64` besides: comparisons, with those of `abs`, and constants.
pub record RoomOps (A : Type 0) : Type 0 where
  pub lt : A → A → Bool
  pub le : A → A → Bool
  pub abs : A → A
  pub sqrt : A → A
  pub square : A → A
  pub atan2 : A → A → A
  pub pi : A
  pub tau : A

pub record Wall (A : Type 0) : Type 0 where
  pub a : A × A
  pub b : A × A

module _ {A : Type 0} (f : FloatOps A) where
  open f use {lit}

  unfoldable pub rect : A → A → A → A → List (Wall A)
  rect x0 y0 x1 y1 =
      record { a = (x0, y0); b = (x1, y0) }
      ∷ record { a = (x1, y0); b = (x1, y1) }
      ∷ record { a = (x1, y1); b = (x0, y1) }
      ∷ record { a = (x0, y1); b = (x0, y0) }
      ∷ []

  -- The room, a box, a table and a corner cupboard.
  unfoldable pub walls : List (Wall A)
  unfolding rect
  walls =
      rect (lit 0 0) (lit 0 0) (lit 7 0) (lit 5 0)
      ++ rect (lit 2 0) (lit 1 0) (lit 28 1) (lit 18 1)
      ++ rect (lit 45 1) (lit 3 0) (lit 55 1) (lit 42 1)
      ++ rect (lit 62 1) (lit 0 0) (lit 7 0) (lit 15 1)

  -- `PATH`.
  unfoldable pub path : List (A × A)
  path =
      (lit 1 0, lit 8 1)
      ∷ (lit 55 1, lit 8 1)
      ∷ (lit 58 1, lit 24 1)
      ∷ (lit 35 1, lit 42 1)
      ∷ (lit 1 0, lit 4 0)
      ∷ (lit 8 1, lit 23 1)
      ∷ []

module _ {A : Type 0} (f : FloatOps A) (ops : RoomOps A) where
  open f use {lit, neg, plus, minus, times, over, cos, sin}
  open ops use {lt, le, abs}

  -- Where the ray meets the line of a wall: the distance along the ray, if it meets the wall ahead.
  unfoldable pub meets : A × A → A → Wall A → Option A
  meets o theta w =
      let dx = cos theta in
      let dy = sin theta in
      let ex = minus w.b.0 w.a.0 in
      let ey = minus w.b.1 w.a.1 in
      let denom = minus (times dx ey) (times dy ex) in
      let fx = minus w.a.0 o.0 in
      let fy = minus w.a.1 o.1 in
      let t = over (minus (times fx ey) (times fy ex)) denom in
      let u = over (minus (times fx dy) (times fy dx)) denom in
      if lt (abs denom) (lit 1 9)
      then none
      else if lt (lit 1 9) t && le (neg (lit 1 6)) u && le u (plus (lit 1 0) (lit 1 6))
      then some t
      else none

  unfoldable pub nearer : Option A → A → A
  nearer none best = best
  nearer (some t) best = if lt t best then t else best

  -- The loop of `cast`, which keeps the nearest distance.
  unfoldable pub nearest : A × A → A → A → List (Wall A) → A
  unfolding nearer
  nearest o theta best [] = best
  nearest o theta best (w ∷ ws) = nearest o theta (nearer (meets o theta w) best) ws

  unfoldable pub cast : A × A → A → List (Wall A) → A → Option A
  unfolding nearest
  cast o theta ws limit =
      let best = nearest o theta limit ws in if lt best limit then some best else none

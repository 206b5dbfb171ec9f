-- ===== src/Viz.antt =====
-- src/viz/rerun.rs: what a worker's thread asks the rerun viewer to show. The viewer is a library; the
-- calls of it are kept as values, in their order.
pub mod Viewed
pub mod Follows
mod Tests
use olivaw_hub.Prelude.{
  ℕ, ◌+◌, ◌*◌, ◌%◌, ◌^◌, max, Option, none, some, List, [], ◌∷◌, ◌++◌, ◌==◌, if◌then◌else◌,
}
use olivaw_hub.Text.{Text, codes}
use olivaw_hub.External.{Types, FloatOps, Floats, Proto, ScanCloud, SlamLib}
use olivaw_hub.Slam.MapPng.{GridLib, from_grid}
use olivaw_hub.Slam.Worker.{WorkerTuning, Thread, Round, decimate, work}
use olivaw_hub.Units.{scan_frame_to_cloud}

-- The calls of the recording stream; a colour is red, green and blue.
pub data Call (t : Types) : Type 0 where
  set_time_sequence : Text → ℕ → Call t
  log_points : Text → List (Types.F32 t × Types.F32 t) → ℕ × ℕ × ℕ → Types.F32 t → Call t
  log_strip : Text → List (Types.F32 t × Types.F32 t) → ℕ × ℕ × ℕ → Call t
  log_grid : Text → Types.Grid t → Call t

unfoldable pub log_tracked :
    {t : Types} → Floats t → Text → ℕ → List (t.F32 × t.F32) → List (t.F32 × t.F32) → List (Call t)
log_tracked floats car seq scan_world trajectory =
    set_time_sequence (codes "scan") seq
    ∷ log_points (codes "cars/" ++ (car ++ codes "/scan")) scan_world (120, 200, 255)
        (FloatOps.lit (Floats.f32 floats) 15 3)
    ∷ log_strip (codes "cars/" ++ (car ++ codes "/trajectory")) trajectory (255, 170, 40)
    ∷ []

unfoldable pub log_map : {t : Types} → Text → t.Grid → List (Call t)
log_map car grid = log_grid (codes "cars/" ++ (car ++ codes "/map")) grid ∷ []

module _ {t : Types} (floats : Floats t) (proto : Proto t) (lib : SlamLib t) (grids : GridLib t)
    (car : Text) where
  -- The calls of a thread that has a sink, as far as `render`, `track`, `work` and `work_all` of
  -- src/slam/worker.rs go. A map is shown once it is rendered.
  unfoldable pub show_map : WorkerTuning → Thread t → List (Call t)
  show_map tuning th =
      if th.processed % max tuning.map_every_scans 1 == 0
      then (elim (from_grid floats grids (SlamLib.grid lib th.slam)
          ((th.map_version + 1) % 2 ^ 64)) [
            | none ↦ []
            | some _ ↦ log_map car (SlamLib.grid lib th.slam)
          ])
      else []

  -- A scan is shown before it is sent.
  unfoldable pub show_scan :
      WorkerTuning → Thread t → ScanCloud t → t.Pose2 → Round t → List (Call t)
  show_scan tuning th cloud pose round =
      let x = SlamLib.pose_x lib pose in
      let y = SlamLib.pose_y lib pose in
      let th' : Thread t = record th {
        processed = (th.processed + 1) % 2 ^ 32;
        trajectory = th.trajectory ++ (Floats.to_f32 floats x, Floats.to_f32 floats y) ∷ [];
      } in
      let world = decimate floats lib cloud.points pose tuning.ws_scan_points in
      let maps = show_map tuning th' in
      log_tracked floats car th'.processed world th'.trajectory
      ++ (if round.takes_pose then maps else [])

  unfoldable pub show : WorkerTuning → Thread t → t.ScanFrame → Round t → List (Call t)
  show tuning th frame round =
      let timestamp_ns = (Proto.t_ms proto frame * 1000000) % 2 ^ 64 in
      let cloud = scan_frame_to_cloud floats proto lib frame timestamp_ns in
      elim cloud.points [
        | [] ↦ []
        | _ ∷ _ ↦
            let (slam, placed) = SlamLib.process_scan lib th.slam cloud in
            elim placed [
              | none ↦ []
              | some pose ↦ show_scan tuning (record th { slam = slam }) cloud pose round
            ]
      ]

  unfoldable pub show_all : WorkerTuning → Thread t → List (t.ScanFrame × Round t) → List (Call t)
  show_all tuning th [] = []
  show_all tuning th ((frame, round) ∷ rounds) =
      show tuning th frame round ++ (elim (work floats proto lib grids tuning th frame round).1 [
        | none ↦ []
        | some th' ↦ show_all tuning th' rounds
      ])

-- ===== src/Slam/Worker/Cases.antt =====
-- The ways in which a round of the worker's thread can go.
use olivaw_hub.Prelude.{
  ◌⊎◌, ◌*◌, ◌%◌, ◌^◌, ◌≡◌, refl, inl, inr, some, List, [], ◌∷◌, arith, Option-cases,
}
use olivaw_hub.External.{Types, Floats, Proto, ScanCloud, SlamLib}
use olivaw_hub.Units.{scan_frame_to_cloud}
use olivaw_hub.Slam.MapPng.{GridLib}
use olivaw_hub.Slam.Worker.{WorkerTuning, Thread, Round, track, work}

module _ {t : Types} (floats : Floats t) (proto : Proto t) (lib : SlamLib t)
    (grids : GridLib t) where
  -- A round either only changes the engine's state, or goes on with a pose.
  pub work_cases :
      (tuning : WorkerTuning) (th : Thread t) (frame : t.ScanFrame) (round : Round t)
      → let done = work floats proto lib grids tuning th frame round in
        (s : t.Slam) × ((done ≡ ([], some (record th { slam = s })))
          ⊎ ((cloud : ScanCloud t) × (pose : t.Pose2) × (done
                ≡ track floats proto lib grids tuning
                    (record th { slam = s })
                    frame
                    cloud
                    pose
                    round)))
  unfolding work
  work_cases tuning th frame round = on_points cloud.points refl
    where
      cloud : ScanCloud t
      cloud =
          scan_frame_to_cloud floats proto lib frame ((Proto.t_ms proto frame * 1000000) % 2 ^ 64)

      on_points :
          (points : List t.Point2)
          → cloud.points ≡ points
          → (s : t.Slam) × ((work floats proto lib grids tuning th frame round
                ≡ ([], some (record th { slam = s })))
              ⊎ ((cloud : ScanCloud t) × (pose : t.Pose2) × (work floats proto lib grids tuning th
                      frame round
                    ≡ track floats proto lib grids tuning
                        (record th { slam = s })
                        frame
                        cloud
                        pose
                        round)))
      on_points [] e = (th.slam, inl (rw (e, work) refl))
      on_points (p ∷ ps) e =
          let slam = (SlamLib.process_scan lib th.slam cloud).0 in
          elim (Option-cases (SlamLib.process_scan lib th.slam cloud).1) [
            | inl rejected ↦ (slam, inl (ground arith))
            | inr (pose, placed) ↦ (slam, inr (cloud, pose, ground arith))
          ]

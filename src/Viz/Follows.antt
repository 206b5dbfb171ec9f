-- ===== src/Viz/Follows.antt =====
-- The viewer shows what the clients are sent.
use olivaw_hub.Prelude.{
  ◌+◌, ◌*◌, ◌%◌, ◌^◌, max, ◌≡◌, refl, sym, ap, ◌∙◌, inl, inr, some, List, [], ◌∷◌, ◌++◌, arith,
  ◌==◌, Bool-cases, Option-cases,
}
use olivaw_hub.Text.{Text}
use olivaw_hub.External.{Types, Floats, Proto, ScanCloud, SlamLib}
use olivaw_hub.Slam.MapPng.{GridLib, from_grid}
use olivaw_hub.Slam.Worker.{
  WorkerTuning, Thread, Round, decimate, start, render, track, work, work_all,
}
use olivaw_hub.Slam.Worker.Numbering.{work_all_goes_on, work_all_cons}
use olivaw_hub.Units.{scan_frame_to_cloud}
use olivaw_hub.Viz.{log_tracked, log_map, show_map, show_scan, show, show_all}
use olivaw_hub.Viz.Viewed.{
  scans_only, maps_shown, path_of, viewed, map_places, Follows, Follows-trans,
}

module _ {t : Types} (floats : Floats t) (proto : Proto t) (lib : SlamLib t) (grids : GridLib t)
    (car : Text) where
  render-Follows :
      (tuning : WorkerTuning) (th next : Thread t) (round : Round t)
      → (render floats proto lib grids tuning th round).1 ≡ some next
      → Follows floats car th
          (render floats proto lib grids tuning th round).0
          (show_map floats proto lib grids car tuning th)
          next
  unfolding render show_map log_map
  render-Follows tuning th next round h =
      let version = (th.map_version + 1) % 2 ^ 64 in
      elim (Bool-cases (th.processed % max tuning.map_every_scans 1 == 0)) [
        | inr early ↦
            let same : th ≡ next = ground arith in
            (rw early refl, rw early (sym (ap path_of same)), rw early refl)
        | inl due ↦
            elim (Option-cases (from_grid floats grids (SlamLib.grid lib th.slam) version)) [
              | inl failed ↦ absurd (ground arith)
              | inr (m, drawn) ↦ elim (Bool-cases round.takes_map) [
                | inl taken ↦
                    let same : record th { map_version = version } ≡ next = ground arith in
                    (
                      rw (due, drawn, taken) refl,
                      rw (due, drawn, taken) (sym (ap path_of same)),
                      rw (due, drawn, taken) refl,
                    )
                | inr gone ↦ absurd (ground arith)
              ]
            ]
      ]

  track-Follows :
      (tuning : WorkerTuning) (th next : Thread t) (frame : t.ScanFrame) (cloud : ScanCloud t)
      (pose : t.Pose2) (round : Round t)
      → (track floats proto lib grids tuning th frame cloud pose round).1 ≡ some next
      → Follows floats car th
          (track floats proto lib grids tuning th frame cloud pose round).0
          (show_scan floats proto lib grids car tuning th cloud pose round)
          next
  unfolding track render show_scan log_tracked
  track-Follows tuning th next frame cloud pose round h = elim (Bool-cases round.takes_pose) [
    | inl taken ↦
        let point : t.F32 × t.F32 = (
          Floats.to_f32 floats (SlamLib.pose_x lib pose),
          Floats.to_f32 floats (SlamLib.pose_y lib pose),
        ) in
        let counted : Thread t = record th {
          processed = (th.processed + 1) % 2 ^ 32;
          trajectory = th.trajectory ++ point ∷ [];
        } in
        let (shown, goes_on, maps) = render-Follows tuning counted next round (rw taken at h) in
        let world = decimate floats lib cloud.points pose tuning.ws_scan_points in
        let scan_shown = log_tracked floats car counted.processed world counted.trajectory in
        rw taken (ap (λ l. scan_shown ++ l) shown, goes_on, maps)
    | inr gone ↦ absurd (ground arith)
  ]

  work-Follows :
      (tuning : WorkerTuning) (th next : Thread t) (frame : t.ScanFrame) (round : Round t)
      → (work floats proto lib grids tuning th frame round).1 ≡ some next
      → Follows floats car th
          (work floats proto lib grids tuning th frame round).0
          (show floats proto lib grids car tuning th frame round)
          next
  unfolding work show
  work-Follows tuning th next frame round h = on_points cloud.points refl
    where
      cloud : ScanCloud t
      cloud =
          scan_frame_to_cloud floats proto lib frame ((Proto.t_ms proto frame * 1000000) % 2 ^ 64)

      on_points :
          (points : List t.Point2)
          → cloud.points ≡ points
          → Follows floats car th
              (work floats proto lib grids tuning th frame round).0
              (show floats proto lib grids car tuning th frame round)
              next
      on_points [] e =
          let w : work floats proto lib grids tuning th frame round ≡ ([], some th) =
            rw (e, work) refl in
          let quiet : show floats proto lib grids car tuning th frame round ≡ [] =
            rw (e, show) refl in
          let same : th ≡ next = ground (arith, w) in
          rw (w, quiet) (refl, sym (ap path_of same), refl)
      on_points (p ∷ ps) e =
          let slam = (SlamLib.process_scan lib th.slam cloud).0 in
          let th' : Thread t = record th { slam = slam } in
          elim (Option-cases (SlamLib.process_scan lib th.slam cloud).1) [
            | inl rejected ↦
                let w : work floats proto lib grids tuning th frame round ≡ ([], some th') =
                  ground arith in
                let quiet : show floats proto lib grids car tuning th frame round ≡ [] =
                  ground arith in
                let same : th' ≡ next = ground (arith, w) in
                rw (w, quiet) (refl, sym (ap path_of same), refl)
            | inr (pose, placed) ↦
                let w : work floats proto lib grids tuning th frame round
                    ≡ track floats proto lib grids tuning th' frame cloud pose round =
                  ground arith in
                let seen : show floats proto lib grids car tuning th frame round
                    ≡ show_scan floats proto lib grids car tuning th' cloud pose round =
                  ground arith in
                rw (w, seen)
                  (track-Follows tuning th' next frame cloud pose round (ap (λ x. x.1) (sym w) ∙ h))
          ]

  work_all-Follows :
      (tuning : WorkerTuning) (th last : Thread t) (rounds : List (t.ScanFrame × Round t))
      → (work_all floats proto lib grids tuning th rounds).1 ≡ some last
      → Follows floats car th
          (work_all floats proto lib grids tuning th rounds).0
          (show_all floats proto lib grids car tuning th rounds)
          last
  unfolding work_all show_all
  work_all-Follows tuning th last [] h =
      let same : th ≡ last = ground arith in (refl, sym (ap path_of same), refl)
  work_all-Follows tuning th last ((frame, round) ∷ rounds) h =
      let (next, goes_on) =
        work_all_goes_on floats proto lib grids tuning th last frame round rounds h in
      let e = work_all_cons floats proto lib grids tuning th next frame round rounds goes_on in
      let rest = work_all-Follows tuning next last rounds (ap (λ x. x.1) (sym e) ∙ h) in
      rw (goes_on, e)
        (Follows-trans floats car th next last (work floats proto lib grids tuning th frame round).0
          (work_all floats proto lib grids tuning next rounds).0
          (show floats proto lib grids car tuning th frame round)
          (show_all floats proto lib grids car tuning next rounds)
          (work-Follows tuning th next frame round goes_on) rest)

  -- A run of a thread from its start, as long as its results are taken and its maps can be rendered,
  -- shows in the viewer just the scans that it sends, in their order: each at the time of its number,
  -- counted from 1 in 32 bits, and with the line through the points of all poses up to its own. And as
  -- many maps are shown as are sent.
  pub show_all-viewed :
      (tuning : WorkerTuning) (first last : Thread t) (rounds : List (t.ScanFrame × Round t))
      → start floats proto lib grids ≡ some first
      → (work_all floats proto lib grids tuning first rounds).1 ≡ some last
      → let calls = show_all floats proto lib grids car tuning first rounds in
        let out = (work_all floats proto lib grids tuning first rounds).0 in
        (scans_only calls ≡ viewed floats car (0, []) out)
        × (maps_shown calls ≡ map_places floats car out)
  unfolding start
  show_all-viewed tuning first last rounds s h =
      let p : path_of first ≡ (0, []) = ground arith in
      let (scans, _, maps) = work_all-Follows tuning first last rounds h in
      let out = (work_all floats proto lib grids tuning first rounds).0 in
      (scans ∙ ap (λ q. viewed floats car q out) p, maps)

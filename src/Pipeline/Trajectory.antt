-- ===== src/Pipeline/Trajectory.antt =====
-- The trajectory of a car's snapshot is the end of its history of poses.
use olivaw_hub.Prelude.{
  ℕ, ◌+◌, ◌-◌, ◌≡◌, refl, sym, ap, ◌∙◌, inl, inr, Bool, Option, none, some, List, [], ◌∷◌, ◌++◌,
  if◌then◌else◌, ltb, arith, Bool-cases, Option-cases, length, length-append, drop, min, take,
  take-append-drop, length-drop, drop_all, drop-drop, drop-append_le, append-nil, append_assoc,
}
use olivaw_hub.Text.{Text, text_eq}
use olivaw_hub.Dict.{get}
use olivaw_hub.External.{Types, Floats}
use olivaw_hub.Config.{HubConfig}
use olivaw_hub.Ingest
use olivaw_hub.Ingest.{CarEvent, EventKind}
use olivaw_hub.Ingest.Mqtt.{Commander}
use olivaw_hub.Postcard.{Postcard}
use olivaw_hub.Session.Recorder.{Recorder}
use olivaw_hub.Slam.Worker.{tracked, map_output}
use olivaw_hub.State
use olivaw_hub.State.{CarSnapshot, MapInfo, fresh}
use olivaw_hub.Pipeline.{Input, init, received, slam_result, stats_tick, keep_last, with_pose, run}
use olivaw_hub.Pipeline.Car.{
  Car, view, known, hear, place, restart, car_step, car_run, car_tick_none, car_tick_some,
}
use olivaw_hub.Pipeline.Machine.{view-run}
use olivaw_hub.Pipeline.Counts.{IsSound-init}

module _ {ℓ} {A : Type ℓ} where
  keep_last-drop : (n : ℕ) (l : List A) → keep_last n l ≡ drop (length l - n) l
  unfolding keep_last
  keep_last-drop n l = elim (Bool-cases (ltb n (length l))) [
    | inl long ↦ rw long
    | inr short ↦
        let none_over : length l - n ≡ 0 = ground arith in
        rw short (ap (λ k. drop k l) (sym none_over))
  ]

  -- To drop old entries at each step or only at the end is the same.
  keep_last-append :
      (n : ℕ) (l : List A) (a : A)
      → keep_last n (keep_last n l ++ a ∷ []) ≡ keep_last n (l ++ a ∷ [])
  keep_last-append n l a =
      let d = length l - n in
      let k = length (drop d l ++ a ∷ []) - n in
      let cut : length (drop d l) ≡ length l - d = length-drop d l in
      let longer = length-append (drop d l) (a ∷ []) in
      let longest = length-append l (a ∷ []) in
      let same : d + k ≡ length (l ++ a ∷ []) - n = omega (arith, cut, longer, longest) in
      ap (λ x. keep_last n (x ++ a ∷ [])) (keep_last-drop n l)
      ∙ keep_last-drop n (drop d l ++ a ∷ [])
      ∙ ap (drop k) (sym (drop-append_le d l (a ∷ []) (omega arith)))
      ∙ drop-drop k d (l ++ a ∷ [])
      ∙ ap (λ x. drop x (l ++ a ∷ [])) same
      ∙ sym (keep_last-drop n (l ++ a ∷ []))

module _ {t : Types} (floats : Floats t) where
  -- The points of the poses that the car's worker reported.
  pub points_in : Text → Input t → List (t.F32 × t.F32)
  points_in j (slam_result car (tracked pose _)) =
      if text_eq car j then (Floats.to_f32 floats pose.x, Floats.to_f32 floats pose.y) ∷ [] else []
  points_in j _ = []

  unfoldable pub points_of : Text → List (Input t) → List (t.F32 × t.F32)
  unfolding points_in
  points_of j [] = []
  points_of j (i ∷ is) = points_in j i ++ points_of j is

  abbrev pub path : Option (CarSnapshot t) → List (t.F32 × t.F32)
  path none = []
  path (some c) = c.trajectory

  path-known :
      (n : ℕ) (j : Text) (o : Option (CarSnapshot t)) → (known floats n j o).trajectory ≡ path o
  unfolding known fresh
  path-known n j none = refl
  path-known n j (some c) = refl

  path-hear :
      (n : ℕ) (j : Text) (v : Car t) (at_ms : ℕ) (kind : EventKind t) (now : ℕ) (starts : Bool)
      → path (hear floats n j at_ms kind now starts (known floats n j v.seen) v).seen ≡ path v.seen
  unfolding hear
  path-hear n j v at_ms (Ingest.status text) now starts = path-known n j v.seen
  path-hear n j v at_ms (Ingest.telemetry x) now starts = path-known n j v.seen
  path-hear n j v at_ms (Ingest.scan frame) now starts = path-known n j v.seen

  path-car_step :
      (n : ℕ) (j : Text) (v : Car t) (i : Input t) (past : List (t.F32 × t.F32))
      → path v.seen ≡ keep_last n past
      → path (car_step floats n j v i).seen ≡ keep_last n (past ++ points_in j i)
  unfolding car_step points_in place with_pose restart
  path-car_step n j v (received e now starts) past h =
      let same = h ∙ ap (keep_last n) (sym (append-nil past)) in
      elim (Bool-cases (text_eq e.car j)) [
        | inl own ↦ rw own (path-hear n j v e.at_ms e.kind now starts ∙ same)
        | inr other ↦ rw other same
      ]
  path-car_step n j v (slam_result car (tracked pose world)) past h =
      elim (Bool-cases (text_eq car j)) [
        | inl own ↦
            let p : t.F32 × t.F32 = (Floats.to_f32 floats pose.x, Floats.to_f32 floats pose.y) in
            rw own (
              ap (λ l. keep_last n (l ++ p ∷ [])) (path-known n j v.seen ∙ h)
              ∙ keep_last-append n past p)
        | inr other ↦ rw other (h ∙ ap (keep_last n) (sym (append-nil past)))
      ]
  path-car_step n j v (slam_result car (map_output m)) past h =
      let same = h ∙ ap (keep_last n) (sym (append-nil past)) in
      elim (Bool-cases (text_eq car j)) [
        | inl own ↦ rw own (path-known n j v.seen ∙ same)
        | inr other ↦ rw other same
      ]
  path-car_step n j v (stats_tick clock) past h =
      let same = h ∙ ap (keep_last n) (sym (append-nil past)) in
      elim (Option-cases v.rate) [
        | inl absent ↦ ap (λ w. path w.seen) (car_tick_none floats n j clock v absent) ∙ same
        | inr (r, present) ↦
            ap (λ w. path w.seen) (car_tick_some floats n j clock v r present)
            ∙ path-known n j v.seen
            ∙ same
      ]

  path-car_run :
      (n : ℕ) (j : Text) (v : Car t) (is : List (Input t)) (past : List (t.F32 × t.F32))
      → path v.seen ≡ keep_last n past
      → path (car_run floats n j v is).seen ≡ keep_last n (past ++ points_of j is)
  unfolding car_run points_of
  path-car_run n j v [] past h = h ∙ ap (keep_last n) (sym (append-nil past))
  path-car_run n j v (i ∷ is) past h =
      path-car_run n j (car_step floats n j v i) is (past ++ points_in j i)
        (path-car_step n j v i past h)
      ∙ ap (keep_last n) (append_assoc past (points_in j i) (points_of j is))

  -- A car's trajectory is the end of the list of the points that its own worker has reported since the
  -- hub started, oldest first: what is left of them once some oldest ones are dropped, all of them if
  -- they are `trajectory_len` at most and the last `trajectory_len` else.
  pub trajectory-run :
      (codec : Postcard t) (cfg : HubConfig t) (commander : Commander) (recorder : Option Recorder)
      (inputs : List (Input t)) (j : Text)
      → let s = run floats codec (init cfg commander recorder) inputs in
        let kept = path (get j s.hub.cars) in
        (older : List (t.F32 × t.F32)) × (points_of j inputs ≡ older ++ kept)
        × (length kept ≡ min cfg.slam.trajectory_len (length (points_of j inputs)))
  unfolding init State.new get
  trajectory-run codec cfg commander recorder inputs j =
      let n = cfg.slam.trajectory_len in
      let s = init cfg commander recorder in
      let all = points_of j inputs in
      let over = length all - n in
      let same =
        ap (λ v. path v.seen)
          (view-run floats codec n j s inputs (IsSound-init floats cfg commander recorder))
        ∙ path-car_run n j (view j s) inputs []
            (sym (keep_last-drop n [] ∙ drop_all (0 - n) [] (omega arith)))
        ∙ keep_last-drop n all in
      (
        take over all,
        sym (take-append-drop over all) ∙ ap (◌++◌ (take over all)) (sym same),
        omega (arith, ap length same, length-drop over all),
      )

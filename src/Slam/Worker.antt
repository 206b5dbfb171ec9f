-- ===== src/Slam/Worker.antt =====
-- src/slam/worker.rs: the mailbox of a car's worker, and the loop of its thread.
pub mod Decimate
pub mod Cases
pub mod Cadence
pub mod Mailbox
pub mod Numbering
use olivaw_hub.Prelude.{
  ℕ, zero, suc, ◌+◌, ◌-◌, ◌*◌, ◌/◌, ◌%◌, ◌^◌, max, Bool, true, false, Option, none, some, List, [],
  ◌∷◌, ◌++◌, map, ◌==◌, if◌then◌else◌, length,
}
use olivaw_hub.Text.{Text}
use olivaw_hub.External.{Types, FloatOps, Floats, Proto, ScanCloud, SlamLib}
use olivaw_hub.Slam.MapPng.{MapSnapshot, GridLib, from_grid}
use olivaw_hub.State.{PoseInfo}
use olivaw_hub.Units.{scan_frame_to_cloud}

pub data SlamOutput (t : Types) : Type 0 where
  tracked : PoseInfo t → List (Types.F32 t × Types.F32 t) → SlamOutput t
  map_output : MapSnapshot t → SlamOutput t

-- The latest-frame mailbox, which the pipeline and the worker's thread share: its slot, and whether
-- the thread sleeps on the condition variable `ready`. The lock is held for one operation at a time.
pub record SlamWorker (t : Types) : Type 0 where
  pub slot : Option t.ScanFrame
  pub asleep : Bool

pub record WorkerTuning : Type 0 where
  pub map_every_scans : ℕ
  pub ws_scan_points : ℕ

-- The locals of `run`.
pub record Thread (t : Types) : Type 0 where
  pub slam : t.Slam
  pub processed : ℕ
  pub map_version : ℕ
  pub trajectory : List (t.F32 × t.F32)

-- What a round meets outside: the measured time, and whether the two sends find a receiver.
pub record Round (t : Types) : Type 0 where
  pub match_ms : t.F32
  pub takes_pose : Bool
  pub takes_map : Bool

-- The thread is the only one that waits. A notification is not kept for a thread that does not.
unfoldable pub notify_one : {t : Types} → SlamWorker t → SlamWorker t
notify_one w = record w { asleep = false }

-- `submit`: a frame that was not taken yet is replaced, and `notify_one` wakes the thread if it sleeps.
unfoldable pub submit : {t : Types} → SlamWorker t → t.ScanFrame → SlamWorker t
unfolding notify_one
submit w frame = notify_one (record w { slot = some frame })

-- An awake thread that finds the slot empty falls asleep, `ready.wait`; `none` in other states. It may
-- wake without a notification, and looks again.
unfoldable pub fall_asleep : {t : Types} → SlamWorker t → Option (SlamWorker t)
fall_asleep w =
    if w.asleep
    then none
    else elim w.slot [ none ↦ some (record w { asleep = true }) | some _ ↦ none ]

-- An awake thread takes the frame that it finds; `none` while it sleeps or there is nothing to take.
unfoldable pub take_frame : {t : Types} → SlamWorker t → Option (t.ScanFrame × SlamWorker t)
take_frame w =
    if w.asleep
    then none
    else elim w.slot [ none ↦ none | some frame ↦ some (frame, record w { slot = none }) ]

-- `step_by (suc s)`, after `skip` more elements.
unfoldable pub step_by {ℓ} : {A : Type ℓ} → ℕ → ℕ → List A → List A
step_by s skip [] = []
step_by s zero (x ∷ xs) = x ∷ step_by s s xs
step_by s (suc skip) (x ∷ xs) = step_by s skip xs

unfoldable pub decimate_step : ℕ → ℕ → ℕ
decimate_step n limit = max (n / max limit 1) 1

module _ {t : Types} (floats : Floats t) (lib : SlamLib t) where
  open lib use {transform_point, point_x, point_y}

  unfoldable pub to_world : t.Pose2 → t.Point2 → t.F32 × t.F32
  to_world pose p =
      let w = transform_point pose p in
      (Floats.to_f32 floats (point_x w), Floats.to_f32 floats (point_y w))

  unfoldable pub decimate : List t.Point2 → t.Pose2 → ℕ → List (t.F32 × t.F32)
  unfolding step_by decimate_step to_world
  decimate points pose limit =
      map (to_world pose) (step_by (decimate_step (length points) limit - 1) 0 points)

module _ {t : Types} (floats : Floats t) (proto : Proto t) (lib : SlamLib t)
    (grids : GridLib t) where
  unfoldable pub start : Option (Thread t)
  start = elim (SlamLib.new_slam lib) [
    | none ↦ none
    | some slam ↦ some (record { slam = slam; processed = 0; map_version = 0; trajectory = [] })
  ]

  -- After a pose was sent: a map at each multiple of `map_every_scans`. No thread is left where the
  -- map cannot be rendered or nobody receives it.
  unfoldable pub render :
      WorkerTuning → Thread t → Round t → List (SlamOutput t) × Option (Thread t)
  render tuning th round =
      if th.processed % max tuning.map_every_scans 1 == 0
      then (let version = (th.map_version + 1) % 2 ^ 64 in
          elim (from_grid floats grids (SlamLib.grid lib th.slam) version) [
            | none ↦ ([], none)
            | some snapshot ↦
                if round.takes_map
                then (map_output snapshot ∷ [], some (record th { map_version = version }))
                else ([], none)
          ])
      else ([], some th)

  -- A scan that the engine placed.
  unfoldable pub track :
      WorkerTuning
      → Thread t
      → t.ScanFrame
      → ScanCloud t
      → t.Pose2
      → Round t
      → List (SlamOutput t) × Option (Thread t)
  track tuning th frame cloud pose round =
      let x = SlamLib.pose_x lib pose in
      let y = SlamLib.pose_y lib pose in
      let th' : Thread t = record th {
        processed = (th.processed + 1) % 2 ^ 32;
        trajectory = th.trajectory ++ (Floats.to_f32 floats x, Floats.to_f32 floats y) ∷ [];
      } in
      let info : PoseInfo t = record {
        x = x;
        y = y;
        theta = SlamLib.theta lib pose;
        seq = Proto.seq proto frame;
        match_ms = round.match_ms;
        keyframes = SlamLib.keyframes lib th.slam;
        loops = SlamLib.loops_closed lib th.slam;
      } in
      let world = decimate floats lib cloud.points pose tuning.ws_scan_points in
      if round.takes_pose
      then (let (maps, next) = render tuning th' round in (tracked info world ∷ maps, next))
      else ([], none)

  -- One round of the loop with the frame that was taken: what is sent, and the thread if it goes on.
  -- What it asks the rerun viewer to show is in Viz.
  unfoldable pub work :
      WorkerTuning → Thread t → t.ScanFrame → Round t → List (SlamOutput t) × Option (Thread t)
  work tuning th frame round =
      let timestamp_ns = (Proto.t_ms proto frame * 1000000) % 2 ^ 64 in
      let cloud = scan_frame_to_cloud floats proto lib frame timestamp_ns in
      elim cloud.points [
        | [] ↦ ([], some th)
        | _ ∷ _ ↦
            let (slam, placed) = SlamLib.process_scan lib th.slam cloud in
            elim placed [
              | none ↦ ([], some (record th { slam = slam }))
              | some pose ↦ track tuning (record th { slam = slam }) frame cloud pose round
            ]
      ]

  -- The loop, over the frames that the thread takes; the rest is not looked at once it has ended.
  unfoldable pub work_all :
      WorkerTuning
      → Thread t
      → List (t.ScanFrame × Round t)
      → List (SlamOutput t) × Option (Thread t)
  work_all tuning th [] = ([], some th)
  work_all tuning th ((frame, round) ∷ rounds) =
      let (out, next) = work tuning th frame round in
      elim next [
        | none ↦ (out, none)
        | some th' ↦ let (outs, last) = work_all tuning th' rounds in (out ++ outs, last)
      ]

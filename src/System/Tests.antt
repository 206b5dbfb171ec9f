-- ===== src/System/Tests.antt =====
-- A run of the hub with a thread: one scan on its way from the car to the clients.
use olivaw_hub.Prelude.{false, ℕ, ◌%◌, ◌^◌, ◌≡◌, refl, true, none, some, [], ◌∷◌, map}
use olivaw_hub.Prelude.Sub.{Sub}
use olivaw_hub.Text.{Text, codes, text_eq}
use olivaw_hub.External.{Proto}
use olivaw_hub.External.Toy.{toy, toy_floats, toy_proto, toy_slam}
use olivaw_hub.Config.{HubConfig, default_config}
use olivaw_hub.Ingest.{CarEvent, scan}
use olivaw_hub.Ingest.Mqtt.{Commander}
use olivaw_hub.Postcard.{toy_postcard}
use olivaw_hub.Slam.Toy.{toy_grids, takes_all, first_thread}
use olivaw_hub.Slam.Worker.{
  SlamOutput, tracked, start, take_frame, work, track, render, submit, notify_one, decimate,
  decimate_step, step_by, to_world,
}
use olivaw_hub.Pipeline.Car.{events_of}
use olivaw_hub.System.{
  System, boot, hear, deliver, take, handle, reply, set_thread, tuning_of, Step, Reach, booted,
  later, hears, takes, handles, replies, delivers,
}
use olivaw_hub.State
use olivaw_hub.State.{PoseInfo, update_car, emit}
use olivaw_hub.Pipeline.{
  step, init, on_event, on_kind, on_scan, ensure_worker, spawn, submit_to, count_scan, on_slam,
}
use olivaw_hub.Dict.{get, insert, contains_key}
use olivaw_hub.Units.{scan_frame_to_cloud}
use olivaw_hub.System.Lane.{results_in, frames_of, lane, LaneReach}
use olivaw_hub.System.Refines.{lane-Reach}
use olivaw_hub.System.Progress.{Acts, Taken, never_stuck}
use olivaw_hub.System.Poses.{seqs, poses-Sub}
use olivaw_hub.System.Versions.{versions_in, versions-numbered}
use olivaw_hub.Slam.Worker.Cadence.{from}

abbrev cfg : HubConfig toy
cfg = default_config toy_floats

abbrev commander : Commander
commander = record { client = [] }

abbrev a : Text
a = codes "a"

abbrev rotation : CarEvent toy
rotation = record { car = a; at_ms = 5; kind = scan (1 ∷ 2 ∷ []) }

abbrev s0 : System toy
s0 = boot toy_floats toy_postcard toy_proto toy_slam toy_grids cfg commander none

abbrev s1 : System toy
s1 = hear toy_floats toy_postcard toy_proto toy_slam toy_grids rotation 1 true s0

abbrev s2 : System toy
s2 =
    take toy_floats toy_postcard toy_proto toy_slam toy_grids a (1 ∷ 2 ∷ [])
      (record { slot = none; asleep = false }) s1

abbrev s3 : System toy
s3 =
    handle toy_floats toy_postcard toy_proto toy_slam toy_grids a first_thread (1 ∷ 2 ∷ [])
      takes_all s2

abbrev placed : PoseInfo toy
placed = record { x = 1; y = 1; theta = 1; seq = 2; match_ms = 1; keyframes = 1; loops = 0 }

abbrev output : SlamOutput toy
output = tracked placed ((1, 1) ∷ (1, 1) ∷ [])

abbrev s4 : System toy
s4 = reply toy_floats toy_postcard toy_proto toy_slam toy_grids a output [] s3

abbrev s5 : System toy
s5 = deliver toy_floats toy_postcard toy_proto toy_slam toy_grids a output [] s4

abbrev Reached : System toy → Type 0
Reached = Reach toy_floats toy_postcard toy_proto toy_slam toy_grids cfg commander none

s1-Reach : Reached s1
s1-Reach = later booted (hears rotation 1 true refl)

s2-Reach : Reached s2
unfolding boot hear step on_event on_kind on_scan ensure_worker spawn submit_to submit notify_one
    count_scan insert contains_key get text_eq take_frame start update_car init
s2-Reach = later s1-Reach (
    takes a (record { slot = some (1 ∷ 2 ∷ []); asleep = false }) _ first_thread _ refl refl refl
      refl)

s3-Reach : Reached s3
unfolding boot hear take set_thread text_eq start
s3-Reach = later s2-Reach (handles a first_thread _ takes_all refl refl refl)

s4-Reach : Reached s4
unfolding boot hear take handle set_thread text_eq start work track render scan_frame_to_cloud
    decimate decimate_step step_by to_world init step on_event on_kind on_scan count_scan update_car
    tuning_of ensure_worker contains_key spawn State.new default_config
s4-Reach = later s3-Reach (replies a output [] refl refl)

s5-Reach : Reached s5
unfolding boot hear take handle reply set_thread text_eq start
s5-Reach = later s4-Reach (delivers a output [] refl refl)

lane-Reach_example :
    LaneReach toy_floats toy_proto toy_slam toy_grids (tuning_of cfg) a (lane toy_floats a s5)
lane-Reach_example =
    lane-Reach toy_floats toy_proto toy_slam toy_grids toy_postcard cfg commander none s5 a s5-Reach

poses-Sub_example :
    Sub
      (seqs (results_in (events_of a s5.pipeline.hub.events)))
      (map (Proto.seq toy_proto) (frames_of a s5.heard))
poses-Sub_example =
    poses-Sub toy_floats toy_proto toy_slam toy_grids toy_postcard cfg commander none s5 a s5-Reach

versions-numbered_example :
    (k : ℕ) × (versions_in (results_in (events_of a s5.pipeline.hub.events))
      ≡ map (λ n. n % 2 ^ 64) (from 0 k))
versions-numbered_example =
    versions-numbered toy_floats toy_proto toy_slam toy_grids toy_postcard cfg commander none s5 a
      s5-Reach

-- The pose of the scan was broadcast.
one_pose : seqs (results_in (events_of a s5.pipeline.hub.events)) ≡ 2 ∷ []
unfolding boot hear take handle reply deliver set_thread text_eq step on_event on_kind on_scan
    count_scan on_slam emit update_car init ensure_worker contains_key spawn State.new
one_pose = refl

-- The scan waits in the mailbox, and is then taken.
never_stuck_example :
    ((z : System toy) × Step toy_floats toy_postcard toy_proto toy_slam toy_grids s1 z
      × Acts toy_floats toy_proto toy_slam toy_grids toy_postcard a (1 ∷ 2 ∷ []) s1 z)
    × Taken toy_floats toy_proto toy_slam toy_grids toy_postcard a first_thread (1 ∷ 2 ∷ []) s2
unfolding boot hear step on_event on_kind on_scan ensure_worker spawn submit_to submit notify_one
    count_scan insert contains_key get text_eq take_frame start update_car init State.new
never_stuck_example =
    never_stuck toy_floats toy_proto toy_slam toy_grids toy_postcard cfg commander none s1 s2 a
      first_thread (1 ∷ 2 ∷ []) s1-Reach refl refl refl
      (takes a (record { slot = some (1 ∷ 2 ∷ []); asleep = false }) _ first_thread _ refl refl refl
        refl)

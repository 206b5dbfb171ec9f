-- ===== src/System.antt =====
-- The hub with its threads: the pipeline of src/pipeline.rs, one SLAM thread of src/slam/worker.rs
-- for each car, and the channel through which the threads answer. Each step is one atomic action of
-- the pipeline or of one thread, so a sequence of steps is one interleaving of them all.
pub mod Lane
pub mod Heard
pub mod Threads
pub mod Refines
pub mod Poses
pub mod Versions
pub mod Roused
pub mod Progress
mod Tests
use olivaw_hub.Prelude.{
  true, false, ℕ, ◌≡◌, Bool, Option, none, some, List, [], ◌∷◌, ◌++◌, if◌then◌else◌,
}
use olivaw_hub.Text.{Text, text_eq}
use olivaw_hub.Dict.{get, insert}
use olivaw_hub.External.{Types, Floats, Proto, SlamLib}
use olivaw_hub.Config.{HubConfig}
use olivaw_hub.Ingest.{CarEvent}
use olivaw_hub.Ingest.Mqtt.{Commander}
use olivaw_hub.Postcard.{Postcard}
use olivaw_hub.Session.Recorder.{Recorder}
use olivaw_hub.Slam.MapPng.{GridLib}
use olivaw_hub.Slam.Worker.{
  SlamOutput, SlamWorker, WorkerTuning, Thread, Round, start, take_frame, fall_asleep, work,
}
use olivaw_hub.Pipeline.{Pipeline, received, slam_result, stats_tick, init, step}

-- A thread: its locals while it goes on, the frame that it took, and what it has not sent yet.
pub record Busy (t : Types) : Type 0 where
  pub thread : Option (Thread t)
  pub frame : Option t.ScanFrame
  pub unsent : List (SlamOutput t)

-- `threads car` is the thread that the worker of `car` has once it is spawned; without a worker it
-- has no mailbox to take from. `heard` are the events so far, and the oldest result comes first in the
-- channel.
pub record System (t : Types) : Type 0 where
  pub pipeline : Pipeline t
  pub threads : Text → Busy t
  pub channel : List (Text × SlamOutput t)
  pub heard : List (CarEvent t)

unfoldable pub set_thread : {t : Types} → Text → Busy t → (Text → Busy t) → Text → Busy t
set_thread car b threads k = if text_eq car k then b else threads k

unfoldable pub tuning_of : {t : Types} → HubConfig t → WorkerTuning
tuning_of cfg = record {
  map_every_scans = cfg.slam.map_every_scans;
  ws_scan_points = cfg.slam.ws_scan_points;
}

module _ {t : Types} (floats : Floats t) (codec : Postcard t) (proto : Proto t) (lib : SlamLib t)
    (grids : GridLib t) where
  unfoldable pub boot : HubConfig t → Commander → Option Recorder → System t
  boot cfg commander recorder = record {
    pipeline = init cfg commander recorder;
    threads = λ car. record { thread = start floats proto lib grids; frame = none; unsent = [] };
    channel = [];
    heard = [];
  }

  -- The branch of `select!` for an event.
  unfoldable pub hear : CarEvent t → ℕ → Bool → System t → System t
  hear e now starts s = record s {
    pipeline = step floats codec s.pipeline (received e now starts);
    heard = s.heard ++ e ∷ [];
  }

  -- The timer's branch.
  unfoldable pub tick : (Text → ℕ × ℕ) → System t → System t
  tick clock s = record s { pipeline = step floats codec s.pipeline (stats_tick clock) }

  -- The branch for a result.
  unfoldable pub deliver : Text → SlamOutput t → List (Text × SlamOutput t) → System t → System t
  deliver car output rest s = record s {
    pipeline = step floats codec s.pipeline (slam_result car output);
    channel = rest;
  }

  -- The thread takes a frame, and its mailbox is left as `left`.
  unfoldable pub take : Text → t.ScanFrame → SlamWorker t → System t → System t
  take car frame left s = record s {
    pipeline = record s.pipeline { workers = insert car left s.pipeline.workers };
    threads = set_thread car (record (s.threads car) { frame = some frame }) s.threads;
  }

  -- The thread falls asleep or wakes: its mailbox becomes `w`.
  unfoldable pub set_mailbox : Text → SlamWorker t → System t → System t
  set_mailbox car w s = record s {
    pipeline = record s.pipeline { workers = insert car w s.pipeline.workers };
  }

  -- The thread handles the frame that it took. It reads nothing that others write until it takes the
  -- next, so its two sends may come later, as `reply`.
  unfoldable pub handle : Text → Thread t → t.ScanFrame → Round t → System t → System t
  handle car th frame round s =
      let tuning = tuning_of s.pipeline.hub.cfg in
      let (out, next) = work floats proto lib grids tuning th frame round in
      let b = s.threads car in
      record s {
        threads =
            set_thread car (record { thread = next; frame = none; unsent = b.unsent ++ out })
              s.threads;
      }

  -- The thread sends a result.
  unfoldable pub reply : Text → SlamOutput t → List (SlamOutput t) → System t → System t
  reply car output rest s = record s {
    threads = set_thread car (record (s.threads car) { unsent = rest }) s.threads;
    channel = s.channel ++ (car, output) ∷ [];
  }

  pub data Step (x y : System t) : Type 0 where
    hears : (e : CarEvent t) (now : ℕ) (starts : Bool) → y ≡ hear e now starts x → Step x y
    ticks : (clock : Text → ℕ × ℕ) → y ≡ tick clock x → Step x y
    delivers :
        (car : Text) (output : SlamOutput t) (rest : List (Text × SlamOutput t))
        → x.channel ≡ (car, output) ∷ rest
        → y ≡ deliver car output rest x
        → Step x y
    takes :
        (car : Text) (w left : SlamWorker t) (th : Thread t) (frame : t.ScanFrame)
        → x.threads car ≡ record { thread = some th; frame = none; unsent = [] }
        → get car x.pipeline.workers ≡ some w
        → take_frame w ≡ some (frame, left)
        → y ≡ take car frame left x
        → Step x y
    sleeps :
        (car : Text) (w left : SlamWorker t) (th : Thread t)
        → x.threads car ≡ record { thread = some th; frame = none; unsent = [] }
        → get car x.pipeline.workers ≡ some w
        → fall_asleep w ≡ some left
        → y ≡ set_mailbox car left x
        → Step x y
    wakes :
        (car : Text) (w : SlamWorker t)
        → get car x.pipeline.workers ≡ some w
        → w.asleep ≡ true
        → y ≡ set_mailbox car (record w { asleep = false }) x
        → Step x y
    handles :
        (car : Text) (th : Thread t) (frame : t.ScanFrame) (round : Round t)
        → (x.threads car).thread ≡ some th
        → (x.threads car).frame ≡ some frame
        → y ≡ handle car th frame round x
        → Step x y
    replies :
        (car : Text) (output : SlamOutput t) (rest : List (SlamOutput t))
        → (x.threads car).unsent ≡ output ∷ rest
        → y ≡ reply car output rest x
        → Step x y

  -- The states that the hub comes to from its start.
  pub data Reach (cfg : HubConfig t) (commander : Commander) (recorder : Option Recorder)
      : System t → Type 0 where
    booted : Reach cfg commander recorder (boot cfg commander recorder)
    later :
        {x y : System t}
        → Reach cfg commander recorder x
        → Step x y
        → Reach cfg commander recorder y

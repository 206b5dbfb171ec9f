-- ===== src/System/Lane.antt =====
-- What the hub promises about the scans of one car, without the other cars, the channel and the order
-- in which threads run: a lane with one mailbox, one thread, and the results on their way to the
-- clients as one list.
use olivaw_hub.Prelude.{
  ◌≡◌, refl, sym, ap, ◌∙◌, inl, inr, Option, none, some, List, [], ◌∷◌, ◌++◌, append_assoc,
  if◌then◌else◌, Bool-cases,
}
use olivaw_hub.Text.{Text, text_eq}
use olivaw_hub.External.{Types, Floats, Proto, SlamLib}
use olivaw_hub.Ingest
use olivaw_hub.Ingest.{CarEvent, EventKind}
use olivaw_hub.Slam.MapPng.{GridLib}
use olivaw_hub.Slam.Worker.{
  SlamOutput, tracked, map_output, SlamWorker, WorkerTuning, Thread, Round, start, work,
}
use olivaw_hub.State
use olivaw_hub.State.{PoseInfo, MapInfo, WsEvent}
use olivaw_hub.Pipeline.{info_of}
use olivaw_hub.Pipeline.Car.{Car, view}
use olivaw_hub.System.{Busy, System}

pub data Result (t : Types) : Type 0 where
  posed : PoseInfo t → Result t
  mapped : MapInfo t → Result t

-- `flow` are the car's results so far, oldest first: those that were broadcast, those in the channel
-- and those that the thread has not sent yet. `scans` are the rotations that were received.
pub record Lane (t : Types) : Type 0 where
  pub flow : List (Result t)
  pub slot : Option t.ScanFrame
  pub hand : Option t.ScanFrame
  pub thread : Option (Thread t)
  pub scans : List t.ScanFrame

module _ {t : Types} where
  abbrev pub results_in : List (WsEvent t) → List (Result t)
  results_in [] = []
  results_in (State.hello _ ∷ l) = results_in l
  results_in (State.status _ _ ∷ l) = results_in l
  results_in (State.telemetry _ _ _ ∷ l) = results_in l
  results_in (State.pose _ pose ∷ l) = posed pose ∷ results_in l
  results_in (State.scan _ _ _ ∷ l) = results_in l
  results_in (State.map _ info ∷ l) = mapped info ∷ results_in l
  results_in (State.stats _ _ _ ∷ l) = results_in l

  -- The car's part of the channel.
  abbrev pub of_car : Text → List (Text × SlamOutput t) → List (SlamOutput t)
  of_car j [] = []
  of_car j ((car, output) ∷ l) = if text_eq car j then output ∷ of_car j l else of_car j l

  abbrev pub scan_of : EventKind t → List t.ScanFrame
  scan_of (Ingest.status _) = []
  scan_of (Ingest.telemetry _) = []
  scan_of (Ingest.scan frame) = frame ∷ []

  -- The rotations that were received from the car.
  abbrev pub frames_of : Text → List (CarEvent t) → List t.ScanFrame
  frames_of j [] = []
  frames_of j (e ∷ l) = if text_eq e.car j then scan_of e.kind ++ frames_of j l else frames_of j l

  abbrev pub slot_of : Option (SlamWorker t) → Option t.ScanFrame
  slot_of none = none
  slot_of (some w) = w.slot

  pub results_in-append :
      (a b : List (WsEvent t)) → results_in (a ++ b) ≡ results_in a ++ results_in b
  results_in-append [] b = refl
  results_in-append (State.hello _ ∷ a) b = results_in-append a b
  results_in-append (State.status _ _ ∷ a) b = results_in-append a b
  results_in-append (State.telemetry _ _ _ ∷ a) b = results_in-append a b
  results_in-append (State.pose _ pose ∷ a) b = ap (◌∷◌ (posed pose)) (results_in-append a b)
  results_in-append (State.scan _ _ _ ∷ a) b = results_in-append a b
  results_in-append (State.map _ info ∷ a) b = ap (◌∷◌ (mapped info)) (results_in-append a b)
  results_in-append (State.stats _ _ _ ∷ a) b = results_in-append a b

  pub of_car-append :
      (j : Text) (a b : List (Text × SlamOutput t)) → of_car j (a ++ b) ≡ of_car j a ++ of_car j b
  of_car-append j [] b = refl
  of_car-append j ((car, output) ∷ a) b = elim (Bool-cases (text_eq car j)) [
    | inl own ↦ rw own (ap (◌∷◌ output) (of_car-append j a b))
    | inr other ↦ rw other (of_car-append j a b)
  ]

  pub frames_of-append :
      (j : Text) (a b : List (CarEvent t)) → frames_of j (a ++ b) ≡ frames_of j a ++ frames_of j b
  frames_of-append j [] b = refl
  frames_of-append j (e ∷ a) b = elim (Bool-cases (text_eq e.car j)) [
    | inl own ↦ rw own (
        ap (◌++◌ (scan_of e.kind)) (frames_of-append j a b)
        ∙ sym (append_assoc (scan_of e.kind) (frames_of j a) (frames_of j b)))
    | inr other ↦ rw other (frames_of-append j a b)
  ]

module _ {t : Types} (floats : Floats t) (j : Text) where
  -- What `on_slam` makes of the outputs.
  abbrev pub results_of : List (SlamOutput t) → List (Result t)
  results_of [] = []
  results_of (tracked pose _ ∷ l) = posed pose ∷ results_of l
  results_of (map_output m ∷ l) = mapped (info_of floats j m) ∷ results_of l

  pub results_of-append :
      (a b : List (SlamOutput t)) → results_of (a ++ b) ≡ results_of a ++ results_of b
  results_of-append [] b = refl
  results_of-append (tracked pose _ ∷ a) b = ap (◌∷◌ (posed pose)) (results_of-append a b)
  results_of-append (map_output m ∷ a) b =
      ap (◌∷◌ (mapped (info_of floats j m))) (results_of-append a b)

  abbrev pub lane_of : Car t → Busy t → List (SlamOutput t) → List t.ScanFrame → Lane t
  lane_of v b outputs scans = record {
    flow = results_in v.events ++ results_of outputs ++ results_of b.unsent;
    slot = slot_of v.worker;
    hand = b.frame;
    thread = b.thread;
    scans = scans;
  }

  -- The lane of the car `j` in the hub.
  abbrev pub lane : System t → Lane t
  lane s = lane_of (view j s.pipeline) (s.threads j) (of_car j s.channel) (frames_of j s.heard)

module _ {t : Types} (floats : Floats t) (proto : Proto t) (lib : SlamLib t) (grids : GridLib t)
    (tuning : WorkerTuning) (j : Text) where
  abbrev pub worked : Thread t → t.ScanFrame → Round t → Lane t → Lane t
  worked th frame round a =
      let (out, next) = work floats proto lib grids tuning th frame round in
      record a { hand = none; thread = next; flow = a.flow ++ results_of floats j out }

  -- A scan is missed where the car has no thread and none can be started, and replaces the one in the
  -- mailbox else.
  pub data LaneStep (a b : Lane t) : Type 0 where
    rests : b ≡ a → LaneStep a b
    misses :
        (frame : t.ScanFrame)
        → a.slot ≡ none
        → b ≡ record a { scans = a.scans ++ frame ∷ [] }
        → LaneStep a b
    submits :
        (frame : t.ScanFrame)
        → b ≡ record a { slot = some frame; scans = a.scans ++ frame ∷ [] }
        → LaneStep a b
    takes :
        (frame : t.ScanFrame)
        → a.slot ≡ some frame
        → a.hand ≡ none
        → b ≡ record a { slot = none; hand = some frame }
        → LaneStep a b
    works :
        (th : Thread t) (frame : t.ScanFrame) (round : Round t)
        → a.thread ≡ some th
        → a.hand ≡ some frame
        → b ≡ worked th frame round a
        → LaneStep a b

  -- The states that a lane comes to.
  pub data LaneReach : Lane t → Type 0 where
    opened : LaneReach (record {
      flow = [];
      slot = none;
      hand = none;
      thread = start floats proto lib grids;
      scans = [];
    })
    later : {a b : Lane t} → LaneReach a → LaneStep a b → LaneReach b

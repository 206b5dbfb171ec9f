-- ===== src/FakeCar.antt =====
-- examples/fake_car.rs: a recording published over MQTT as if by the car. Times are milliseconds.
pub mod Heard
mod Tests
use olivaw_hub.Prelude.{
  ℕ, zero, suc, ◌-◌, min, Bool, true, false, Option, none, some, List, [], ◌∷◌, ◌++◌, ltb,
  if◌then◌else◌,
}
use olivaw_hub.Text.{Text, Bytes, codes}
use olivaw_hub.External.{Types, Proto, Channel}
use olivaw_hub.Ingest.{CarEvent, EventKind, status, telemetry, scan}
use olivaw_hub.Ingest.Decode.{payload_of}
use olivaw_hub.Postcard.{Postcard}
use olivaw_hub.Session.Read.{events, bad_record, out_of_fuel, read_all}

pub record Message : Type 0 where
  pub topic : Text
  pub retain : Bool
  pub payload : Bytes

pub data Action : Type 0 where
  sleep : ℕ → Action
  publish : Message → Action

pub data End : Type 0 where
  finished failed : End

-- The three topics of a car.
pub record Topics : Type 0 where
  pub status : Text
  pub telemetry : Text
  pub scan : Text

unfoldable pub topics_of : {t : Types} → Proto t → Text → Option Topics
topics_of p car = elim (Proto.topic p car Channel.status) [
  | none ↦ none
  | some on_status ↦ elim (Proto.topic p car Channel.telemetry) [
    | none ↦ none
    | some on_telemetry ↦ elim (Proto.topic p car Channel.scan) [
      | none ↦ none
      | some on_scan ↦
          some (record { status = on_status; telemetry = on_telemetry; scan = on_scan })
    ]
  ]
]

unfoldable pub pause : Option ℕ → ℕ → List Action
pause none at_ms = []
pause (some prev) at_ms = if ltb prev at_ms then sleep (min (at_ms - prev) 2000) ∷ [] else []

module _ {t : Types} (p : Proto t) (topics : Topics) where
  -- Where an event is published, and whether the broker keeps it for later subscribers.
  unfoldable pub address : EventKind t → Text × Bool
  address (status s) = (topics.status, true)
  address (telemetry x) = (topics.telemetry, false)
  address (scan f) = (topics.scan, false)

  unfoldable pub goodbye : Message
  goodbye = record { topic = topics.status; retain = true; payload = codes "offline" }

  -- The loop over the recorded events; the client takes `room` more messages.
  unfoldable pub publish_all : Option ℕ → ℕ → List (CarEvent t) → List Action × End
  unfolding address goodbye pause
  publish_all last zero [] = ([], failed)
  publish_all last (suc room) [] = (publish goodbye ∷ sleep 300 ∷ [], finished)
  publish_all last zero (e ∷ es) = (pause last e.at_ms, failed)
  publish_all last (suc room) (e ∷ es) =
      let rest = publish_all (some e.at_ms) room es in
      let (topic, retain) = address e.kind in
      elim (payload_of p e.kind) [
        | none ↦ (pause last e.at_ms, failed)
        | some b ↦ (
          pause last e.at_ms
              ++ (publish (record { topic = topic; retain = retain; payload = b }) ∷ rest.0),
          rest.1,
        )
      ]

module _ {t : Types} (p : Proto t) (codec : Postcard t) where
  -- `main` from the topics on; `none` where it fails before it publishes.
  unfoldable pub play : ℕ → List (CarEvent t) → Text → Option (List Action × End)
  unfolding publish_all topics_of
  play room es car = elim (topics_of p car) [
    | none ↦ none
    | some topics ↦ some (publish_all p topics none room es)
  ]

  -- `main`, of the file's bytes and the car's id.
  unfoldable pub main : ℕ → Bytes → Text → Option (List Action × End)
  unfolding play
  main room bytes car = elim (read_all codec bytes) [
    | events es ↦ play room es car
    | bad_record ↦ none
    | out_of_fuel ↦ none
  ]

-- ===== src/Api/Http.antt =====
-- src/api/http.rs: the REST handlers. JSON bodies are kept as the values that are serialized.
use olivaw_hub.Prelude.{ℕ, Bool, true, false, none, some, List, [], ◌∷◌, ◌++◌, length}
use olivaw_hub.Text.{Text, Bytes, codes}
use olivaw_hub.Text.Signed.{ℤ, signed}
use olivaw_hub.Dict.{get}
use olivaw_hub.External.{Types, Proto, Control}
use olivaw_hub.Ingest.Mqtt.{SendError, id_too_long, client_gone, ok, err, send}
use olivaw_hub.Slam.MapPng.{to_pgm}
use olivaw_hub.State.{CarSnapshot, Hub, snapshots}

pub data Command : Type 0 where
  e_stop clear : Command
  drive : ℤ → ℤ → Command
  lidar : Bool → Command
  max_duty : ℕ → Command

pub data Body (t : Types) : Type 0 where
  health_json : ℕ → ℕ → Body t
  cars_json : List (CarSnapshot t) → Body t
  car_json : CarSnapshot t → Body t
  cmd_reply : ℕ → Body t
  raw : Bytes → Body t
  plain : Text → Body t

pub record Response (t : Types) : Type 0 where
  pub status : ℕ
  pub headers : List (Text × Text)
  pub body : Body t

-- How an error of `Commander::send` is displayed; `gone` is the client's own message.
unfoldable pub describe : Text → SendError → Text
describe gone id_too_long = codes "car id too long"
describe gone client_gone = gone

module _ {t : Types} where
  abbrev pub json : Body t → Response t
  json body = record {
    status = 200;
    headers = (codes "content-type", codes "application/json") ∷ [];
    body = body;
  }

  -- A status with a line of text.
  abbrev pub failure : ℕ → Text → Response t
  failure status message = record {
    status = status;
    headers = (codes "content-type", codes "text/plain; charset=utf-8") ∷ [];
    body = plain message;
  }

  -- The version is the crate's; `ws_clients` the channel's number of receivers.
  unfoldable pub health : Hub t → ℕ → Response t
  health hub ws_clients = json (health_json (length hub.cars) ws_clients)

  unfoldable pub cars : Hub t → Response t
  cars hub = json (cars_json (snapshots hub))

  unfoldable pub car : Hub t → Text → Response t
  car hub id = elim (get id hub.cars) [
    | some c ↦ json (car_json c)
    | none ↦ failure 404 (codes "no car " ++ id)
  ]

  unfoldable pub map_png : Hub t → Text → Response t
  map_png hub id = elim (get id hub.maps) [
    | some m ↦ record {
      status = 200;
      headers =
          (codes "content-type", codes "image/png")
          ∷ (codes "cache-control", codes "no-cache")
          ∷ [];
      body = raw m.png;
    }
    | none ↦ failure 404 (codes "no map yet for " ++ id)
  ]

  unfoldable pub map_pgm : Hub t → Text → Response t
  map_pgm hub id = elim (get id hub.maps) [
    | some m ↦ record {
      status = 200;
      headers = (codes "content-type", codes "image/x-portable-graymap") ∷ [];
      body = raw (to_pgm m);
    }
    | none ↦ failure 404 (codes "no map yet for " ++ id)
  ]

  unfoldable pub encode : Proto t → Command → Bytes
  encode p e_stop = Proto.encode_control p Control.e_stop
  encode p clear = Proto.encode_control p Control.clear
  encode p (drive left right) = signed left ++ (codes "," ++ (signed right ++ codes "\n"))
  encode p (lidar true) = Proto.encode_control p Control.lidar_on
  encode p (lidar false) = Proto.encode_control p Control.lidar_off
  encode p (max_duty permille) = Proto.encode_control p (Control.set_max_duty permille)

  unfoldable pub cmd : Proto t → Bool → Text → Hub t → Text → Command → Hub t × Response t
  unfolding encode describe
  cmd p accepts gone hub id command =
      let payload = encode p command in
      let (commander, sent) = send p accepts hub.commander id payload in
      let hub' : Hub t = record hub { commander = commander } in
      elim sent [
        | ok ↦ (hub', json (cmd_reply (length payload)))
        | err e ↦ (hub', failure 502 (codes "publish failed: " ++ describe gone e))
      ]

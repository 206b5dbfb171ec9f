-- ===== src/Ingest/Mqtt.antt =====
-- src/ingest/mqtt.rs: the MQTT client of the hub.
pub mod Connections
use olivaw_hub.Prelude.{ℕ, ◌^◌, Bool, Option, none, some, List, [], ◌∷◌, ◌++◌, if◌then◌else◌}
use olivaw_hub.Text.{Text, Bytes, codes}
use olivaw_hub.Config.{MqttConfig}
use olivaw_hub.External.{Types, Proto, Channel}

-- `MqttOptions`, as far as the hub sets it: seconds between pings, bytes of a packet.
pub record MqttOptions : Type 0 where
  pub client_id : Text
  pub host : Text
  pub port : ℕ
  pub keep_alive : ℕ
  pub max_packet_size : ℕ
  pub credentials : Option (Text × Text)

unfoldable pub options : MqttConfig → Text → MqttOptions
options cfg suffix = record {
  client_id = cfg.client_id ++ (codes "-" ++ suffix);
  host = cfg.host;
  port = cfg.port;
  keep_alive = 20;
  max_packet_size = 2 ^ 20;
  credentials = elim cfg.username [
    | none ↦ none
    | some u ↦ elim cfg.password [ none ↦ none | some p ↦ some (u, p) ]
  ];
}

-- How `spawn` and `commander` connect.
unfoldable pub sub_options : MqttConfig → MqttOptions
unfolding options
sub_options cfg = options cfg (codes "sub")

unfoldable pub cmd_options : MqttConfig → MqttOptions
unfolding options
cmd_options cfg = options cfg (codes "cmd")

pub record Publish : Type 0 where
  pub topic : Text
  pub payload : Bytes

-- The requests that the client has accepted, oldest first.
pub record Commander : Type 0 where
  pub client : List Publish

pub data SendError : Type 0 where
  id_too_long client_gone : SendError

pub data Sent : Type 0 where
  ok : Sent
  err : SendError → Sent

-- `accepts`: the client takes the request.
unfoldable pub send : {t : Types} → Proto t → Bool → Commander → Text → Bytes → Commander × Sent
send p accepts c car payload = elim (Proto.topic p car Channel.cmd) [
  | none ↦ (c, err id_too_long)
  | some topic ↦
      if accepts
      then (record c { client = c.client ++ record { topic = topic; payload = payload } ∷ [] }, ok)
      else (c, err client_gone)
]

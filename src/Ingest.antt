-- ===== src/Ingest.antt =====
-- src/ingest/mod.rs: the events that enter the hub, and the decoding of an MQTT message.
pub mod Decode
pub mod Mqtt
pub mod Subscriber
pub mod Serial
mod Tests
use olivaw_hub.Prelude.{ℕ, ◌-◌, ◌^◌, Option, none, some, min}
use olivaw_hub.Text.{Text, Bytes}
use olivaw_hub.Text.Utf8.{from_utf8_lossy}
use olivaw_hub.External.{Types, Proto, Channel}

pub data EventKind (t : Types) : Type 0 where
  status : Text → EventKind t
  telemetry : Types.Telemetry t → EventKind t
  scan : Types.ScanFrame t → EventKind t

pub record CarEvent (t : Types) : Type 0 where
  pub car : Text
  pub at_ms : ℕ
  pub kind : EventKind t

-- The milliseconds since the epoch that the clock shows, `none` if it stands before the epoch.
unfoldable pub now_ms : Option ℕ → ℕ
now_ms none = 0
now_ms (some d) = min d (2 ^ 64 - 1)

module _ {t : Types} where
  unfoldable pub now : Option ℕ → Text → EventKind t → CarEvent t
  unfolding now_ms
  now clock car kind = record { car = car; at_ms = now_ms clock; kind = kind }

  unfoldable pub decode_kind : Proto t → Channel → Bytes → Option (EventKind t)
  decode_kind p Channel.status payload = some (status (from_utf8_lossy payload))
  decode_kind p Channel.telemetry payload = elim (Proto.telemetry_from_json p payload) [
    | none ↦ none
    | some x ↦ some (telemetry x)
  ]
  decode_kind p Channel.scan payload = elim (Proto.scan_decode p payload) [
    | none ↦ none
    | some f ↦ some (scan f)
  ]
  decode_kind p Channel.cmd payload = none

  -- `CarEvent::decode`; what it logs beside a `None` is left out.
  unfoldable pub decode : Proto t → Option ℕ → Text → Bytes → Option (CarEvent t)
  unfolding decode_kind now
  decode p clock topic payload = elim (Proto.parse_topic p topic) [
    | none ↦ none
    | some (car, channel) ↦ elim (decode_kind p channel payload) [
      | none ↦ none
      | some kind ↦ some (now clock car kind)
    ]
  ]

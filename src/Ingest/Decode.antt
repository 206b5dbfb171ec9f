-- ===== src/Ingest/Decode.antt =====
-- What decoding does with messages that a car or the hub itself publishes.
use olivaw_hub.Prelude.{ℕ, ◌≡◌, Option, none, some, arith}
use olivaw_hub.Text.{Text, Bytes}
use olivaw_hub.Text.Utf8.{IsUtf8}
use olivaw_hub.External.{Types, Proto, ProtoLaws, Channel}
use olivaw_hub.Ingest.{EventKind, status, telemetry, scan, now, decode, decode_kind}

-- The message that carries an event to the hub, as examples/fake_car.rs publishes it.
unfoldable pub channel_of : {t : Types} → EventKind t → Channel
channel_of (status s) = Channel.status
channel_of (telemetry x) = Channel.telemetry
channel_of (scan f) = Channel.scan

unfoldable pub payload_of : {t : Types} → Proto t → EventKind t → Option Bytes
payload_of p (status s) = some s
payload_of p (telemetry x) = some (Proto.telemetry_to_json p x)
payload_of p (scan f) = Proto.scan_encode p f

-- The status texts that a car can send are the texts that a Rust `String` can hold.
abbrev pub IsText : {t : Types} → EventKind t → Type 0
IsText (status s) = IsUtf8 s
IsText (telemetry x) = Unit
IsText (scan f) = Unit

module _ {t : Types} (p : Proto t) (laws : ProtoLaws p) where
  decode_kind-payload :
      (kind : EventKind t) (b : Bytes)
      → IsText kind
      → payload_of p kind ≡ some b
      → decode_kind p (channel_of kind) b ≡ some kind
  unfolding decode_kind channel_of payload_of
  decode_kind-payload (status s) b valid h = ground arith
  decode_kind-payload (telemetry x) b valid h = ground (arith, ProtoLaws.telemetry_back laws x)
  decode_kind-payload (scan f) b valid h = ground (arith, ProtoLaws.scan_back laws f b h)

  -- A message published for an event of a car, on the topic that olivaw-proto builds, is decoded to
  -- the same event of the same car, stamped with the hub's own clock.
  pub decode-publish :
      (clock : Option ℕ) (car : Text) (kind : EventKind t) (s : Text) (b : Bytes)
      → IsText kind
      → Proto.topic p car (channel_of kind) ≡ some s
      → payload_of p kind ≡ some b
      → decode p clock s b ≡ some (now clock car kind)
  unfolding decode
  decode-publish clock car kind s b valid h k = ground (
    arith,
    ProtoLaws.parse-topic laws car (channel_of kind) s h,
    decode_kind-payload kind b valid k,
  )

  -- A command that the hub publishes on a car's `cmd` topic never comes back as an event, whatever
  -- its bytes are.
  pub decode-cmd :
      (clock : Option ℕ) (car s : Text) (b : Bytes)
      → Proto.topic p car Channel.cmd ≡ some s
      → decode p clock s b ≡ none
  unfolding decode decode_kind
  decode-cmd clock car s b h = ground (arith, ProtoLaws.parse-topic laws car Channel.cmd s h)

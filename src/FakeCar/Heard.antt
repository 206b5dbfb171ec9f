-- ===== src/FakeCar/Heard.antt =====
-- What the hub hears of a fake car.
use olivaw_hub.Prelude.{
  ℕ, zero, suc, ◌+◌, ◌<◌, ◌≡◌, refl, ap, ◌∙◌, inl, inr, Bool, true, false, Option, none, some, List,
  [], ◌∷◌, ◌++◌, take, take_all, length, arith, ltb, Bool-cases,
}
use olivaw_hub.Text.{Text, Bytes, codes}
use olivaw_hub.Text.Utf8.{from_utf8_lossy, IsUtf8}
use olivaw_hub.External.{Types, Proto, ProtoLaws, Channel}
use olivaw_hub.Ingest.{CarEvent, EventKind, status, telemetry, scan, now, decode}
use olivaw_hub.Ingest.Decode.{channel_of, payload_of, IsText, decode-publish}
use olivaw_hub.Ingest.Subscriber.{Polled, conn_ack, ingest, forwarded, decoded, forwarded-ingest}
use olivaw_hub.Postcard.{Postcard, PostcardLaws}
use olivaw_hub.Session.BufWriter.{flush}
use olivaw_hub.Session.Recorder.{create, close}
use olivaw_hub.Session.Read.{events, read_all}
use olivaw_hub.Session.Stream.{write_each, AllWritten}
use olivaw_hub.Session.Crash.{recorded}
use olivaw_hub.FakeCar.{
  Message, Action, sleep, publish, finished, Topics, topics_of, pause, address, goodbye,
  publish_all, main,
}

abbrev pub published : List Action → List Message
published [] = []
published (sleep d ∷ l) = published l
published (publish m ∷ l) = m ∷ published l

published-pause :
    (last : Option ℕ) (at_ms : ℕ) (l : List Action)
    → published (pause last at_ms ++ l) ≡ published l
unfolding pause
published-pause none at_ms l = refl
published-pause (some prev) at_ms l = elim (Bool-cases (ltb prev at_ms)) [
  | inl waits ↦ rw waits refl
  | inr at_once ↦ rw at_once refl
]

-- The messages as the hub's client polls them, the `k`-th when the hub's clock shows `clock k`.
abbrev pub delivered : (ℕ → Option ℕ) → ℕ → List Message → List (Polled × Bool)
delivered clock k [] = []
delivered clock k (m ∷ ms) =
    (Polled.publish m.topic m.payload (clock k), true) ∷ delivered clock (k + 1) ms

module _ {t : Types} where
  -- The events, as they are heard of the car `car` by the hub's clock.
  abbrev pub restamped : (ℕ → Option ℕ) → Text → ℕ → List (CarEvent t) → List (CarEvent t)
  restamped clock car k [] = now (clock k) car (status (codes "offline")) ∷ []
  restamped clock car k (e ∷ es) = now (clock k) car e.kind ∷ restamped clock car (k + 1) es

  -- Each event has a text that UTF-8 can write, or can be encoded.
  abbrev pub AllPublishable : Proto t → List (CarEvent t) → Type 0
  AllPublishable p [] = Unit {0}
  AllPublishable p (e ∷ es) =
      (IsText e.kind × (b : Bytes) × (payload_of p e.kind ≡ some b)) × AllPublishable p es

  -- The topics are the car's own, and texts.
  pub record TopicsOf (p : Proto t) (car : Text) (topics : Topics) : Type 0 where
    pub status : (Proto.topic p car Channel.status ≡ some topics.status) × IsUtf8 topics.status
    pub telemetry :
        (Proto.topic p car Channel.telemetry ≡ some topics.telemetry) × IsUtf8 topics.telemetry
    pub scan : (Proto.topic p car Channel.scan ≡ some topics.scan) × IsUtf8 topics.scan

module _ {t : Types} (p : Proto t) (laws : ProtoLaws p) (car : Text) (topics : Topics)
    (h : TopicsOf p car topics) where
  address_lem :
      (kind : EventKind t)
      → (Proto.topic p car (channel_of kind) ≡ some (address p topics kind).0)
        × IsUtf8 (address p topics kind).0
  unfolding address channel_of
  address_lem (status s) = TopicsOf.status h
  address_lem (telemetry x) = TopicsOf.telemetry h
  address_lem (scan f) = TopicsOf.scan h

  -- One message of an event.
  decoded-cons :
      (clock : ℕ → Option ℕ) (k : ℕ) (kind : EventKind t) (retain : Bool) (b : Bytes)
      (ms : List Message)
      → IsText kind
      → payload_of p kind ≡ some b
      → decoded p (
          delivered clock k
            (record { topic = (address p topics kind).0; retain = retain; payload = b } ∷ ms))
        ≡ now (clock k) car kind ∷ decoded p (delivered clock (k + 1) ms)
  decoded-cons clock k kind retain b ms valid e =
      let (own, utf8) = address_lem kind in
      let topic = (address p topics kind).0 in
      let arrives : decode p (clock k) (from_utf8_lossy topic) b ≡ some (now (clock k) car kind) =
        ap (λ s. decode p (clock k) s b) utf8
        ∙ decode-publish p laws (clock k) car kind topic b valid own e in
      rw (arrives, decoded) refl

  heard_last :
      (clock : ℕ → Option ℕ) (k : ℕ)
      → decoded p (delivered clock k (goodbye p topics ∷ [])) ≡ restamped clock car k []
  unfolding goodbye address from_utf8_lossy payload_of
  heard_last clock k =
      decoded-cons clock k (status (codes "offline")) true (codes "offline") [] refl refl

  publish_all-suc :
      (last : Option ℕ) (room : ℕ) (e : CarEvent t) (es : List (CarEvent t)) (b : Bytes)
      → payload_of p e.kind ≡ some b
      → let rest = publish_all p topics (some e.at_ms) room es in
        let (topic, retain) = address p topics e.kind in
        publish_all p topics last (suc room) (e ∷ es) ≡ (
          pause last e.at_ms
              ++ (publish (record { topic = topic; retain = retain; payload = b }) ∷ rest.0),
          rest.1,
        )
  unfolding publish_all
  publish_all-suc last room e es b h = ground arith

  publish_all_lem :
      (clock : ℕ → Option ℕ) (k : ℕ) (last : Option ℕ) (room : ℕ) (es : List (CarEvent t))
      → AllPublishable p es
      → length es < room
      → let done = publish_all p topics last room es in
        (done.1 ≡ finished)
        × (decoded p (delivered clock k (published done.0)) ≡ restamped clock car k es)
  unfolding publish_all
  publish_all_lem clock k last zero es a l = absurd (omega arith)
  publish_all_lem clock k last (suc room) [] a l = (refl, heard_last clock k)
  publish_all_lem clock k last (suc room) (e ∷ es) ((valid, b, encoded), a) l =
      let (ends, rest) = publish_all_lem clock (k + 1) (some e.at_ms) room es a (omega arith) in
      let goes_on = publish_all-suc last room e es b encoded in
      let (topic, retain) = address p topics e.kind in
      let message : Message = record { topic = topic; retain = retain; payload = b } in
      let later = (publish_all p topics (some e.at_ms) room es).0 in
      (
        ap (λ x. x.1) goes_on ∙ ends,
        ap (λ x. decoded p (delivered clock k (published x.0))) goes_on
            ∙ ap (λ l. decoded p (delivered clock k l))
                (published-pause last e.at_ms (publish message ∷ later))
            ∙ decoded-cons clock k e.kind retain b (published later) valid encoded
            ∙ ap (◌∷◌ (now (clock k) car e.kind)) rest,
      )

  main_eq :
      (codec : Postcard t) (room : ℕ) (bytes : Bytes) (es : List (CarEvent t))
      → read_all codec bytes ≡ events es
      → main p codec room bytes car ≡ some (publish_all p topics none room es)
  unfolding main topics_of
  main_eq codec room bytes es e =
      ground (arith, (TopicsOf.status h).0, (TopicsOf.telemetry h).0, (TopicsOf.scan h).0)

  length-restamped :
      (clock : ℕ → Option ℕ) (k : ℕ) (es : List (CarEvent t))
      → length (restamped clock car k es) ≡ suc (length es)
  length-restamped clock k [] = refl
  length-restamped clock k (e ∷ es) = ap suc (length-restamped clock (k + 1) es)

  -- From one hub's recorder to another hub's pipeline: of a recording whose writes all succeeded and
  -- that was closed, the fake car publishes messages of which the hub that is connected to the
  -- broker makes the recorded events again, in order, as events of the fake car by its own clock,
  -- with the status "offline" at the end. The car's topics have to be texts, its events have to be
  -- ones that can be published, and the client and the pipeline have to take them all.
  pub main-heard :
      (codec : Postcard t) (codec_laws : PostcardLaws codec) (disk client_room room : ℕ)
      (clock : ℕ → Option ℕ) (es : List (CarEvent t))
      → AllWritten codec (create disk) es
      → (flush (write_each codec (create disk) es).out).1 ≡ true
      → AllPublishable p es
      → length es < client_room
      → length es < room
      → (actions : List Action) × (main p codec client_room
            (close (write_each codec (create disk) es)).out.file
            car
          ≡ some (actions, finished))
        × (forwarded p
              (ingest p false room ((conn_ack, true) ∷ delivered clock 0 (published actions)))
            ≡ restamped clock car 0 es)
  main-heard codec codec_laws disk client_room room clock es written flushed a l m =
      let file = (close (write_each codec (create disk) es)).out.file in
      let read = recorded codec codec_laws disk es written flushed in
      let done = publish_all p topics none client_room es in
      let (ends, heard) = publish_all_lem clock 0 none client_room es a l in
      let size = length-restamped clock 0 es in
      (
        done.0,
        main_eq codec client_room file es read ∙ (λ i. some (done.0, ends i)),
        forwarded-ingest p false room ((conn_ack, true) ∷ delivered clock 0 (published done.0))
            ∙ ap (take room) heard
            ∙ take_all room (restamped clock car 0 es) (omega arith),
      )

-- ===== src/FakeCar/Tests.antt =====
-- A recording of two events, published by a fake car.
use olivaw_hub.Prelude.{ℕ, ◌+◌, ◌≡◌, refl, true, false, Option, some, List, [], ◌∷◌, arith}
use olivaw_hub.Text.{codes}
use olivaw_hub.Text.Utf8.{from_utf8_lossy}
use olivaw_hub.External.Toy.{toy, toy_proto, toy_proto_laws}
use olivaw_hub.Ingest.{CarEvent, status, telemetry}
use olivaw_hub.Ingest.Decode.{payload_of}
use olivaw_hub.Ingest.Subscriber.{conn_ack, ingest, forwarded}
use olivaw_hub.Postcard.{toy_postcard, toy_postcard_laws}
use olivaw_hub.Session.BufWriter.{write_all, make_room, flush}
use olivaw_hub.Session.Recorder.{create, write, write_record, count_record, le_bytes, close}
use olivaw_hub.Session.Stream.{write_each}
use olivaw_hub.FakeCar.{Action, sleep, finished, Topics, pause, main}
use olivaw_hub.FakeCar.Heard.{published, delivered, restamped, TopicsOf, AllPublishable, main-heard}

abbrev two : List (CarEvent toy)
two =
    record { car = codes "c"; at_ms = 1; kind = status (codes "online") }
    ∷ record { car = codes "c"; at_ms = 9000; kind = telemetry 7 }
    ∷ []

abbrev topics : Topics
topics = record { status = 1 ∷ codes "fake"; telemetry = 2 ∷ codes "fake"; scan = 3 ∷ codes "fake" }

topics-TopicsOf : TopicsOf toy_proto (codes "fake") topics
unfolding from_utf8_lossy
topics-TopicsOf = record { status = (refl, refl); telemetry = (refl, refl); scan = (refl, refl) }

two-AllPublishable : AllPublishable toy_proto two
unfolding payload_of from_utf8_lossy
two-AllPublishable = ((refl, codes "online", refl), ((tt, 7 ∷ [], refl), tt))

two_seconds : pause (some 1) 9000 ≡ sleep 2000 ∷ []
unfolding pause
two_seconds = refl

abbrev clock : ℕ → Option ℕ
clock k = some (100 + k)

main-heard_example :
    (actions : List Action) × (main toy_proto toy_postcard 9
        (close (write_each toy_postcard (create 100) two)).out.file
        (codes "fake")
      ≡ some (actions, finished))
    × (forwarded toy_proto
          (ingest toy_proto false 9 ((conn_ack, true) ∷ delivered clock 0 (published actions)))
        ≡ restamped clock (codes "fake") 0 two)
unfolding write_each write write_record count_record write_all make_room flush le_bytes create
main-heard_example =
    main-heard toy_proto toy_proto_laws (codes "fake") topics topics-TopicsOf toy_postcard
      toy_postcard_laws 100 9 9 clock two (refl, (refl, tt)) refl two-AllPublishable (omega arith)
      (omega arith)

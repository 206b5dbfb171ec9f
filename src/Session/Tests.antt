-- ===== src/Session/Tests.antt =====
-- Runs of the recorder and the reader, and the theorems about them at concrete events.
use olivaw_hub.Prelude.{
  length, ◌/◌, some, ltb, ◌↔◌, ℕ, ◌≤◌, ◌≡◌, refl, List, [], ◌∷◌, arith, take, replicate, ◌≢◌,
}
use olivaw_hub.Text.{codes}
use olivaw_hub.External.Toy.{toy}
use olivaw_hub.Ingest.{CarEvent, status, telemetry}
use olivaw_hub.Postcard.{toy_postcard, toy_postcard_laws}
use olivaw_hub.Session.BufWriter.{write_all, make_room, flush}
use olivaw_hub.Session.Recorder.{
  Recorder, Written, err, io, create, write, write_record, count_record, le_bytes, close,
}
use olivaw_hub.Session.Read.{events, read_all, out_of_fuel, bad_record}
use olivaw_hub.Session.Stream.{write_each, stream}
use olivaw_hub.Session.RoundTrip.{read_all-ne-out_of_fuel, read_all-take}
use olivaw_hub.Session.Replay.{Pacing, sleep, send, pause, replay}
use olivaw_hub.Session.Crash.{hundreds, killed}
use olivaw_hub.Session.FullDisk.{full_disk}

abbrev online : CarEvent toy
online = record { car = codes "c"; at_ms = 1; kind = status (codes "online") }

abbrev sample : CarEvent toy
sample = record { car = codes "c"; at_ms = 2; kind = telemetry 7 }

abbrev two : List (CarEvent toy)
two = online ∷ sample ∷ []

-- The disk is full within the second record.
full_disk_example :
    ((k : ℕ) × (read_all toy_postcard (close (write_each toy_postcard (create 20) two)).out.file
        ≡ events (take k two))
      × ((j : ℕ) → (length (take j two) ≤ k) ↔ (length (stream toy_postcard (take j two)) ≤ 20)))
    × ((k : ℕ) × (read_all toy_postcard (write_each toy_postcard (create 20) two).out.file
          ≡ events (take k two)))
unfolding le_bytes
full_disk_example =
    full_disk toy_postcard toy_postcard_laws 20 two
      ((_, refl, omega arith), ((_, refl, omega arith), tt))

-- The test of src/session/recorder.rs.
read_back :
    read_all toy_postcard (close (write_each toy_postcard (create 100) two)).out.file ≡ events two
unfolding read_all close write_each write write_record count_record write_all make_room flush
    le_bytes create
read_back = refl

killed_example :
    (k : ℕ) × (read_all toy_postcard (write_each toy_postcard (create 100) two).out.file
      ≡ events (take k two))
    × (hundreds 2 ≤ k)
unfolding write_each write write_record count_record write_all make_room flush le_bytes create
killed_example = killed toy_postcard toy_postcard_laws 100 two (omega arith) (refl, (refl, tt))

read_all-take_example :
    (k : ℕ) × (read_all toy_postcard (take 20 (stream toy_postcard two)) ≡ events (take k two))
    × ((j : ℕ) → (length (take j two) ≤ k) ↔ (length (stream toy_postcard (take j two)) ≤ 20))
unfolding le_bytes
read_all-take_example =
    read_all-take toy_postcard toy_postcard_laws 20 two
      ((_, refl, omega arith), ((_, refl, omega arith), tt))

read_all-ne-out_of_fuel_example : read_all toy_postcard (5 ∷ 0 ∷ 0 ∷ 0 ∷ 1 ∷ []) ≢ out_of_fuel
read_all-ne-out_of_fuel_example = read_all-ne-out_of_fuel toy_postcard (5 ∷ 0 ∷ 0 ∷ 0 ∷ 1 ∷ [])

-- A record cut in its body is dropped.
cut_short : read_all toy_postcard (take 20 (stream toy_postcard two)) ≡ events (online ∷ [])
unfolding read_all le_bytes
cut_short = refl

-- Time runs twice as fast: each gap is halved.
abbrev pacing : Pacing toy
pacing = record { is_positive = λ s. ltb 0 s; div_f64 = λ d s. some (d / s) }

half_a_millisecond : (replay pacing 2 (some 1) 9 (sample ∷ [])).0 ≡ sleep 500_000 ∷ send sample ∷ []
unfolding replay pause
half_a_millisecond = refl

-- The disk is full, and the first record leaves room for the length of the second in the buffer only.
abbrev long : CarEvent toy
long = record { car = codes "c"; at_ms = 1; kind = status (replicate 8172 65) }

abbrev nearly_full : Recorder
nearly_full = (write toy_postcard (create 0) long).0

abbrev interrupted : Recorder × Written
interrupted = write toy_postcard nearly_full online

body_fails : interrupted.1 ≡ err io
unfolding write write_record count_record write_all make_room flush le_bytes create
body_fails = refl

-- The disk takes writes again before the next two records.
abbrev resumed : Recorder
resumed = record interrupted.0 { out = record interrupted.0.out { room = 100_000 } }

-- The length of the lost record is still there, and the recording cannot be read.
unreadable :
    read_all toy_postcard (close (write_each toy_postcard resumed (sample ∷ sample ∷ []))).out.file
    ≡ bad_record
unfolding read_all close write_each write write_record count_record write_all make_room flush
    le_bytes create
unreadable = refl

-- ===== src/Session/Recorder.antt =====
-- src/session/recorder.rs, `Recorder`: the append-only session writer.
use olivaw_hub.Prelude.{
  ℕ, ◌+◌, ◌/◌, ◌%◌, ◌^◌, none, some, [], ◌∷◌, ltb, ◌==◌, if◌then◌else◌, length,
}
use olivaw_hub.Text.{Bytes}
use olivaw_hub.External.{Types}
use olivaw_hub.Ingest.{CarEvent}
use olivaw_hub.Postcard.{Postcard}
use olivaw_hub.Session.BufWriter.{BufWriter, write_all, flush}

pub record Recorder : Type 0 where
  pub out : BufWriter
  pub records : ℕ

pub data WriteError : Type 0 where
  encode too_long io : WriteError

pub data Written : Type 0 where
  ok : Written
  err : WriteError → Written

-- `File::create` truncates the file; `room` is what the disk takes.
unfoldable pub create : ℕ → Recorder
create room = record { out = record { file = []; buffer = []; room = room }; records = 0 }

-- `u32::to_le_bytes`.
unfoldable pub le_bytes : ℕ → Bytes
le_bytes n = n % 256 ∷ n / 256 % 256 ∷ n / 65536 % 256 ∷ n / 16777216 % 256 ∷ []

-- After the two writes: the count, and a flush at each hundredth record.
unfoldable pub count_record : Recorder → Recorder × Written
count_record r =
    let n = (r.records + 1) % 2 ^ 64 in
    if n % 100 == 0
    then (let (out, flushed) = flush r.out in
        (record { out = out; records = n }, if flushed then ok else err io))
    else (record r { records = n }, ok)

-- The length and the body. A failure returns at once, with what was written before it.
unfoldable pub write_record : Recorder → Bytes → Recorder × Written
write_record r bytes =
    let (out, headed) = write_all r.out (le_bytes (length bytes)) in
    if headed
    then (let (out', bodied) = write_all out bytes in
        if bodied
        then count_record (record r { out = out' })
        else (record r { out = out' }, err io))
    else (record r { out = out }, err io)

module _ {t : Types} (c : Postcard t) where
  unfoldable pub write : Recorder → CarEvent t → Recorder × Written
  write r event = elim (Postcard.to_stdvec c event) [
    | none ↦ (r, err encode)
    | some bytes ↦ if ltb (length bytes) (2 ^ 32) then write_record r bytes else (r, err too_long)
  ]

-- `Drop`: the last flush, its error ignored.
unfoldable pub close : Recorder → Recorder
close r = record r { out = (flush r.out).0 }

-- ===== src/Session/Stream.antt =====
-- The bytes of a recording as a function of its events, and what `Recorder.write` adds to them.
use olivaw_hub.Prelude.{
  ℕ, ◌/◌, ◌%◌, ◌^◌, ◌<◌, ◌≡◌, refl, sym, ap, ◌∙◌, inl, inr, true, none, some, List, [], ◌∷◌, ◌++◌,
  append-nil, append_assoc, arith, ltb, length, Option-cases,
}
use olivaw_hub.Text.{Bytes}
use olivaw_hub.External.{Types}
use olivaw_hub.Ingest.{CarEvent}
use olivaw_hub.Postcard.{Postcard}
use olivaw_hub.Session.BufWriter.{content, write_all, content-write_all, content-flush}
use olivaw_hub.Session.Recorder.{Recorder, ok, le_bytes, count_record, write_record, write}
use olivaw_hub.Session.Read.{from_le_bytes}

-- A length below 2 ^ 32 survives its four bytes.
pub from_le_bytes-le_bytes :
    (n : ℕ)
    → n < 2 ^ 32
    → from_le_bytes (n % 256) (n / 256 % 256) (n / 65536 % 256) (n / 16777216 % 256) ≡ n
unfolding from_le_bytes
from_le_bytes-le_bytes n h = omega arith

abbrev pub content_of : Recorder → Bytes
content_of r = content r.out

content-count_record : (r : Recorder) → content_of (count_record r).0 ≡ content_of r
unfolding count_record
content-count_record r = ground (arith, content-flush r.out)

content-write_record :
    (r : Recorder) (b : Bytes)
    → (write_record r b).1 ≡ ok
    → content_of (write_record r b).0 ≡ content_of r ++ (le_bytes (length b) ++ b)
unfolding write_record
content-write_record r b h =
    let w = write_all r.out (le_bytes (length b)) in
    let v = write_all w.0 b in
    ground (
      arith,
      content-write_all r.out (le_bytes (length b)),
      content-write_all w.0 b,
      content-count_record (record r { out = v.0 }),
      append_assoc (content_of r) (le_bytes (length b)) b,
    )

module _ {t : Types} (c : Postcard t) where
  -- One event's record; nothing for an event that cannot be serialized.
  abbrev pub frame : CarEvent t → Bytes
  frame e = elim (Postcard.to_stdvec c e) [ none ↦ [] | some b ↦ le_bytes (length b) ++ b ]

  abbrev pub stream : List (CarEvent t) → Bytes
  stream [] = []
  stream (e ∷ es) = frame e ++ stream es

  -- An event that is serialized to fewer than 2 ^ 32 bytes.
  abbrev pub IsRecordable : CarEvent t → Type 0
  IsRecordable e = (b : Bytes) × (Postcard.to_stdvec c e ≡ some b) × (length b < 2 ^ 32)

  abbrev pub AllRecordable : List (CarEvent t) → Type 0
  AllRecordable [] = Unit {0}
  AllRecordable (e ∷ es) = IsRecordable e × AllRecordable es

  pub write-IsRecordable : (r : Recorder) (e : CarEvent t) → (write c r e).1 ≡ ok → IsRecordable e
  unfolding write
  write-IsRecordable r e h = elim (Option-cases (Postcard.to_stdvec c e)) [
    | inl q ↦ absurd (ground arith)
    | inr (b, q) ↦ (b, q, ground arith)
  ]

  pub content-write :
      (r : Recorder) (e : CarEvent t)
      → (write c r e).1 ≡ ok
      → content_of (write c r e).0 ≡ content_of r ++ frame e
  unfolding write
  content-write r e h = elim (Option-cases (Postcard.to_stdvec c e)) [
    | inl q ↦ absurd (ground arith)
    | inr (b, q) ↦
        let fits : ltb (length b) (2 ^ 32) ≡ true = ground arith in
        let written : (write_record r b).1 ≡ ok = ground arith in
        rw (q, write, frame) (rw fits (content-write_record r b written))
  ]

  -- The pipeline writes each event, and goes on after an error.
  unfoldable pub write_each : Recorder → List (CarEvent t) → Recorder
  write_each r [] = r
  write_each r (e ∷ es) = write_each (write c r e).0 es

  -- Each write of `write_each` succeeds.
  abbrev pub AllWritten : Recorder → List (CarEvent t) → Type 0
  AllWritten r [] = Unit {0}
  AllWritten r (e ∷ es) = ((write c r e).1 ≡ ok) × AllWritten (write c r e).0 es

  pub AllWritten-AllRecordable :
      (r : Recorder) (es : List (CarEvent t)) → AllWritten r es → AllRecordable es
  AllWritten-AllRecordable r [] h = tt
  AllWritten-AllRecordable r (e ∷ es) h =
      (write-IsRecordable r e h.0, AllWritten-AllRecordable (write c r e).0 es h.1)

  pub content-write_each :
      (r : Recorder) (es : List (CarEvent t))
      → AllWritten r es
      → content_of (write_each r es) ≡ content_of r ++ stream es
  unfolding write_each
  content-write_each r [] h = sym (append-nil (content_of r))
  content-write_each r (e ∷ es) h =
      content-write_each (write c r e).0 es h.1
      ∙ ap (λ b. b ++ stream es) (content-write r e h.0)
      ∙ append_assoc (content_of r) (frame e) (stream es)

  pub stream-append : (xs ys : List (CarEvent t)) → stream (xs ++ ys) ≡ stream xs ++ stream ys
  stream-append [] ys = refl
  stream-append (e ∷ es) ys =
      ap (◌++◌ (frame e)) (stream-append es ys)
      ∙ sym (append_assoc (frame e) (stream es) (stream ys))

-- ===== src/Session/Crash.antt =====
-- What a recording holds when the hub is killed: the bytes in the file, without those that the
-- writer still held back.
use olivaw_hub.Prelude.{
  ℕ, ◌+◌, ◌*◌, ◌/◌, ◌%◌, ◌^◌, ◌≤◌, ◌<◌, ◌≡◌, refl, sym, ap, ◌∙◌, subst, inl, inr, true, List, [],
  ◌∷◌, ◌++◌, append-nil, append_assoc, arith, ltb, length, length-append, take, take-append,
  take-append_le, take_all, Option-cases,
}
use native.Mathlib.Decide.{ℕ_discrete}
use olivaw_hub.Text.{Bytes}
use olivaw_hub.External.{Types}
use olivaw_hub.Ingest.{CarEvent}
use olivaw_hub.Postcard.{Postcard, PostcardLaws}
use olivaw_hub.Session.BufWriter.{
  write_all, flush, content-write_all, file-flush, file-le-flush, file-le-write_all,
}
use olivaw_hub.Session.Recorder.{
  Recorder, ok, le_bytes, count_record, write_record, write, create, close,
}
use olivaw_hub.Session.Read.{events, read_all}
use olivaw_hub.Session.Stream.{
  content_of, frame, stream, write_each, AllWritten, AllWritten-AllRecordable, content-write,
  content-write_each, stream-append,
}
use olivaw_hub.Session.RoundTrip.{read_all_cut}

-- What a successful step does to the file and the count.
record Stored (r r' : Recorder) (after : Bytes) : Type 0 where
  counted : r'.records ≡ (r.records + 1) % 2 ^ 64
  grown : length r.out.file ≤ length r'.out.file
  flushed : r'.records % 100 ≡ 0 → r'.out.file ≡ after

count_record-Stored :
    (r : Recorder) → (count_record r).1 ≡ ok → Stored r (count_record r).0 (content_of r)
unfolding count_record
count_record-Stored r h = record {
  counted = ground arith;
  grown = ground (arith, file-le-flush r.out);
  flushed = λ z. ground (arith, file-flush r.out);
}

write_record-Stored :
    (r : Recorder) (b : Bytes)
    → (write_record r b).1 ≡ ok
    → Stored r (write_record r b).0 (content_of r ++ (le_bytes (length b) ++ b))
unfolding write_record
write_record-Stored r b h =
    let w = write_all r.out (le_bytes (length b)) in
    let v = write_all w.0 b in
    let headed : w.1 ≡ true = ground arith in
    let bodied : v.1 ≡ true = ground arith in
    let counted : (count_record (record r { out = v.0 })).1 ≡ ok = ground arith in
    let s = count_record-Stored (record r { out = v.0 }) counted in
    let first = file-le-write_all r.out (le_bytes (length b)) in
    let second = file-le-write_all w.0 b in
    rw (headed, bodied)
      (record {
        counted = s.counted;
        grown = omega (arith, s.grown, first, second);
        flushed = λ z.
            s.flushed z
            ∙ content-write_all w.0 b bodied
            ∙ ap (λ x. x ++ b) (content-write_all r.out (le_bytes (length b)) headed)
            ∙ append_assoc (content_of r) (le_bytes (length b)) b;
      })

-- The number of records up to the last flush.
abbrev pub hundreds : ℕ → ℕ
hundreds n = 100 * (n / 100)

module _ {t : Types} (c : Postcard t) where
  write-Stored :
      (r : Recorder) (e : CarEvent t)
      → (write c r e).1 ≡ ok
      → Stored r (write c r e).0 (content_of r ++ frame c e)
  unfolding write
  write-Stored r e h = elim (Option-cases (Postcard.to_stdvec c e)) [
    | inl q ↦ absurd (ground arith)
    | inr (b, q) ↦
        let fits : ltb (length b) (2 ^ 32) ≡ true = ground arith in
        let written : (write_record r b).1 ≡ ok = ground arith in
        rw (q, write, frame) (rw fits (write_record-Stored r b written))
  ]

  record Kept (r : Recorder) (es : List (CarEvent t)) : Type 0 where
    all : content_of r ≡ stream c es
    counted : r.records ≡ length es
    safe : length (stream c (take (hundreds (length es)) es)) ≤ length r.out.file

  Kept-write :
      (r : Recorder) (es : List (CarEvent t)) (e : CarEvent t)
      → Kept r es
      → length es + 1 < 2 ^ 64
      → (write c r e).1 ≡ ok
      → Kept (write c r e).0 (es ++ e ∷ [])
  Kept-write r es e k h w =
      let r' = (write c r e).0 in
      let es' = es ++ e ∷ [] in
      let s = write-Stored r e w in
      let more = length-append es (e ∷ []) in
      let all' : content_of r ++ frame c e ≡ stream c es' =
        ap (λ b. b ++ frame c e) k.all
        ∙ ap (◌++◌ (stream c es)) (sym (append-nil (frame c e)))
        ∙ sym (stream-append c es (e ∷ [])) in
      let counted' : r'.records ≡ length es' = omega (arith, s.counted, k.counted, more) in
      let n = hundreds (length es') in
      let safe' : length (stream c (take n es')) ≤ length r'.out.file =
        elim (ℕ_discrete (r'.records % 100) 0) [
          | yes z ↦
              let whole = ap (λ l. length (stream c l)) (take_all n es' (omega arith)) in
              let file = ap length (s.flushed z ∙ all') in omega (arith, whole, file)
          | no z ↦
              let same : n ≡ hundreds (length es) = omega (arith, more) in
              let part =
                ap (λ l. length (stream c l))
                  (ap (λ m. take m es') same
                    ∙ take-append_le (hundreds (length es)) es (e ∷ []) (omega arith)) in
              omega (arith, part, k.safe, s.grown)
        ] in
      record { all = content-write c r e w ∙ all'; counted = counted'; safe = safe' }

  Kept-write_each :
      (r : Recorder) (before es : List (CarEvent t))
      → Kept r before
      → length before + length es < 2 ^ 64
      → AllWritten c r es
      → Kept (write_each c r es) (before ++ es)
  unfolding write_each
  Kept-write_each r before [] k h w = subst (Kept r) (sym (append-nil before)) k
  Kept-write_each r before (e ∷ es) k h w =
      subst (Kept (write_each c (write c r e).0 es)) (append_assoc before (e ∷ []) es) (
        Kept-write_each (write c r e).0 (before ++ e ∷ []) es
          (Kept-write r before e k (omega arith) w.0) (omega (arith, length-append before (e ∷ [])))
          w.1)

  Kept-create : (room : ℕ) → Kept (create room) []
  unfolding create
  Kept-create room = record { all = refl; counted = refl; safe = omega arith }

  -- A file whose recorder was killed after it had written `es`, fewer than 2 ^ 64 events, without an
  -- error: it reads back without an error as a prefix of `es`, which has all the events up to the
  -- last hundredth at least.
  pub killed :
      (laws : PostcardLaws c) (room : ℕ) (es : List (CarEvent t))
      → length es < 2 ^ 64
      → AllWritten c (create room) es
      → (k : ℕ) × (read_all c (write_each c (create room) es).out.file ≡ events (take k es))
        × (hundreds (length es) ≤ k)
  killed laws room es h w =
      let r = write_each c (create room) es in
      let kept = Kept-write_each (create room) [] es (Kept-create room) (omega arith) w in
      let n = length r.out.file in
      let (k, read, exact) =
        read_all_cut c laws n es (AllWritten-AllRecordable c (create room) es w) in
      let cut : r.out.file ≡ take n (stream c es) =
        sym (take-append r.out.file r.out.buffer) ∙ ap (take n) kept.all in
      (k, ap (read_all c) cut ∙ read, (exact (hundreds (length es)) (omega arith)).1 kept.safe)

  -- A recording whose writes all succeeded, and that is closed with its last flush done, reads back
  -- as the events that were written.
  pub recorded :
      (laws : PostcardLaws c) (room : ℕ) (es : List (CarEvent t))
      → AllWritten c (create room) es
      → (flush (write_each c (create room) es).out).1 ≡ true
      → read_all c (close (write_each c (create room) es)).out.file ≡ events es
  unfolding close create
  recorded laws room es w done =
      let r = write_each c (create room) es in
      let file : (flush r.out).0.file ≡ stream c es =
        file-flush r.out done ∙ content-write_each c (create room) es w in
      let n = length (stream c es) in
      let (k, read, exact) =
        read_all_cut c laws n es (AllWritten-AllRecordable c (create room) es w) in
      let whole = ap (λ l. length (stream c l)) (take_all (length es) es (omega arith)) in
      let enough = (exact (length es) (omega arith)).1 (omega (arith, whole)) in
      ap (read_all c) (file ∙ sym (take_all n (stream c es) (omega arith)))
      ∙ read
      ∙ ap events (take_all k es enough)

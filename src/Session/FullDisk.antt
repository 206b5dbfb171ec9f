-- ===== src/Session/FullDisk.antt =====
-- What a recording holds on a disk that may be too small for it.
use olivaw_hub.Prelude.{
  ℕ, ◌+◌, ◌%◌, ◌^◌, ◌==◌, ◌≤◌, ◌≡◌, refl, sym, ap, ◌∙◌, subst, inl, inr, ◌↔◌, List, [], ◌∷◌, ◌++◌,
  append-nil, append_assoc, arith, lt→ltb, length, take, take_all, take-append, Bool-cases,
}
use olivaw_hub.Text.{Bytes}
use olivaw_hub.External.{Types}
use olivaw_hub.Ingest.{CarEvent}
use olivaw_hub.Postcard.{Postcard, PostcardLaws}
use olivaw_hub.Session.BufWriter.{flush, write_all}
use olivaw_hub.Session.Recorder.{
  Recorder, le_bytes, count_record, write_record, write, create, close,
}
use olivaw_hub.Session.Read.{events, read_all}
use olivaw_hub.Session.Stream.{frame, stream, IsRecordable, AllRecordable, write_each}
use olivaw_hub.Session.RoundTrip.{read_all-take}
use olivaw_hub.Session.BufWriter.Given.{
  Given, Given-full, Given-flush, flush-file, write_all-room, Given-write_all,
}

Given-count_record :
    (size : ℕ) (s : Bytes) (r : Recorder) → Given size s r.out → Given size s (count_record r).0.out
unfolding count_record
Given-count_record size s r g =
    let n = (r.records + 1) % 2 ^ 64 in
    elim (Bool-cases (n % 100 == 0)) [
      | inl hundredth ↦ rw hundredth (Given-flush size s r.out g)
      | inr other ↦ rw other g
    ]

Given-write_record :
    (size : ℕ) (s b : Bytes) (r : Recorder)
    → Given size s r.out
    → Given size (s ++ (le_bytes (length b) ++ b)) (write_record r b).0.out
unfolding write_record
Given-write_record size s b r g =
    let header = le_bytes (length b) in
    let w = write_all r.out header in
    let v = write_all w.0 b in
    let g1 = Given-write_all size s header r.out g in
    let g2 = Given-write_all size (s ++ header) b w.0 g1 in
    let whole = append_assoc s header b in
    elim (Bool-cases w.1) [
      | inl headed ↦ elim (Bool-cases v.1) [
        | inl bodied ↦
            rw (headed, bodied)
              (subst (λ x. Given size x (count_record (record r { out = v.0 })).0.out) whole
                (Given-count_record size (s ++ header ++ b) (record r { out = v.0 }) g2))
        | inr lost ↦ rw (headed, lost) (subst (λ x. Given size x v.0) whole g2)
      ]
      | inr lost ↦ rw lost (
          subst (λ x. Given size x w.0) whole
            (Given-full size (s ++ header) b w.0 g1 (write_all-room r.out header lost)))
    ]

module _ {t : Types} (c : Postcard t) where
  Given-write :
      (size : ℕ) (s : Bytes) (r : Recorder) (e : CarEvent t)
      → IsRecordable c e
      → Given size s r.out
      → Given size (s ++ frame c e) (write c r e).0.out
  unfolding write
  Given-write size s r e (b, q, h) g =
      rw (q, write, frame) (rw (lt→ltb _ _ h) (Given-write_record size s b r g))

  Given-write_each :
      (size : ℕ) (s : Bytes) (r : Recorder) (es : List (CarEvent t))
      → AllRecordable c es
      → Given size s r.out
      → Given size (s ++ stream c es) (write_each c r es).out
  unfolding write_each
  Given-write_each size s r [] rs g = subst (λ b. Given size b r.out) (sym (append-nil s)) g
  Given-write_each size s r (e ∷ es) (one, rs) g =
      subst (λ b. Given size b (write_each c (write c r e).0 es).out)
        (append_assoc s (frame c e) (stream c es))
        (Given-write_each size (s ++ frame c e) (write c r e).0 es rs
          (Given-write size s r e one g))

  Given-create : (size : ℕ) → Given size [] (create size).out
  unfolding create
  Given-create size = record { sized = omega arith; held = inl refl }

  -- A recording that is closed holds what the disk takes of its records.
  close-file :
      (size : ℕ) (es : List (CarEvent t))
      → AllRecordable c es
      → (close (write_each c (create size) es)).out.file ≡ take size (stream c es)
  unfolding close flush
  close-file size es rs =
      let w = (write_each c (create size) es).out in
      let g = Given-write_each size [] (create size) es rs (Given-create size) in
      flush-file size (stream c es) w g

  -- The file of a recorder that was killed has a first part of the records.
  killed-file :
      (size : ℕ) (es : List (CarEvent t))
      → AllRecordable c es
      → (n : ℕ) × ((write_each c (create size) es).out.file ≡ take n (stream c es))
  killed-file size es rs =
      let w = (write_each c (create size) es).out in
      let g = Given-write_each size [] (create size) es rs (Given-create size) in
      elim g.held [
        | inl all ↦
            (length w.file, sym (take-append w.file w.buffer) ∙ ap (take (length w.file)) all)
        | inr (z, first) ↦ (size, first)
      ]

  -- Whatever the size of the disk is, and however many writes fail on it: a recording of events that
  -- can be recorded is never broken. Once it is closed it reads back as the first events, just those
  -- whose records fit on the disk; and if the hub is killed it reads back as some of the first.
  pub full_disk :
      (laws : PostcardLaws c) (size : ℕ) (es : List (CarEvent t))
      → AllRecordable c es
      → ((k : ℕ) × (read_all c (close (write_each c (create size) es)).out.file
            ≡ events (take k es))
          × ((j : ℕ) → (length (take j es) ≤ k) ↔ (length (stream c (take j es)) ≤ size)))
        × ((k : ℕ) × (read_all c (write_each c (create size) es).out.file ≡ events (take k es)))
  full_disk laws size es rs =
      let (k, read, exact) = read_all-take c laws size es rs in
      let (n, cut) = killed-file size es rs in
      let (k', read', _) = read_all-take c laws n es rs in
      (
        (k, ap (read_all c) (close-file size es rs) ∙ read, exact),
        (k', ap (read_all c) cut ∙ read'),
      )

  -- On a disk with room for all the records the file reads back as all the events.
  pub fitting :
      (laws : PostcardLaws c) (size : ℕ) (es : List (CarEvent t))
      → AllRecordable c es
      → length (stream c es) ≤ size
      → read_all c (close (write_each c (create size) es)).out.file ≡ events es
  fitting laws size es rs fits =
      let ((k, read, exact), _) = full_disk laws size es rs in
      let all = take_all (length es) es (omega arith) in
      let whole = ap (λ l. length (stream c l)) all in
      let enough = (exact (length es)).1 (omega (arith, whole)) in
      read ∙ ap events (take_all k es (omega (arith, enough, ap length all)))

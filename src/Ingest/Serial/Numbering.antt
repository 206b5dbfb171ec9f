-- ===== src/Ingest/Serial/Numbering.antt =====
-- The scans that the serial lidar sends: one for each rotation, numbered in a row.
use olivaw_hub.Prelude.{
  ℕ, zero, suc, ◌+◌, ◌*◌, ◌%◌, ◌^◌, ◌≤◌, ◌≡◌, refl, ap, ◌∙◌, inl, inr, true, false, Option, none,
  some, List, [], ◌∷◌, length, get_elem?, arith, Bool-cases,
}
use olivaw_hub.Text.{Text, codes}
use olivaw_hub.External.{Types, Floats}
use olivaw_hub.Ingest
use olivaw_hub.Ingest.{CarEvent, EventKind, status, now}
use olivaw_hub.Ingest.Serial.{
  Frames, Rotation, Measured, End, finished, is_due, frame_of, scan_loop, run,
}

module _ {t : Types} where
  abbrev pub scans_of : List (CarEvent t) → List t.ScanFrame
  scans_of [] = []
  scans_of (e ∷ es) = elim e.kind [
    | Ingest.status text ↦ scans_of es
    | Ingest.telemetry x ↦ scans_of es
    | Ingest.scan frame ↦ frame ∷ scans_of es
  ]

  -- The lidar reads every rotation.
  abbrev pub AllRead : List (Rotation t) → Type 0
  AllRead [] = Unit {0}
  AllRead (r ∷ rs) = ((points : List (Measured t)) × (r.points ≡ some points)) × AllRead rs

module _ {t : Types} (floats : Floats t) (frames : Frames t) (car_id : Text) (started : ℕ) where
  -- The frame of the rotation `r`, if its number is `k`.
  abbrev pub numbered : ℕ → Rotation t → Option t.ScanFrame
  numbered k r = elim r.points [
    | none ↦ none
    | some points ↦ some (frame_of floats frames started (k % 2 ^ 32) r.frame_at points)
  ]

  abbrev pub at_index : List (Rotation t) → ℕ → ℕ → Option t.ScanFrame
  at_index rs k i = elim (get_elem? rs i) [ none ↦ none | some r ↦ numbered k r ]

  -- The loop ended with its rotations, and sent their frames with the numbers from `k` on.
  record Sends (k : ℕ) (rs : List (Rotation t)) (sent : List (CarEvent t) × End) : Type 0 where
    whole : sent.1 ≡ finished
    each : (i : ℕ) → get_elem? (scans_of sent.0) i ≡ at_index rs (k + i) i

  Sends-cons :
      (k : ℕ) (r : Rotation t) (rs : List (Rotation t)) (points : List (Measured t))
      (rest sent : List (CarEvent t) × End)
      → r.points ≡ some points
      → Sends (k + 1) rs rest
      → sent.1 ≡ rest.1
      → scans_of sent.0
        ≡ frame_of floats frames started (k % 2 ^ 32) r.frame_at points ∷ scans_of rest.0
      → Sends k (r ∷ rs) sent
  Sends-cons k r rs points rest sent read s e f = record {
    whole = e ∙ s.whole;
    each = λ i. ap (λ l. get_elem? l i) f ∙ at i;
  }
    where
      first : ℕ → t.ScanFrame
      first n = frame_of floats frames started (n % 2 ^ 32) r.frame_at points

      at : (i : ℕ) → get_elem? (first k ∷ scans_of rest.0) i ≡ at_index (r ∷ rs) (k + i) i
      at zero = let z : k ≡ k + 0 = omega arith in rw (read, at_index) (ap (λ n. some (first n)) z)
      at (suc i) =
          let z : k + 1 + i ≡ k + suc i = omega arith in s.each i ∙ ap (λ n. at_index rs n i) z

  scan_loop_due :
      (seq : ℕ) (last : Option ℕ) (room : ℕ) (r : Rotation t) (rs : List (Rotation t))
      (points : List (Measured t))
      → r.points ≡ some points
      → is_due last r.check_at ≡ true
      → let rest =
          scan_loop floats frames car_id started ((seq + 1) % 2 ^ 32) (some r.mark_at) room rs in
        let sent = scan_loop floats frames car_id started seq last (suc (suc room)) (r ∷ rs) in
        (sent.1 ≡ rest.1)
        × (scans_of sent.0 ≡ frame_of floats frames started seq r.frame_at points ∷ scans_of rest.0)
  unfolding scan_loop now
  scan_loop_due seq last room r rs points e d = (ground arith, ground arith)

  scan_loop_idle :
      (seq : ℕ) (last : Option ℕ) (room : ℕ) (r : Rotation t) (rs : List (Rotation t))
      (points : List (Measured t))
      → r.points ≡ some points
      → is_due last r.check_at ≡ false
      → let rest = scan_loop floats frames car_id started ((seq + 1) % 2 ^ 32) last (suc room) rs in
        let sent = scan_loop floats frames car_id started seq last (suc (suc room)) (r ∷ rs) in
        (sent.1 ≡ rest.1)
        × (scans_of sent.0 ≡ frame_of floats frames started seq r.frame_at points ∷ scans_of rest.0)
  unfolding scan_loop now
  scan_loop_idle seq last room r rs points e d = (ground arith, ground arith)

  nothing_left :
      (k : ℕ) (last : Option ℕ) (room : ℕ)
      → Sends k [] (scan_loop floats frames car_id started (k % 2 ^ 32) last room [])
  unfolding scan_loop
  nothing_left k last room = record { whole = refl; each = λ i. refl }

  scan_loop-Sends :
      (k : ℕ) (last : Option ℕ) (room : ℕ) (rs : List (Rotation t))
      → AllRead rs
      → length rs * 2 ≤ room
      → Sends k rs (scan_loop floats frames car_id started (k % 2 ^ 32) last room rs)
  scan_loop-Sends k last room [] read h = nothing_left k last room
  scan_loop-Sends k last zero (r ∷ rs) read h = absurd (omega arith)
  scan_loop-Sends k last (suc zero) (r ∷ rs) read h = absurd (omega arith)
  scan_loop-Sends k last (suc (suc room)) (r ∷ rs) ((points, e), read) h =
      let step : (k % 2 ^ 32 + 1) % 2 ^ 32 ≡ (k + 1) % 2 ^ 32 = omega arith in
      let sent =
        scan_loop floats frames car_id started (k % 2 ^ 32) last (suc (suc room)) (r ∷ rs) in
      elim (Bool-cases (is_due last r.check_at)) [
        | inl due ↦
            let rest : ℕ → List (CarEvent t) × End =
              λ n. scan_loop floats frames car_id started n (some r.mark_at) room rs in
            let (ends, frames') = scan_loop_due (k % 2 ^ 32) last room r rs points e due in
            Sends-cons k r rs points (rest ((k + 1) % 2 ^ 32)) sent e
              (scan_loop-Sends (k + 1) (some r.mark_at) room rs read (omega arith))
              (ends ∙ ap (λ n. (rest n).1) step)
              (frames'
                ∙ ap
                    (λ n.
                      frame_of floats frames started (k % 2 ^ 32) r.frame_at points
                      ∷ scans_of (rest n).0)
                    step)
        | inr idle ↦
            let rest : ℕ → List (CarEvent t) × End =
              λ n. scan_loop floats frames car_id started n last (suc room) rs in
            let (ends, frames') = scan_loop_idle (k % 2 ^ 32) last room r rs points e idle in
            Sends-cons k r rs points (rest ((k + 1) % 2 ^ 32)) sent e
              (scan_loop-Sends (k + 1) last (suc room) rs read (omega arith))
              (ends ∙ ap (λ n. (rest n).1) step)
              (frames'
                ∙ ap
                    (λ n.
                      frame_of floats frames started (k % 2 ^ 32) r.frame_at points
                      ∷ scans_of (rest n).0)
                    step)
      ]

  -- While the lidar reads and the pipeline takes its events, the thread announces the car and then
  -- sends one scan for each rotation, in their order: the `i`-th has the points of the `i`-th
  -- rotation and the number `i`, in 32 bits. It goes on to the last rotation.
  pub run-scans :
      (clock : Option ℕ) (room : ℕ) (rs : List (Rotation t))
      → AllRead rs
      → length rs * 2 + 1 ≤ room
      → let sent = run floats frames car_id started clock room rs in
        (sent.1 ≡ finished)
        × (get_elem? sent.0 0 ≡ some (now clock car_id (status (codes "online"))))
        × ((i : ℕ) → get_elem? (scans_of sent.0) i ≡ at_index rs i i)
  unfolding run now
  run-scans clock zero rs read h = absurd (omega arith)
  run-scans clock (suc room) rs read h =
      let s = scan_loop-Sends 0 none room rs read (omega arith) in
      (s.whole, refl, λ i. s.each i ∙ index i)
    where
      index : (i : ℕ) → at_index rs (0 + i) i ≡ at_index rs i i
      index i = let z : 0 + i ≡ i = omega arith in ap (λ n. at_index rs n i) z

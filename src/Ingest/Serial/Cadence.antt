-- ===== src/Ingest/Serial/Cadence.antt =====
-- How often the serial lidar sends a telemetry sample.
use olivaw_hub.Prelude.{
  ℕ, zero, suc, ◌+◌, ◌-◌, ◌*◌, ◌/◌, ◌%◌, ◌^◌, ◌≤◌, ◌≡◌, refl, inl, inr, true, false, Option, none,
  some, List, [], ◌∷◌, arith, Bool-cases, Option-cases,
}
use olivaw_hub.Text.{Text}
use olivaw_hub.External.{Types, Floats}
use olivaw_hub.Ingest
use olivaw_hub.Ingest.{CarEvent, now}
use olivaw_hub.Ingest.Serial.{Frames, Rotation, Measured, is_due, scan_loop, run}

module _ {t : Types} where
  abbrev pub samples : List (CarEvent t) → ℕ
  samples [] = 0
  samples (e ∷ es) = elim e.kind [
    | Ingest.status text ↦ samples es
    | Ingest.telemetry x ↦ suc (samples es)
    | Ingest.scan frame ↦ samples es
  ]

  -- The clock does not run backwards from `start` to `finish`.
  abbrev pub Ordered : ℕ → List (Rotation t) → ℕ → Type 0
  Ordered start [] finish = start ≤ finish
  Ordered start (r ∷ rs) finish =
      (start ≤ r.check_at) × (r.check_at ≤ r.mark_at) × Ordered r.mark_at rs finish

  Ordered-le :
      (start : ℕ) (rs : List (Rotation t)) (finish : ℕ) → Ordered start rs finish → start ≤ finish
  Ordered-le start [] finish h = h
  Ordered-le start (r ∷ rs) finish (a, b, h) =
      let c = Ordered-le r.mark_at rs finish h in omega arith

is_due-le : (last at : ℕ) → is_due (some last) at ≡ true → 1000000000 ≤ at - last
unfolding is_due
is_due-le last at h = ground arith

module _ {t : Types} (floats : Floats t) (frames : Frames t) (car_id : Text) (started : ℕ) where
  abbrev loop : ℕ → Option ℕ → ℕ → List (Rotation t) → ℕ
  loop seq last room rs = samples (scan_loop floats frames car_id started seq last room rs).0

  loop_broken :
      (seq : ℕ) (last : Option ℕ) (room : ℕ) (r : Rotation t) (rs : List (Rotation t))
      → r.points ≡ none
      → loop seq last room (r ∷ rs) ≡ 0
  unfolding scan_loop now
  loop_broken seq last zero r rs h = ground arith
  loop_broken seq last (suc zero) r rs h = ground arith
  loop_broken seq last (suc (suc room)) r rs h = ground arith

  loop_full :
      (seq : ℕ) (last : Option ℕ) (r : Rotation t) (rs : List (Rotation t))
      (points : List (Measured t))
      → r.points ≡ some points
      → loop seq last 0 (r ∷ rs) ≡ 0
  unfolding scan_loop now
  loop_full seq last r rs points h = ground arith

  loop_due_full :
      (seq : ℕ) (last : Option ℕ) (r : Rotation t) (rs : List (Rotation t))
      (points : List (Measured t))
      → r.points ≡ some points
      → is_due last r.check_at ≡ true
      → loop seq last 1 (r ∷ rs) ≡ 0
  unfolding scan_loop now
  loop_due_full seq last r rs points h due = ground arith

  loop_due :
      (seq : ℕ) (last : Option ℕ) (room : ℕ) (r : Rotation t) (rs : List (Rotation t))
      (points : List (Measured t))
      → r.points ≡ some points
      → is_due last r.check_at ≡ true
      → loop seq last (suc (suc room)) (r ∷ rs)
        ≡ suc (loop ((seq + 1) % 2 ^ 32) (some r.mark_at) room rs)
  unfolding scan_loop now
  loop_due seq last room r rs points h due = ground arith

  loop_idle :
      (seq : ℕ) (last : Option ℕ) (room : ℕ) (r : Rotation t) (rs : List (Rotation t))
      (points : List (Measured t))
      → r.points ≡ some points
      → is_due last r.check_at ≡ false
      → loop seq last (suc room) (r ∷ rs) ≡ loop ((seq + 1) % 2 ^ 32) last room rs
  unfolding scan_loop now
  loop_idle seq last zero r rs points h idle = ground arith
  loop_idle seq last (suc room) r rs points h idle = ground arith

  -- The time for samples from `start` to `finish`: the first one is due at once, each other a second
  -- after the one before, which was sent at `last`.
  abbrev budget : Option ℕ → ℕ → ℕ → ℕ
  budget none start finish = finish - start + 1000000000
  budget (some last) start finish = finish - last

  abbrev Before : Option ℕ → ℕ → Type 0
  Before none start = Unit {0}
  Before (some last) start = last ≤ start

  Before-le :
      (last : Option ℕ) (start later : ℕ) → start ≤ later → Before last start → Before last later
  Before-le none start later h b = tt
  Before-le (some last) start later h b = omega arith

  budget_later :
      (last : Option ℕ) (start later finish : ℕ)
      → start ≤ later
      → budget last later finish ≤ budget last start finish
  budget_later none start later finish h = omega arith
  budget_later (some last) start later finish h = omega arith

  budget_due :
      (last : Option ℕ) (start at mark finish : ℕ)
      → is_due last at ≡ true
      → Before last start
      → start ≤ at
      → at ≤ mark
      → mark ≤ finish
      → finish - mark + 1000000000 ≤ budget last start finish
  budget_due none start at mark finish due b h k l = omega arith
  budget_due (some last) start at mark finish due b h k l =
      let waited = is_due-le last at due in omega arith

  silent_le : (n m : ℕ) → n ≡ 0 → n * 1000000000 ≤ m
  silent_le n m h = omega arith

  loop_done : (seq : ℕ) (last : Option ℕ) (room : ℕ) → loop seq last room [] ≡ 0
  unfolding scan_loop
  loop_done seq last room = refl

  due_round :
      (seq : ℕ) (last : Option ℕ) (room : ℕ) (r : Rotation t) (rs : List (Rotation t))
      (points : List (Measured t))
      → r.points ≡ some points
      → is_due last r.check_at ≡ true
      → (finish limit : ℕ)
      → ((left : ℕ)
          → loop ((seq + 1) % 2 ^ 32) (some r.mark_at) left rs * 1000000000 ≤ finish - r.mark_at)
      → finish - r.mark_at + 1000000000 ≤ limit
      → loop seq last room (r ∷ rs) * 1000000000 ≤ limit
  due_round seq last zero r rs points read due finish limit rest h =
      silent_le (loop seq last 0 (r ∷ rs)) limit (loop_full seq last r rs points read)
  due_round seq last (suc zero) r rs points read due finish limit rest h =
      silent_le (loop seq last 1 (r ∷ rs)) limit (loop_due_full seq last r rs points read due)
  due_round seq last (suc (suc room)) r rs points read due finish limit rest h =
      let one_more = loop_due seq last room r rs points read due in
      let others = rest room in omega arith

  idle_round :
      (seq : ℕ) (last : Option ℕ) (room : ℕ) (r : Rotation t) (rs : List (Rotation t))
      (points : List (Measured t))
      → r.points ≡ some points
      → is_due last r.check_at ≡ false
      → (limit shorter : ℕ)
      → ((left : ℕ) → loop ((seq + 1) % 2 ^ 32) last left rs * 1000000000 ≤ shorter)
      → shorter ≤ limit
      → loop seq last room (r ∷ rs) * 1000000000 ≤ limit
  idle_round seq last zero r rs points read idle limit shorter rest h =
      silent_le (loop seq last 0 (r ∷ rs)) limit (loop_full seq last r rs points read)
  idle_round seq last (suc room) r rs points read idle limit shorter rest h =
      let same = loop_idle seq last room r rs points read idle in
      let others = rest room in omega arith

  loop-budget :
      (seq : ℕ) (last : Option ℕ) (room start finish : ℕ) (rs : List (Rotation t))
      → Ordered start rs finish
      → Before last start
      → loop seq last room rs * 1000000000 ≤ budget last start finish
  loop-budget seq last room start finish [] o b =
      silent_le (loop seq last room []) (budget last start finish) (loop_done seq last room)
  loop-budget seq last room start finish (r ∷ rs) (h, k, o) b =
      let count = loop seq last room (r ∷ rs) in
      let limit = budget last start finish in
      let seq' = (seq + 1) % 2 ^ 32 in
      let end = Ordered-le r.mark_at rs finish o in
      elim (Option-cases r.points) [
        | inl broken ↦ silent_le count limit (loop_broken seq last room r rs broken)
        | inr (points, read) ↦ elim (Bool-cases (is_due last r.check_at)) [
          | inl due ↦
              let rest = λ (left : ℕ).
                loop-budget seq' (some r.mark_at) left r.mark_at finish rs o (omega arith) in
              due_round seq last room r rs points read due finish limit rest
                (budget_due last start r.check_at r.mark_at finish due b h k end)
          | inr idle ↦
              let rest = λ (left : ℕ).
                loop-budget seq' last left r.mark_at finish rs o
                  (Before-le last start r.mark_at (omega arith) b) in
              idle_round seq last room r rs points read idle limit (budget last r.mark_at finish)
                rest (budget_later last start r.mark_at finish (omega arith))
        ]
      ]

  -- While the clock does not run backwards, the thread sends at most one telemetry sample at the
  -- start and one more for each second of the time that passed, whatever the lidar reads and
  -- however many events the pipeline takes.
  pub run-samples :
      (clock : Option ℕ) (room start finish : ℕ) (rs : List (Rotation t))
      → Ordered start rs finish
      → samples (run floats frames car_id started clock room rs).0
        ≤ (finish - start) / 1000000000 + 1
  unfolding run now
  run-samples clock zero start finish rs o = omega arith
  run-samples clock (suc room) start finish rs o =
      let bound = loop-budget 0 none room start finish rs o tt in omega arith

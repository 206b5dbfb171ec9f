-- ===== src/Sim/Drive/Sent.antt =====
-- What the simulated car sends, however long it drives and however often the pipeline takes events.
use olivaw_hub.Prelude.{
  ℕ, zero, suc, ◌+◌, ◌%◌, ◌^◌, ◌<◌, min, ◌≡◌, refl, sym, ap, ◌∙◌, subst, ◌⊎◌, inl, inr, Bool, true,
  false, Option, List, [], ◌∷◌, ◌++◌, arith, length, length-append,
}
use olivaw_hub.External.{Types, Floats, Proto}
use olivaw_hub.Config.{SimConfig}
use olivaw_hub.Ingest.{CarEvent, now}
use olivaw_hub.Ingest.Serial.{Frames}
use olivaw_hub.Ingest.Serial.Frame.{FrameLaws}
use olivaw_hub.Ingest.Serial.Numbering.{scans_of}
use olivaw_hub.Sim.{RoomOps}
use olivaw_hub.Sim.Drive.{
  Firmware, Rover, Steered, spins, moved, Ended, ticking, pipeline_gone, spinning, Tick, Round,
  stops, goes_on, dt, scans_per_second, is_multiple_of, report, act, round_of, scanned, drive,
  at_start, run,
}
use olivaw_hub.Sim.Drive.Points.{Astray, steer-target, Pushed, scanned-Pushed}

module _ {t : Types} (p : Proto t) (capacity : ℕ) where
  -- The frames are numbered from `k` on, in 32 bits, and have 500 points, or as many as fit.
  abbrev pub Numbered : ℕ → List t.ScanFrame → Type 0
  Numbered k [] = Unit {0}
  Numbered k (frame ∷ frames) =
      (Proto.seq p frame ≡ k % 2 ^ 32)
      × (length (Proto.points p frame) ≡ min capacity 500)
      × Numbered (k + 1) frames

module _ {t : Types} (floats : Floats t) (ops : RoomOps t.F64) (p : Proto t) (frames : Frames t)
    (firmware : Firmware t) (laws : FrameLaws p frames) where
  open laws use {capacity}

  module _ (cfg : SimConfig t) (turns : t.F64 → ℕ) where
    -- A state that the car is in after some rounds from the start, whatever the clock says and
    -- however many events the pipeline takes.
    pub data After : ℕ → Rover t.F64 → Type 0 where
      begins : After 0 (at_start floats ops frames firmware cfg turns)
      next :
          {k : ℕ} {s s' : Rover t.F64} (tick : Tick) (room : ℕ) (sent : List (CarEvent t))
          (left : ℕ)
          → After k s
          → round_of floats ops frames firmware cfg turns tick room s ≡ goes_on sent left s'
          → After (k + 1) s'

    -- The car has gone astray after `k` rounds.
    abbrev pub Lost : ℕ → Type 0
    Lost k = (s : Rover t.F64) × After k s × Astray floats ops turns s

    -- How a drive over `n` ticks ended, after `k` rounds before it, of which `sent` came.
    abbrev pub EndsWell : ℕ → ℕ → ℕ → List (CarEvent t) × Ended → Type 0
    EndsWell k n room (sent, end) =
        ((end ≡ ticking) × (length (scans_of sent) ≡ n))
        ⊎ (((end ≡ pipeline_gone) × (length sent ≡ room))
            ⊎ ((end ≡ spinning) × Lost (length (scans_of sent) + k)))

    abbrev Sends : ℕ → ℕ → ℕ → List (CarEvent t) × Ended → Type 0
    Sends k n room drove = Numbered p capacity k (scans_of drove.0) × EndsWell k n room drove

    -- A round from the number `k` and the state `s` on, of which the pipeline takes `room` events.
    abbrev Rounds : ℕ → ℕ → Rover t.F64 → Round t → Type 0
    Rounds k room s0 (stops sent end) =
        Numbered p capacity k (scans_of sent)
        × (((end ≡ pipeline_gone) × (length sent ≡ room))
            ⊎ ((end ≡ spinning) × (scans_of sent ≡ []) × Astray floats ops turns s0))
    Rounds k room s0 (goes_on sent left s) =
        ((frame : t.ScanFrame) × Pushed floats ops p frames firmware laws (k % 2 ^ 32) 500 frame
          × ((rest : List (CarEvent t)) → scans_of (sent ++ rest) ≡ frame ∷ scans_of rest))
        × (length sent + left ≡ room)
        × (s.target < 6)
        × (s.seq ≡ (k + 1) % 2 ^ 32)

    scanned_target :
        (s : Rover t.F64)
        → s.target < 6
        → (scanned floats ops frames firmware cfg turns s).0.target < 6
    unfolding scanned
    scanned_target s h = h

    scanned_seq :
        (k : ℕ) (s : Rover t.F64)
        → s.seq ≡ k % 2 ^ 32
        → (scanned floats ops frames firmware cfg turns s).0.seq ≡ (k + 1) % 2 ^ 32
    unfolding scanned
    scanned_seq k s h = omega arith

    spins-Rounds :
        (k : ℕ) (tick : Tick) (room : ℕ) (s : Rover t.F64)
        → Astray floats ops turns s
        → Rounds k room s (act floats ops frames firmware cfg turns tick room spins)
    unfolding act
    spins-Rounds k tick room s far = (tt, inr (refl, refl, far))

    Sends-goes_on :
        (k n room left : ℕ) (sent : List (CarEvent t)) (frame : t.ScanFrame)
        (rest : List (CarEvent t) × Ended)
        → Pushed floats ops p frames firmware laws (k % 2 ^ 32) 500 frame
        → ((more : List (CarEvent t)) → scans_of (sent ++ more) ≡ frame ∷ scans_of more)
        → length sent + left ≡ room
        → Sends (k + 1) n left rest
        → Sends k (suc n) room (sent ++ rest.0, rest.1)
    Sends-goes_on k n room left sent frame rest h one fits (numbered, ends) =
        let more = length-append sent rest.0 in
        (
          subst (Numbered p capacity k) (sym (one rest.0)) (h.number, h.size, numbered),
          elim ends [
            | inl (e, all) ↦ inl (e, ap length (one rest.0) ∙ ap suc all)
            | inr (inl (e, full)) ↦ inr (inl (e, omega arith))
            | inr (inr (e, lost)) ↦
                let counted : length (scans_of rest.0) + (k + 1)
                    ≡ length (scans_of (sent ++ rest.0)) + k =
                  omega (arith, ap length (one rest.0)) in
                inr (inr (e, subst Lost counted lost))
          ],
        )

    report-Rounds :
        (k : ℕ) (tick : Tick) (s0 s : Rover t.F64) (frame : t.ScanFrame) (v w : t.F64) (due : Bool)
        (room : ℕ)
        → Pushed floats ops p frames firmware laws (k % 2 ^ 32) 500 frame
        → s.target < 6
        → s.seq ≡ (k + 1) % 2 ^ 32
        → Rounds k room s0 (report floats ops frames firmware cfg turns tick s frame v w due room)
    unfolding report now
    report-Rounds k tick s0 s frame v w due zero h l e = (tt, inl (refl, refl))
    report-Rounds k tick s0 s frame v w false (suc left) h l e =
        ((frame, h, λ rest. refl), omega arith, l, e)
    report-Rounds k tick s0 s frame v w true (suc zero) h l e =
        ((h.number, h.size, tt), inl (refl, refl))
    report-Rounds k tick s0 s frame v w true (suc (suc left)) h l e =
        ((frame, h, λ rest. refl), omega arith, l, e)

    act-Rounds :
        (k : ℕ) (tick : Tick) (room : ℕ) (s s1 : Rover t.F64) (v w : t.F64)
        → s.seq ≡ k % 2 ^ 32
        → s1.target < 6
        → s1.seq ≡ s.seq
        → Rounds k room s (act floats ops frames firmware cfg turns tick room (moved s1 v w))
    unfolding act
    act-Rounds k tick room s s1 v w e target seq =
        let (s2, frame) = scanned floats ops frames firmware cfg turns s1 in
        report-Rounds k tick s s2 frame v w
          (is_multiple_of s2.seq (scans_per_second floats ops frames firmware cfg turns)) room
          (subst (λ n. Pushed floats ops p frames firmware laws n 500 frame) (seq ∙ e)
            (scanned-Pushed floats ops p frames firmware laws cfg turns s1))
          (scanned_target s1 target) (scanned_seq k s1 (seq ∙ e))

    round_of-Rounds :
        (k : ℕ) (tick : Tick) (room : ℕ) (s : Rover t.F64)
        → s.target < 6
        → s.seq ≡ k % 2 ^ 32
        → Rounds k room s (round_of floats ops frames firmware cfg turns tick room s)
    unfolding round_of
    round_of-Rounds k tick room s h e =
        let acted : Steered t.F64 → Type 0 =
          λ st. Rounds k room s (act floats ops frames firmware cfg turns tick room st) in
        elim (steer-target floats ops turns (dt floats ops frames firmware cfg turns) cfg.speed_mps
          s h) [
            | inl (lost, far) ↦ subst acted (sym lost) (spins-Rounds k tick room s far)
            | inr (s1, v, w, goes, target, seq) ↦
                subst acted (sym goes) (act-Rounds k tick room s s1 v w e target seq)
          ]

    drive-Sends :
        (ticks : List Tick) (room k : ℕ) (s : Rover t.F64)
        → After k s
        → s.target < 6
        → s.seq ≡ k % 2 ^ 32
        → Sends k (length ticks) room (drive floats ops frames firmware cfg turns ticks room s)
    unfolding drive
    drive-Sends [] room k s after h e = (tt, inl (refl, refl))
    drive-Sends (tick ∷ ticks) room k s after h e =
        go (round_of floats ops frames firmware cfg turns tick room s) refl
          (round_of-Rounds k tick room s h e)
          (λ left s' after' target seq. drive-Sends ticks left (k + 1) s' after' target seq)
      where
        go :
            (r : Round t)
            → round_of floats ops frames firmware cfg turns tick room s ≡ r
            → Rounds k room s r
            → ((left : ℕ) (s' : Rover t.F64)
                → After (k + 1) s'
                → s'.target < 6
                → s'.seq ≡ (k + 1) % 2 ^ 32
                → Sends
                    (k + 1)
                    (length ticks)
                    left
                    (drive floats ops frames firmware cfg turns ticks left s'))
            → Sends k (suc (length ticks)) room (elim r [
              | stops sent end ↦ (sent, end)
              | goes_on sent left s' ↦
                  let rest = drive floats ops frames firmware cfg turns ticks left s' in
                  (sent ++ rest.0, rest.1)
            ])
        go (stops sent end) same (numbered, ends) later = (
          numbered,
          elim ends [
            | inl full ↦ inr (inl full)
            | inr (lost, quiet, far) ↦
                let counted : k ≡ length (scans_of sent) + k = omega (arith, ap length quiet) in
                inr (inr (lost, subst Lost counted (s, after, far)))
          ],
        )
        go (goes_on sent left s') same ((frame, full, one), fits, target, seq) later =
            Sends-goes_on k (length ticks) room left sent frame
              (drive floats ops frames firmware cfg turns ticks left s') full one fits
              (later left s' (next tick room sent left after same) target seq)

    from_start :
        (ticks : List Tick) (room : ℕ)
        → let (sent, end) =
            drive floats ops frames firmware cfg turns ticks room
              (at_start floats ops frames firmware cfg turns) in
          Numbered p capacity 0 (scans_of sent)
          × (((end ≡ ticking) × (length (scans_of sent) ≡ length ticks))
              ⊎ (((end ≡ pipeline_gone) × (length sent ≡ room))
                  ⊎ ((end ≡ spinning) × Lost (length (scans_of sent)))))
    unfolding at_start
    from_start ticks room =
        let start = at_start floats ops frames firmware cfg turns in
        let (numbered, ends) = drive-Sends ticks room 0 start begins (omega arith) refl in
        let drove = drive floats ops frames firmware cfg turns ticks room start in
        let all : length (scans_of drove.0) + 0 ≡ length (scans_of drove.0) = omega arith in
        (
          numbered,
          elim ends [
            | inl done ↦ inl done
            | inr (inl full) ↦ inr (inl full)
            | inr (inr (e, lost)) ↦ inr (inr (e, subst Lost all lost))
          ],
        )

    -- However long the car drives, the scans it sends are numbered from 0 on in 32 bits, each with 500
    -- points or as many as fit in a frame. It never looks for a waypoint that is not there: either
    -- it sends a scan at every tick, or the pipeline is gone after as many events as it takes, or
    -- the car has come, by as many rounds as it sent scans, to a state in which the error of its
    -- bearing for the next waypoint is not wrapped after the turns allowed for that error.
    pub run-Numbered :
        (clock : Option ℕ) (ticks : List Tick) (room : ℕ)
        → let (sent, end) = run floats ops frames firmware cfg turns clock ticks room in
          Numbered p capacity 0 (scans_of sent)
          × (((end ≡ ticking) × (length (scans_of sent) ≡ length ticks))
              ⊎ (((end ≡ pipeline_gone) × (length sent ≡ room))
                  ⊎ ((end ≡ spinning) × Lost (length (scans_of sent)))))
    unfolding run at_start now
    run-Numbered clock ticks zero = from_start ticks 0
    run-Numbered clock ticks (suc room) =
        let (numbered, ends) = from_start ticks room in
        (
          numbered,
          elim ends [
            | inl done ↦ inl done
            | inr (inl (e, full)) ↦ inr (inl (e, ap suc full))
            | inr (inr e) ↦ inr (inr e)
          ],
        )

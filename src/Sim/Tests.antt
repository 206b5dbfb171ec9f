-- ===== src/Sim/Tests.antt =====
-- The simulator over natural numbers.
use olivaw_hub.Prelude.{
  sym, ◌∙◌, ◌≢◌, ◌+◌, ℕ, ◌*◌, ◌≡◌, refl, ◌⊎◌, none, some, List, [], ◌∷◌, ltb, leb, length, arith,
}
use olivaw_hub.External.{Floats}
use olivaw_hub.Text.Signed.{pos}
use olivaw_hub.Config.{default_sim}
use olivaw_hub.Ingest.{CarEvent}
use olivaw_hub.Ingest.Serial.Toy.{framed, framed_floats, framed_proto, frames, laws}
use olivaw_hub.Ingest.Serial.Numbering.{scans_of}
use olivaw_hub.Sim.{RoomOps, path}
use olivaw_hub.Sim.Drive.{
  Firmware, Ended, round_of, steer, wrap, move, act, scanned, report, is_multiple_of, drive,
  at_start, ticking, pipeline_gone, spinning, Tick, rssi_dbm, run,
}
use olivaw_hub.Sim.Drive.Turns.{run-more}
use olivaw_hub.Sim.Drive.Sent.{Numbered, Lost, run-Numbered}

abbrev ops : RoomOps ℕ
ops = record {
  lt = ltb;
  le = leb;
  abs = λ a. a;
  sqrt = λ a. a;
  square = λ a. a * a;
  atan2 = λ a b. a;
  pi = 3;
  tau = 6;
}

abbrev firmware : Firmware framed
firmware = record { to_int = λ w a. pos a; sample = λ mv pct left right uptime rssi. mv }

rssi_wraps : rssi_dbm (pos 74) ≡ pos 127
unfolding rssi_dbm
rssi_wraps = refl

-- A number below zero is never met.
abbrev plane : Floats framed
plane = record framed_floats { f64 = record framed_floats.f64 { neg = λ a. 0 } }

abbrev ticks : List Tick
ticks =
    record { scan_clock = some 5; sample_clock = some 6 }
    ∷ record { scan_clock = some 7; sample_clock = none }
    ∷ []

run-Numbered_example :
    let (sent, end) =
      run plane ops frames firmware (default_sim plane) (λ err. err) (some 1) ticks 5 in
    Numbered framed_proto 2 0 (scans_of sent)
    × (((end ≡ ticking) × (length (scans_of sent) ≡ 2))
        ⊎ (((end ≡ pipeline_gone) × (length sent ≡ 5))
            ⊎ ((end ≡ spinning)
                × Lost plane ops framed_proto frames firmware laws
                    (default_sim plane)
                    (λ err. err)
                    (length (scans_of sent)))))
unfolding laws
run-Numbered_example =
    run-Numbered plane ops framed_proto frames firmware laws (default_sim plane) (λ err. err)
      (some 1) ticks 5

abbrev drove : (ℕ → ℕ) → List (CarEvent framed) × Ended
drove turns = run plane ops frames firmware (default_sim plane) turns (some 1) ticks 5

drove_ticks : (drove (λ err. err)).1 ≡ ticking
unfolding run drive at_start round_of steer wrap move act scanned report is_multiple_of path
    default_sim
drove_ticks = refl

run-more_example : drove (λ err. err + 1) ≡ drove (λ err. err)
run-more_example =
    run-more plane ops frames firmware (default_sim plane) (λ err. err) (λ err. err + 1) (some 1)
      ticks 5 (λ err. omega arith) (λ e. not_spinning (sym drove_ticks ∙ e))
  where
    not_spinning : ticking ≢ spinning
    not_spinning e = absurd (ground arith)

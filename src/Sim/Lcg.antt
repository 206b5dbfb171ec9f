-- ===== src/Sim/Lcg.antt =====
-- The generator of the noise.
use olivaw_hub.Prelude.{ℕ, zero, suc, ◌+◌, ◌-◌, ◌*◌, ◌/◌, ◌%◌, ◌^◌, ◌<◌, ◌≡◌, arith}
use olivaw_hub.External.{FloatOps}

-- The state of an `Lcg` after the next draw.
unfoldable pub advance : ℕ → ℕ
advance s = (s * 6364136223846793005 + 1442695040888963407) % 2 ^ 64

-- `self.0 >> 11`, of which `next_f64` makes a fraction of 2^53.
unfoldable pub upper_bits : ℕ → ℕ
upper_bits s = s / 2 ^ 11

module _ {A : Type 0} (f : FloatOps A) where
  unfoldable pub next_f64 : ℕ → ℕ × A
  unfolding advance upper_bits
  next_f64 s =
      let s' = advance s in
      (s', FloatOps.over f (FloatOps.of_int f (upper_bits s')) (FloatOps.of_int f (2 ^ 53)))

  -- The sum of `n` draws, added to `acc`.
  unfoldable pub sum_draws : ℕ → ℕ → A → ℕ × A
  unfolding next_f64
  sum_draws zero s acc = (s, acc)
  sum_draws (suc n) s acc =
      let drawn = next_f64 s in sum_draws n drawn.0 (FloatOps.plus f acc drawn.1)

  -- Roughly gaussian.
  unfoldable pub noise : ℕ → A → ℕ × A
  unfolding sum_draws
  noise s sigma =
      let (s', total) = sum_draws 6 s (FloatOps.lit f 0 0) in
      (
        s',
        FloatOps.over f (FloatOps.times f (FloatOps.minus f total (FloatOps.lit f 3 0)) sigma)
            (FloatOps.lit f 707 3),
      )

-- What undoes a draw.
unfoldable pub rewind : ℕ → ℕ
rewind s = ((s + (2 ^ 64 - 1442695040888963407)) * 13877824140714322085) % 2 ^ 64

-- A draw permutes the 64-bit states, so that no two states lead to the same one, and of each it
-- makes the numerator of a fraction below one.
pub advance-rewind :
    (s : ℕ)
    → s < 2 ^ 64
    → (advance s < 2 ^ 64)
      × (rewind (advance s) ≡ s)
      × (advance (rewind s) ≡ s)
      × (upper_bits (advance s) < 2 ^ 53)
unfolding advance rewind upper_bits
advance-rewind s h = (omega arith, omega arith, omega arith, omega arith)

-- ===== src/Slam/Worker/Decimate.antt =====
-- `decimate`: which points of a scan go to the dashboard, and how many.
use mathlib.Core.Option
use native.Mathlib.Nat.{lt-mul-div-succ, div-eq_of_lt-le}
use native.Mathlib.Decide.{dec_lt}
use olivaw_hub.Prelude.{
  ℕ, zero, suc, ◌+◌, ◌-◌, ◌*◌, ◌/◌, ◌≤◌, ◌<◌, max, ◌≡◌, refl, sym, ap, ◌∙◌, subst, List, [], ◌∷◌,
  map, arith, length, length-map, get_elem?,
}
use olivaw_hub.External.{Types, Floats, SlamLib}
use olivaw_hub.Slam.Worker.{step_by, decimate_step, to_world, decimate}

module _ {ℓ} {A : Type ℓ} where
  -- The number of elements kept is the quotient rounded up.
  length-step_by :
      (s k : ℕ) (xs : List A)
      → k ≤ s
      → (length xs ≤ k + length (step_by s k xs) * suc s)
        × (k + length (step_by s k xs) * suc s ≤ length xs + s)
  unfolding step_by
  length-step_by s k [] h = omega arith
  length-step_by s zero (x ∷ xs) h = omega (arith, length-step_by s s xs (omega arith))
  length-step_by s (suc k) (x ∷ xs) h = omega (arith, length-step_by s k xs (omega arith))

  get_elem?-step_by :
      (s k : ℕ) (xs : List A) (i : ℕ) → get_elem? (step_by s k xs) i ≡ get_elem? xs (k + i * suc s)
  unfolding step_by
  get_elem?-step_by s k [] i = refl
  get_elem?-step_by s zero (x ∷ xs) zero =
      let e : 0 ≡ 0 + 0 * suc s = omega arith in ap (get_elem? (x ∷ xs)) e
  get_elem?-step_by s zero (x ∷ xs) (suc i) =
      let e : suc (s + i * suc s) ≡ 0 + suc i * suc s = omega arith in
      get_elem?-step_by s s xs i ∙ ap (get_elem? (x ∷ xs)) e
  get_elem?-step_by s (suc k) (x ∷ xs) i =
      let e : suc (k + i * suc s) ≡ suc k + i * suc s = omega arith in
      get_elem?-step_by s k xs i ∙ ap (get_elem? (x ∷ xs)) e

  get_elem?-map {κ} :
      {B : Type κ} (f : A → B) (xs : List A) (i : ℕ)
      → get_elem? (map f xs) i ≡ Option.map f (get_elem? xs i)
  get_elem?-map f [] i = refl
  get_elem?-map f (x ∷ xs) zero = refl
  get_elem?-map f (x ∷ xs) (suc i) = get_elem?-map f xs i

mul_mono : (a b c : ℕ) → a ≤ b → a * c ≤ b * c
mul_mono a b c h = grind arith

-- With `m` for the limit and `q` for n / m: a step of `q`, or 1 if that is 0, leaves fewer than 2 m
-- of the n points.
kept_below :
    (n m q kept : ℕ) → 1 ≤ m → n < m * (q + 1) → kept * max q 1 < n + max q 1 → kept < 2 * m
kept_below n m zero kept pos l h = omega arith
kept_below n m (suc r) kept pos l h = elim (dec_lt kept (2 * m)) [
  | yes few ↦ few
  | no many ↦
      let big : 2 * m * suc r ≤ kept * suc r = mul_mono (2 * m) kept (suc r) (omega arith) in
      let some_each : 1 * r ≤ m * r = mul_mono 1 m r pos in
      let one : max (suc r) 1 ≡ suc r = omega arith in
      let h' : kept * suc r < n + suc r = subst (λ k. kept * k < n + k) one h in
      absurd (omega arith)
]

step_one : (n m : ℕ) → m < n → n < 2 * m → decimate_step n m ≡ 1
unfolding decimate_step
step_one n m h k =
    let e : max m 1 ≡ m = omega arith in
    let one : n / m ≡ 1 = div-eq_of_lt-le m (omega arith) (omega arith) in rw (e, one)

module _ {t : Types} (floats : Floats t) (lib : SlamLib t) where
  -- The points kept are those at the multiples of the step, moved to the map frame. Their number is
  -- the number of points over the step, rounded up, and below twice the limit (or 1, if that is 0).
  pub decimate-spaced :
      (points : List t.Point2) (pose : t.Pose2) (limit : ℕ)
      → let step = decimate_step (length points) limit in
        let kept = decimate floats lib points pose limit in
        ((i : ℕ)
          → get_elem? kept i ≡ Option.map (to_world floats lib pose) (get_elem? points (i * step)))
        × (length points ≤ length kept * step)
        × (length kept * step < length points + step)
        × (length kept < 2 * max limit 1)
  unfolding decimate
  decimate-spaced points pose limit =
      let n = length points in
      let m = max limit 1 in
      let step = max (n / m) 1 in
      let s = step - 1 in
      let world = to_world floats lib pose in
      let picked = step_by s 0 points in
      let suc_s : suc s ≡ step = omega arith in
      let same : length (map world picked) ≡ length picked = length-map picked world in
      let (lo, hi) = length-step_by s 0 points (omega arith) in
      let up : length picked * suc s ≡ length (map world picked) * step =
        ap (λ k. length picked * k) suc_s ∙ ap (λ k. k * step) (sym same) in
      let above : n ≤ length (map world picked) * step = omega arith in
      let below : length (map world picked) * step < n + step = omega arith in
      (
        λ i.
            get_elem?-map world picked i
            ∙ ap (Option.map world)
                (get_elem?-step_by s 0 points i ∙ ap (get_elem? points) (at i s step suc_s)),
        above,
        below,
        kept_below n m (n / m) (length (map world picked)) (omega arith)
            (lt-mul-div-succ n (omega arith)) below,
      )
    where
      at : (i s step : ℕ) → suc s ≡ step → 0 + i * suc s ≡ i * step
      at i s step e = rw e (omega arith)

  -- The limit is no limit for fewer than twice as many points: all of them are kept.
  pub decimate_exceeds :
      (points : List t.Point2) (pose : t.Pose2) (limit : ℕ)
      → limit < length points
      → length points < 2 * limit
      → length (decimate floats lib points pose limit) ≡ length points
  decimate_exceeds points pose limit h k =
      let (_, above, below, _) = decimate-spaced points pose limit in
      let step : decimate_step (length points) limit ≡ 1 = step_one (length points) limit h k in
      omega (arith, ap (λ x. length (decimate floats lib points pose limit) * x) step)

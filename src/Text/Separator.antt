-- ===== src/Text/Separator.antt =====
-- Numbers in decimal notation with a separator behind them.
use olivaw_hub.Prelude.{
  ℕ, zero, suc, ◌+◌, ◌/◌, ◌%◌, ◌<◌, ◌≡◌, ◌≢◌, refl, [], ◌∷◌, ◌++◌, arith, ltb, ltb→lt, Bool-cases,
  inl, inr,
}
use olivaw_hub.Text.{Text}
use olivaw_hub.Text.Decimal.{digits}

-- No byte of the text is `c`.
abbrev pub Without : ℕ → Text → Type 0
Without c [] = Unit {0}
Without c (x ∷ s) = (x ≢ c) × Without c s

Without-append : (c : ℕ) (s t : Text) → Without c s → Without c t → Without c (s ++ t)
Without-append c [] t v w = w
Without-append c (x ∷ s) t v w = (v.0, Without-append c s t v.1 w)

abbrev pub NotDigit : ℕ → Type 0
NotDigit c = (d : ℕ) → d < 10 → b'0' + d ≢ c

pub digits-Without : (c f n : ℕ) → NotDigit c → Without c (digits f n)
unfolding digits
digits-Without c zero n h = tt
digits-Without c (suc f) n h = elim (Bool-cases (ltb n 10)) [
  | inl small ↦ rw small ((λ e. h n (ltb→lt n 10 small) e), tt)
  | inr big ↦ rw big (
      Without-append c (digits f (n / 10)) ((b'0' + n % 10) ∷ []) (digits-Without c f (n / 10) h)
        ((λ e. h (n % 10) (omega arith) e), tt))
]

-- The text before the first separator, and the text behind it.
pub separate :
    (c : ℕ) (s s' t t' : Text)
    → Without c s
    → Without c s'
    → s ++ (c ∷ t) ≡ s' ++ (c ∷ t')
    → (s ≡ s') × (t ≡ t')
separate c [] [] t t' v w h = (refl, ground arith)
separate c [] (y ∷ s') t t' v w h = absurd (w.0 (ground arith))
separate c (x ∷ s) [] t t' v w h = absurd (v.0 (ground arith))
separate c (x ∷ s) (y ∷ s') t t' v w h =
    let first : x ≡ y = ground arith in
    let (same, rest) = separate c s s' t t' v.1 w.1 (ground arith) in
    ((λ i. first i ∷ same i), rest)

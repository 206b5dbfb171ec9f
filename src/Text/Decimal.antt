-- ===== src/Text/Decimal.antt =====
-- The decimal notation of an unsigned integer, as `format!("{}")` writes it.
use mathlib.Core.List.{foldl-append}
use olivaw_hub.Prelude.{
  ℕ, zero, suc, ◌+◌, ◌-◌, ◌*◌, ◌/◌, ◌%◌, ◌<◌, ◌≡◌, refl, sym, ap, ◌∙◌, [], ◌∷◌, ◌++◌, foldl, arith,
  ltb, if◌then◌else◌, Bool-cases, inl, inr, ltb→ge,
}
use olivaw_hub.Text.{Text, codes}

-- The fuel bounds the number of digits; `suc n` is more than enough for `n`.
unfoldable pub digits : ℕ → ℕ → Text
digits zero n = []
digits (suc f) n =
    let rest = digits f (n / 10) in
    if ltb n 10 then (b'0' + n) ∷ [] else rest ++ (b'0' + n % 10) ∷ []

unfoldable pub decimal : ℕ → Text
unfolding digits
decimal n = digits (suc n) n

-- The number that a run of digits stands for.
abbrev pub value_of : Text → ℕ
value_of = foldl (λ n c. n * 10 + (c - b'0')) 0

value_of-digits : (f n : ℕ) → n < f → value_of (digits f n) ≡ n
unfolding digits
value_of-digits zero n h = absurd (omega arith)
value_of-digits (suc f) n h = elim (Bool-cases (ltb n 10)) [
  | inl small ↦ rw small (omega arith)
  | inr big ↦
      rw (big, foldl-append)
        (rw (value_of-digits f (n / 10) (omega (arith, ltb→ge n 10 big))) (omega arith))
]

-- The notation determines the number.
pub value_of-decimal : (n : ℕ) → value_of (decimal n) ≡ n
unfolding decimal
value_of-decimal n = value_of-digits (suc n) n (omega arith)

pub decimal_inj : (m n : ℕ) → decimal m ≡ decimal n → m ≡ n
decimal_inj m n e = sym (value_of-decimal m) ∙ ap value_of e ∙ value_of-decimal n

decimal_runs : decimal 65536 ≡ codes "65536"
unfolding decimal
decimal_runs = refl

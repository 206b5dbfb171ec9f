-- ===== src/Text/Signed.antt =====
-- The decimal notation of a signed integer, and that a separator tells two of them apart.
use olivaw_hub.Prelude.{ℕ, suc, ◌<◌, ◌≡◌, ◌≢◌, refl, sym, subst, ap, [], ◌∷◌, ◌++◌, arith}
use olivaw_hub.Text.{Text}
use olivaw_hub.Text.Separator.{Without, digits-Without, separate}
use olivaw_hub.Text.Decimal.{decimal, decimal_inj}

-- `negsuc n` is the number -(n + 1).
pub data ℤ : Type 0 where
  pos negsuc : ℕ → ℤ

unfoldable pub signed : ℤ → Text
signed (pos n) = decimal n
signed (negsuc n) = b'-' ∷ decimal (suc n)

signed-Without : (c : ℕ) (x : ℤ) → c < b'0' → c ≢ b'-' → Without c (signed x)
unfolding signed decimal
signed-Without c (pos n) h k = digits-Without c (suc n) n (λ d l e. absurd (omega arith))
signed-Without c (negsuc n) h k =
    ((λ e. k (sym e)), digits-Without c (suc (suc n)) (suc n) (λ d l e. absurd (omega arith)))

no_minus : (m : ℕ) (s : Text) → decimal m ≢ b'-' ∷ s
unfolding decimal
no_minus m s h =
    (subst (Without b'-') h (digits-Without b'-' (suc m) m (λ d l e. absurd (omega arith)))).0 refl

signed_inj : (x y : ℤ) → signed x ≡ signed y → x ≡ y
unfolding signed
signed_inj (pos m) (pos n) h = ap pos (decimal_inj m n h)
signed_inj (pos m) (negsuc n) h = absurd (no_minus m (decimal (suc n)) h)
signed_inj (negsuc m) (pos n) h = absurd (no_minus n (decimal (suc m)) (sym h))
signed_inj (negsuc m) (negsuc n) h =
    let behind : decimal (suc m) ≡ decimal (suc n) = ground arith in
    let same = decimal_inj (suc m) (suc n) behind in ap negsuc (omega arith)

-- Two numbers behind each other, each with a separator behind it, are told apart.
pub separated_inj :
    (c d : ℕ) (a b x y : ℤ)
    → c < b'-'
    → d < b'-'
    → signed a ++ (c ∷ signed b ++ (d ∷ [])) ≡ signed x ++ (c ∷ signed y ++ (d ∷ []))
    → (a ≡ x) × (b ≡ y)
separated_inj c d a b x y l k h =
    let (one, rest) =
      separate c (signed a) (signed x) (signed b ++ (d ∷ [])) (signed y ++ (d ∷ []))
        (signed-Without c a (omega arith) (λ e. absurd (omega arith)))
        (signed-Without c x (omega arith) (λ e. absurd (omega arith))) h in
    let (two, _) =
      separate d (signed b) (signed y) [] []
        (signed-Without d b (omega arith) (λ e. absurd (omega arith)))
        (signed-Without d y (omega arith) (λ e. absurd (omega arith))) rest in
    (signed_inj a x one, signed_inj b y two)

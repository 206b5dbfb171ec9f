-- ===== src/Prelude/Sub.antt =====
-- Lists with some elements left out.
use olivaw_hub.Prelude.{List, [], ◌∷◌, ◌++◌}

-- `xs` is `ys` with some elements left out.
pub data Sub {ℓ} {A : Type ℓ} : List A → List A → Type ℓ where
  done : Sub [] []
  skip : {xs ys : List A} (y : A) → Sub xs ys → Sub xs (y ∷ ys)
  keep : {xs ys : List A} (y : A) → Sub xs ys → Sub (y ∷ xs) (y ∷ ys)

module _ {ℓ} {A : Type ℓ} where
  pub Sub-nil : (ys : List A) → Sub [] ys
  Sub-nil [] = done
  Sub-nil (y ∷ ys) = skip y (Sub-nil ys)

  pub Sub-skip_last : (z : A) {xs ys : List A} → Sub xs ys → Sub xs (ys ++ z ∷ [])
  Sub-skip_last z done = skip z done
  Sub-skip_last z (skip y s) = skip y (Sub-skip_last z s)
  Sub-skip_last z (keep y s) = keep y (Sub-skip_last z s)

  pub Sub-keep_last : (z : A) {xs ys : List A} → Sub xs ys → Sub (xs ++ z ∷ []) (ys ++ z ∷ [])
  Sub-keep_last z done = keep z done
  Sub-keep_last z (skip y s) = skip y (Sub-keep_last z s)
  Sub-keep_last z (keep y s) = keep y (Sub-keep_last z s)

  -- Elements are left out of a list that is such a selection already.
  pub Sub-within : {ys zs : List A} → Sub ys zs → {xs : List A} → Sub xs ys → Sub xs zs
  Sub-within done a = a
  Sub-within (skip z b) a = skip z (Sub-within b a)
  Sub-within (keep y b) (skip _ a) = skip y (Sub-within b a)
  Sub-within (keep y b) (keep _ a) = keep y (Sub-within b a)

  pub Sub-self : (xs : List A) → Sub xs xs
  Sub-self [] = done
  Sub-self (x ∷ xs) = keep x (Sub-self xs)

  -- A first part is left of a list.
  pub Sub-first : (xs ys : List A) → Sub xs (xs ++ ys)
  Sub-first [] ys = Sub-nil ys
  Sub-first (x ∷ xs) ys = keep x (Sub-first xs ys)

  -- One element in the middle is left out.
  pub Sub-middle : (xs : List A) (y : A) (ys : List A) → Sub (xs ++ ys) (xs ++ y ∷ ys)
  Sub-middle [] y ys = skip y (Sub-self ys)
  Sub-middle (x ∷ xs) y ys = keep x (Sub-middle xs y ys)

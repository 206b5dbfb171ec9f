-- ===== src/State/Cars.antt =====
-- `update_car`: one car's snapshot changes, and the map of cars stays well-formed.
use olivaw_hub.Prelude.{
  ◌≡◌, refl, ◌∙◌, inl, inr, none, some, [], ◌∷◌, arith, if◌then◌else◌, Bool-cases, Option-cases,
}
use olivaw_hub.Text.{Text, text_eq, text_eq_iff}
use olivaw_hub.Dict.{Dict, get, insert, entry_or, get-insert}
use olivaw_hub.External.{Types, Floats}
use olivaw_hub.State.{CarSnapshot, Hub, fresh, car_or_new, update_car}

module _ {t : Types} where
  -- A key occurs once, and each snapshot carries its own key.
  abbrev pub IsKeyed : Dict (CarSnapshot t) → Type 0
  IsKeyed [] = Unit {0}
  IsKeyed ((k, c) ∷ m) = (c.id ≡ k) × (get k m ≡ none) × IsKeyed m

  pub insert-IsKeyed :
      (k : Text) (c : CarSnapshot t) (m : Dict (CarSnapshot t))
      → c.id ≡ k
      → IsKeyed m
      → IsKeyed (insert k c m)
  unfolding insert get
  insert-IsKeyed k c [] h v = (h, refl, tt)
  insert-IsKeyed k c ((j, d) ∷ m) h v =
      let other = get-insert k j c m in
      elim (Bool-cases (text_eq j k)) [
        | inl e ↦ rw e (ground (arith, text_eq_iff j k), v.1, v.2)
        | inr ne ↦ rw ne (
          v.0,
          ground (arith, other, text_eq_iff j k, text_eq_iff k j),
          insert-IsKeyed k c m h v.2,
        )
      ]

  get-id :
      (k : Text) (c : CarSnapshot t) (m : Dict (CarSnapshot t))
      → IsKeyed m
      → get k m ≡ some c
      → c.id ≡ k
  unfolding get
  get-id k c [] v h = ground arith
  get-id k c ((j, d) ∷ m) v h = ground (arith, text_eq_iff j k, get-id k c m v.2)

  -- The map of the hub's cars is well-formed.
  abbrev pub IsWellFormed : Hub t → Type 0
  IsWellFormed hub = IsKeyed hub.cars

  pub id-car_or_new :
      (floats : Floats t) (hub : Hub t) (id : Text)
      → IsWellFormed hub
      → (car_or_new floats hub id).id ≡ id
  unfolding car_or_new entry_or fresh
  id-car_or_new floats hub id v = elim (Option-cases (get id hub.cars)) [
    | inl new ↦ ground arith
    | inr (c, old) ↦ ground (arith, get-id id c hub.cars v old)
  ]

  pub update_car-IsWellFormed :
      (floats : Floats t) (hub : Hub t) (id : Text) (f : CarSnapshot t → CarSnapshot t)
      → ((c : CarSnapshot t) → (f c).id ≡ c.id)
      → IsWellFormed hub
      → IsWellFormed (update_car floats hub id f)
  unfolding update_car
  update_car-IsWellFormed floats hub id f keeps v =
      insert-IsKeyed id (f (car_or_new floats hub id)) hub.cars
        (keeps (car_or_new floats hub id) ∙ id-car_or_new floats hub id v) v

  -- What `cars.get` finds after an update.
  pub get-update_car :
      (floats : Floats t) (hub : Hub t) (id j : Text) (f : CarSnapshot t → CarSnapshot t)
      → get j (update_car floats hub id f).cars
        ≡ (if text_eq id j then some (f (car_or_new floats hub id)) else get j hub.cars)
  unfolding update_car
  get-update_car floats hub id j f = get-insert id j (f (car_or_new floats hub id)) hub.cars

  -- An update of a car that was updated before sees the first update.
  pub car_or_new-update_car :
      (floats : Floats t) (hub : Hub t) (id j : Text) (f : CarSnapshot t → CarSnapshot t)
      → car_or_new floats (update_car floats hub id f) j
        ≡ (if text_eq id j then f (car_or_new floats hub id) else car_or_new floats hub j)
  unfolding car_or_new entry_or
  car_or_new-update_car floats hub id j f = ground (arith, get-update_car floats hub id j f)

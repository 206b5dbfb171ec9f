-- ===== src/State/Tests.antt =====
-- Hubs with two cars, entered in two orders.
use olivaw_hub.Prelude.{ℕ, ◌≡◌, refl, subst, inl, inr, false, Bool-cases, []}
use olivaw_hub.Text.{Text, codes, text_eq, text_eq_iff}
use olivaw_hub.Dict.{get, insert, entry_or}
use olivaw_hub.External.Toy.{toy, toy_floats}
use olivaw_hub.Config.{default_config}
use olivaw_hub.State.{Hub, CarSnapshot, fresh, new, car_or_new, update_car, snapshots}
use olivaw_hub.State.Cars.{IsWellFormed, update_car-IsWellFormed}
use olivaw_hub.State.Snapshots.{snapshots-eq}

abbrev empty : Hub toy
empty = new (default_config toy_floats) (record { client = [] })

empty-IsWellFormed : IsWellFormed empty
unfolding new
empty-IsWellFormed = tt

abbrev seen : ℕ → CarSnapshot toy → CarSnapshot toy
seen n c = record c { last_seen_ms = n }

abbrev two : Text → Text → Hub toy
two a b = update_car toy_floats (update_car toy_floats empty a (seen 7)) b (seen 7)

two-IsWellFormed : (a b : Text) → IsWellFormed (two a b)
two-IsWellFormed a b =
    update_car-IsWellFormed toy_floats (update_car toy_floats empty a (seen 7)) b (seen 7)
      (λ c. refl)
      (update_car-IsWellFormed toy_floats empty a (seen 7) (λ c. refl) empty-IsWellFormed)

-- Both orders hold the same.
two_alike :
    (k : Text) → get k (two (codes "b") (codes "a")).cars ≡ get k (two (codes "a") (codes "b")).cars
unfolding update_car insert get car_or_new entry_or fresh new text_eq
two_alike k = elim (Bool-cases (text_eq (codes "a") k)) [
  | inl a ↦
      let not_b : text_eq (codes "b") k ≡ false =
        subst (λ x. text_eq (codes "b") x ≡ false) ((text_eq_iff (codes "a") k).0 a) refl in
      rw (a, not_b) refl
  | inr a ↦ rw a refl
]

snapshots-eq_example :
    snapshots (two (codes "b") (codes "a")) ≡ snapshots (two (codes "a") (codes "b"))
snapshots-eq_example =
    snapshots-eq (two (codes "b") (codes "a")) (two (codes "a") (codes "b"))
      (two-IsWellFormed (codes "b") (codes "a")) (two-IsWellFormed (codes "a") (codes "b"))
      two_alike

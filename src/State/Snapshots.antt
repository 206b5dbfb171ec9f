-- ===== src/State/Snapshots.antt =====
-- `snapshots`: a view of the map of cars that does not depend on the order of its entries.
use olivaw_hub.Prelude.{
  ◌≡◌, ◌≢◌, refl, sym, ap, ◌∙◌, subst, inl, inr, true, Option, none, some, List, [], ◌∷◌, arith,
  if◌then◌else◌, Bool-cases, Option-cases,
}
use olivaw_hub.Text.{Text, text_eq, text_eq_iff, text_eq_refl}
use olivaw_hub.Text.Order.{text_le, text_le_total, text_le_trans, text_le_antisymm}
use olivaw_hub.Dict.{Dict, get}
use olivaw_hub.External.{Types}
use olivaw_hub.State.{CarSnapshot, Hub, insert_sorted, sort_cars, snapshots}
use olivaw_hub.State.Cars.{IsKeyed, IsWellFormed}

module _ {t : Types} where
  pub find : Text → List (CarSnapshot t) → Option (CarSnapshot t)
  find k [] = none
  find k (c ∷ l) = if text_eq c.id k then some c else find k l

  -- Each id of the list stands behind `id`.
  abbrev pub AllBehind : Text → List (CarSnapshot t) → Type 0
  AllBehind id [] = Unit {0}
  AllBehind id (c ∷ l) = (text_le id c.id ≡ true) × (id ≢ c.id) × AllBehind id l

  -- The ids go up along the list, with no id twice.
  abbrev pub IsAscending : List (CarSnapshot t) → Type 0
  IsAscending [] = Unit {0}
  IsAscending (c ∷ l) = AllBehind c.id l × IsAscending l

  find-insert_sorted :
      (k : Text) (c : CarSnapshot t) (l : List (CarSnapshot t))
      → find c.id l ≡ none
      → find k (insert_sorted c l) ≡ (if text_eq c.id k then some c else find k l)
  unfolding find insert_sorted
  find-insert_sorted k c [] h = refl
  find-insert_sorted k c (d ∷ l) h = ground (
    arith,
    find-insert_sorted k c l,
    text_eq_iff c.id k,
    text_eq_iff d.id k,
    text_eq_iff d.id c.id,
  )

  find-sort_cars :
      (k : Text) (m : Dict (CarSnapshot t)) → IsKeyed m → find k (sort_cars m) ≡ get k m
  unfolding find get sort_cars
  find-sort_cars k [] v = refl
  find-sort_cars k ((j, c) ∷ m) v =
      let missing = find-sort_cars c.id m v.2 ∙ ap (λ i. get i m) v.0 ∙ v.1 in
      let rest = find-sort_cars k m v.2 in
      find-insert_sorted k c (sort_cars m) missing ∙ ground (arith, rest)

  AllBehind-insert_sorted :
      (id : Text) (c : CarSnapshot t) (l : List (CarSnapshot t))
      → text_le id c.id ≡ true
      → id ≢ c.id
      → AllBehind id l
      → AllBehind id (insert_sorted c l)
  unfolding insert_sorted
  AllBehind-insert_sorted id c [] h n a = (h, n, tt)
  AllBehind-insert_sorted id c (d ∷ l) h n a = elim (Bool-cases (text_le c.id d.id)) [
    | inl e ↦ rw e (h, n, a)
    | inr e ↦ rw e (a.0, a.1, AllBehind-insert_sorted id c l h n a.2)
  ]

  AllBehind-trans :
      (a b : Text) (l : List (CarSnapshot t))
      → text_le a b ≡ true
      → a ≢ b
      → AllBehind b l
      → AllBehind a l
  AllBehind-trans a b [] h n all = tt
  AllBehind-trans a b (c ∷ l) h n all = (
    text_le_trans a b c.id h all.0,
    λ e. n (text_le_antisymm a b h (subst (λ x. text_le b x ≡ true) (sym e) all.0)),
    AllBehind-trans a b l h n all.2,
  )

  find-cons_none :
      (k : Text) (c : CarSnapshot t) (l : List (CarSnapshot t))
      → find k (c ∷ l) ≡ none
      → (c.id ≢ k) × (find k l ≡ none)
  unfolding find
  find-cons_none k c l h =
      (λ e. ground (arith, text_eq_iff c.id k), ground (arith, text_eq_iff c.id k))

  insert_sorted-IsAscending :
      (c : CarSnapshot t) (l : List (CarSnapshot t))
      → find c.id l ≡ none
      → IsAscending l
      → IsAscending (insert_sorted c l)
  unfolding find insert_sorted
  insert_sorted-IsAscending c [] h s = (tt, tt)
  insert_sorted-IsAscending c (d ∷ l) h s =
      let (ne, missing) = find-cons_none c.id d l h in
      let ne' : c.id ≢ d.id = λ e. ne (sym e) in
      elim (Bool-cases (text_le c.id d.id)) [
        | inl e ↦ rw e ((e, ne', AllBehind-trans c.id d.id l e ne' s.0), s)
        | inr e ↦
            let le : text_le d.id c.id ≡ true = ground (arith, text_le_total c.id d.id) in
            rw e (
              AllBehind-insert_sorted d.id c l le ne s.0,
              insert_sorted-IsAscending c l missing s.1,
            )
      ]

  sort_cars-IsAscending : (m : Dict (CarSnapshot t)) → IsKeyed m → IsAscending (sort_cars m)
  unfolding sort_cars
  sort_cars-IsAscending [] v = tt
  sort_cars-IsAscending ((j, c) ∷ m) v =
      insert_sorted-IsAscending c (sort_cars m)
        (find-sort_cars c.id m v.2 ∙ ap (λ i. get i m) v.0 ∙ v.1) (sort_cars-IsAscending m v.2)

  -- What is found in a list behind `id` has an id behind it.
  AllBehind-find :
      (id k : Text) (c : CarSnapshot t) (l : List (CarSnapshot t))
      → AllBehind id l
      → find k l ≡ some c
      → (text_le id k ≡ true) × (id ≢ k)
  unfolding find
  AllBehind-find id k c [] all h = absurd (ground arith)
  AllBehind-find id k c (d ∷ l) all h = elim (Bool-cases (text_eq d.id k)) [
    | inl e ↦
        let same = (text_eq_iff d.id k).0 e in
        (subst (λ x. text_le id x ≡ true) same all.0, subst (λ x. id ≢ x) same all.1)
    | inr e ↦ AllBehind-find id k c l all.2 (rw e at h)
  ]

  AllBehind-find-none : (id : Text) (l : List (CarSnapshot t)) → AllBehind id l → find id l ≡ none
  AllBehind-find-none id l all = elim (Option-cases (find id l)) [
    | inl e ↦ e
    | inr (c, e) ↦ absurd ((AllBehind-find id id c l all e).1 refl)
  ]

  -- Two ascending lists in which the same is found begin with the same snapshot.
  heads_eq :
      (c d : CarSnapshot t) (l m : List (CarSnapshot t))
      → IsAscending (c ∷ l)
      → IsAscending (d ∷ m)
      → ((k : Text) → find k (c ∷ l) ≡ find k (d ∷ m))
      → c ≡ d
  unfolding find
  heads_eq c d l m s r same = elim (Bool-cases (text_eq d.id c.id)) [
    | inl e ↦ ground (arith, same c.id, text_eq_refl c.id)
    | inr e ↦
        let found : find c.id m ≡ some c = ground (arith, same c.id, text_eq_refl c.id) in
        let back : find d.id l ≡ some d =
          ground
            (arith, same d.id, text_eq_refl d.id, text_eq_iff d.id c.id, text_eq_iff c.id d.id) in
        let lt = AllBehind-find d.id c.id c m r.0 found in
        let gt = AllBehind-find c.id d.id d l s.0 back in
        absurd (gt.1 (text_le_antisymm c.id d.id gt.0 lt.0))
  ]

  tails_eq :
      (c : CarSnapshot t) (l m : List (CarSnapshot t))
      → AllBehind c.id l
      → AllBehind c.id m
      → ((k : Text) → find k (c ∷ l) ≡ find k (c ∷ m))
      → (k : Text) → find k l ≡ find k m
  unfolding find
  tails_eq c l m s r same k = elim (Bool-cases (text_eq c.id k)) [
    | inl e ↦
        let here = (text_eq_iff c.id k).0 e in
        let both = AllBehind-find-none c.id l s ∙ sym (AllBehind-find-none c.id m r) in
        subst (λ x. find x l ≡ find x m) here both
    | inr e ↦ ground (arith, same k)
  ]

  IsAscending-eq :
      (l m : List (CarSnapshot t))
      → IsAscending l
      → IsAscending m
      → ((k : Text) → find k l ≡ find k m)
      → l ≡ m
  unfolding find
  IsAscending-eq [] [] s r same = refl
  IsAscending-eq [] (d ∷ m) s r same = ground (arith, same d.id, text_eq_refl d.id)
  IsAscending-eq (c ∷ l) [] s r same = ground (arith, same c.id, text_eq_refl c.id)
  IsAscending-eq (c ∷ l) (d ∷ m) s r same =
      let first = heads_eq c d l m s r same in
      let behind = subst (λ x. AllBehind x.id m) (sym first) r.0 in
      let alike : (k : Text) → find k (c ∷ l) ≡ find k (c ∷ m) =
        λ k. same k ∙ ap (λ x. find k (x ∷ m)) (sym first) in
      let rest = IsAscending-eq l m s.1 r.1 (tails_eq c l m s.0 behind alike) in
      λ i. first i ∷ rest i

  -- What the API lists is ascending by id with no id twice, and holds exactly the cars that the map
  -- holds: what is found under an id is what the map has there.
  pub snapshots-find :
      (hub : Hub t)
      → IsWellFormed hub
      → IsAscending (snapshots hub) × ((k : Text) → find k (snapshots hub) ≡ get k hub.cars)
  unfolding snapshots
  snapshots-find hub v = (sort_cars-IsAscending hub.cars v, λ k. find-sort_cars k hub.cars v)

  -- Two hubs that know the same cars list them alike, in whatever order their maps are iterated.
  pub snapshots-eq :
      (a b : Hub t)
      → IsWellFormed a
      → IsWellFormed b
      → ((k : Text) → get k a.cars ≡ get k b.cars)
      → snapshots a ≡ snapshots b
  snapshots-eq a b v w same =
      let x = snapshots-find a v in
      let y = snapshots-find b w in
      IsAscending-eq (snapshots a) (snapshots b) x.0 y.0 (λ k. x.1 k ∙ same k ∙ sym (y.1 k))

-- ===== src/Start/Order.antt =====
-- What runs once `main` is through, and once it has failed.
use olivaw_hub.Prelude.{
  ◌≡◌, refl, ◌∙◌, ◌↔◌, Bool, true, false, ◌||◌, Option, none, some, List, [], ◌∷◌, ◌++◌, arith,
}
use olivaw_hub.External.{Types}
use olivaw_hub.Start.{Task, server, Stage, ok, err, Starting, ◌>>=◌, ◌>>◌, launch, require, check}

module _ {t : Types} where
  -- A task that answers requests.
  abbrev pub is_server : Task t → Bool
  is_server (server hub) = true
  is_server _ = false

  abbrev pub any : (Task t → Bool) → List (Task t) → Bool
  any p [] = false
  any p (x ∷ xs) = p x || any p xs

  any-append :
      (p : Task t → Bool) (xs ys : List (Task t)) → any p (xs ++ ys) ≡ (any p xs || any p ys)
  any-append p [] ys = refl
  any-append p (x ∷ xs) ys = ground (arith, any-append p xs ys)

  -- No such task is started, whatever comes of it.
  abbrev pub Never : {A : Type 0} → (Task t → Bool) → Starting t A → Type 0
  Never p m = any p m.0 ≡ false

  pub bind-Never :
      {A B : Type 0} (p : Task t → Bool) (m : Starting t A) (f : A → Starting t B)
      → Never p m
      → ((a : A) → Never p (f a))
      → Never p (m >>= f)
  bind-Never p (tasks, ok a) f h k = any-append p tasks (f a).0 ∙ ground (arith, k a)
  bind-Never p (tasks, err e) f h k = h

  -- Such a task is started exactly where all goes well.
  abbrev pub Iff : {A : Type 0} → (Task t → Bool) → Starting t A → Type 0
  Iff {A} p m = (any p m.0 ≡ true) ↔ ((a : A) × (m.1 ≡ ok a))

  pub bind-Iff :
      {A B : Type 0} (p : Task t → Bool) (m : Starting t A) (f : A → Starting t B)
      → Never p m
      → ((a : A) → Iff p (f a))
      → Iff p (m >>= f)
  bind-Iff p (tasks, ok a) f h k =
      let both = any-append p tasks (f a).0 in
      (λ yes_it. (k a).0 (ground arith), λ goes. let there = (k a).1 goes in ground arith)
  bind-Iff p (tasks, err e) f h k =
      (λ there. absurd (ground arith), λ (b, goes). absurd (ground arith))

  -- If all goes well, then such a task is started exactly if `b`.
  abbrev pub Has : {A : Type 0} → (Task t → Bool) → Bool → Starting t A → Type 0
  Has {A} p b m = (a : A) → m.1 ≡ ok a → any p m.0 ≡ b

  pub bind-Has :
      {A B : Type 0} (p : Task t → Bool) (b c : Bool) (m : Starting t A) (f : A → Starting t B)
      → Has p b m
      → ((a : A) → Has p c (f a))
      → Has p (b || c) (m >>= f)
  bind-Has p b c (tasks, ok a) f h k y goes =
      let both = any-append p tasks (f a).0 in
      let front = h a refl in let back = k a y goes in ground arith
  bind-Has p b c (tasks, err e) f h k y goes = absurd (ground arith)

  pub launch-Never : (p : Task t → Bool) (task : Task t) → p task ≡ false → Never p (launch task)
  launch-Never p task h = ground arith

  pub check-Never : (p : Task t → Bool) (e : Stage) (b : Bool) → Never p (check e b)
  check-Never p e true = refl
  check-Never p e false = refl

  pub require-Never :
      {A : Type 0} (p : Task t → Bool) (e : Stage) (o : Option A) → Never p (require e o)
  require-Never p e none = refl
  require-Never p e (some a) = refl

  -- A checked launch of another task.
  pub guarded-Never :
      (p : Task t → Bool) (e : Stage) (b : Bool) (task : Task t)
      → p task ≡ false
      → Never p (check e b >> launch task)
  guarded-Never p e true task h = launch-Never p task h
  guarded-Never p e false task h = refl

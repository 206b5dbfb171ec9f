-- ===== src/Viz/Viewed.antt =====
-- What a viewer shows of a list of outputs, and how it goes on.
use olivaw_hub.Prelude.{ℕ, ◌+◌, ◌%◌, ◌^◌, ◌≡◌, refl, sym, ap, ◌∙◌, List, [], ◌∷◌, ◌++◌}
use olivaw_hub.Text.{Text, codes}
use olivaw_hub.External.{Types, FloatOps, Floats}
use olivaw_hub.Slam.Worker.{SlamOutput, tracked, map_output, Thread}
use olivaw_hub.Viz.{Call, set_time_sequence, log_points, log_strip, log_grid}

-- The number of scans that were placed, and the points of their poses.
abbrev pub Path2 : Types → Type 0
Path2 t = ℕ × List (t.F32 × t.F32)

module _ {t : Types} where
  -- The calls but those for maps.
  abbrev pub scans_only : List (Call t) → List (Call t)
  scans_only [] = []
  scans_only (set_time_sequence line n ∷ l) = set_time_sequence line n ∷ scans_only l
  scans_only (log_points path ps colour r ∷ l) = log_points path ps colour r ∷ scans_only l
  scans_only (log_strip path ps colour ∷ l) = log_strip path ps colour ∷ scans_only l
  scans_only (log_grid path grid ∷ l) = scans_only l

  scans_only-append : (a b : List (Call t)) → scans_only (a ++ b) ≡ scans_only a ++ scans_only b
  scans_only-append [] b = refl
  scans_only-append (set_time_sequence line n ∷ a) b =
      ap (◌∷◌ (set_time_sequence line n)) (scans_only-append a b)
  scans_only-append (log_points path ps colour r ∷ a) b =
      ap (◌∷◌ (log_points path ps colour r)) (scans_only-append a b)
  scans_only-append (log_strip path ps colour ∷ a) b =
      ap (◌∷◌ (log_strip path ps colour)) (scans_only-append a b)
  scans_only-append (log_grid path grid ∷ a) b = scans_only-append a b

  -- Where maps are shown.
  abbrev pub maps_shown : List (Call t) → List Text
  maps_shown [] = []
  maps_shown (set_time_sequence _ _ ∷ l) = maps_shown l
  maps_shown (log_points _ _ _ _ ∷ l) = maps_shown l
  maps_shown (log_strip _ _ _ ∷ l) = maps_shown l
  maps_shown (log_grid path _ ∷ l) = path ∷ maps_shown l

  maps_shown-append : (a b : List (Call t)) → maps_shown (a ++ b) ≡ maps_shown a ++ maps_shown b
  maps_shown-append [] b = refl
  maps_shown-append (set_time_sequence _ _ ∷ a) b = maps_shown-append a b
  maps_shown-append (log_points _ _ _ _ ∷ a) b = maps_shown-append a b
  maps_shown-append (log_strip _ _ _ ∷ a) b = maps_shown-append a b
  maps_shown-append (log_grid path _ ∷ a) b = ap (◌∷◌ path) (maps_shown-append a b)

  abbrev pub path_of : Thread t → Path2 t
  path_of th = (th.processed, th.trajectory)

module _ {t : Types} (floats : Floats t) (car : Text) where
  -- The path after the outputs.
  abbrev pub after : Path2 t → List (SlamOutput t) → Path2 t
  after p [] = p
  after p (tracked pose world ∷ l) =
      after
        ((p.0 + 1) % 2 ^ 32, p.1 ++ (Floats.to_f32 floats pose.x, Floats.to_f32 floats pose.y) ∷ [])
        l
  after p (map_output m ∷ l) = after p l

  -- Each scan that is sent is shown at the time of its number, with the path that leads to it.
  abbrev pub viewed : Path2 t → List (SlamOutput t) → List (Call t)
  viewed p [] = []
  viewed p (tracked pose world ∷ l) =
      let q = after p (tracked pose world ∷ []) in
      set_time_sequence (codes "scan") q.0
      ∷ log_points (codes "cars/" ++ (car ++ codes "/scan")) world (120, 200, 255)
          (FloatOps.lit (Floats.f32 floats) 15 3)
      ∷ log_strip (codes "cars/" ++ (car ++ codes "/trajectory")) q.1 (255, 170, 40)
      ∷ viewed q l
  viewed p (map_output m ∷ l) = viewed p l

  viewed-append :
      (p : Path2 t) (a b : List (SlamOutput t))
      → viewed p (a ++ b) ≡ viewed p a ++ viewed (after p a) b
  viewed-append p [] b = refl
  viewed-append p (tracked pose world ∷ a) b =
      let q = after p (tracked pose world ∷ []) in
      ap
        (λ l.
          set_time_sequence (codes "scan") q.0
          ∷ log_points (codes "cars/" ++ (car ++ codes "/scan")) world (120, 200, 255)
              (FloatOps.lit (Floats.f32 floats) 15 3)
          ∷ log_strip (codes "cars/" ++ (car ++ codes "/trajectory")) q.1 (255, 170, 40)
          ∷ l)
        (viewed-append q a b)
  viewed-append p (map_output m ∷ a) b = viewed-append p a b

  after-append : (p : Path2 t) (a b : List (SlamOutput t)) → after p (a ++ b) ≡ after (after p a) b
  after-append p [] b = refl
  after-append p (tracked pose world ∷ a) b = after-append (after p (tracked pose world ∷ [])) a b
  after-append p (map_output m ∷ a) b = after-append p a b

  -- One place for each map that is sent.
  abbrev pub map_places : List (SlamOutput t) → List Text
  map_places [] = []
  map_places (tracked pose world ∷ l) = map_places l
  map_places (map_output m ∷ l) = (codes "cars/" ++ (car ++ codes "/map")) ∷ map_places l

  map_places-append :
      (a b : List (SlamOutput t)) → map_places (a ++ b) ≡ map_places a ++ map_places b
  map_places-append [] b = refl
  map_places-append (tracked pose world ∷ a) b = map_places-append a b
  map_places-append (map_output m ∷ a) b =
      ap (◌∷◌ (codes "cars/" ++ (car ++ codes "/map"))) (map_places-append a b)

  -- A thread at `th` sends `out`, shows `calls` and goes on at `next`.
  abbrev pub Follows : Thread t → List (SlamOutput t) → List (Call t) → Thread t → Type 0
  Follows th out calls next =
      (scans_only calls ≡ viewed (path_of th) out)
      × (path_of next ≡ after (path_of th) out)
      × (maps_shown calls ≡ map_places out)

  pub Follows-trans :
      (a b c : Thread t) (out outs : List (SlamOutput t)) (calls more : List (Call t))
      → Follows a out calls b
      → Follows b outs more c
      → Follows a (out ++ outs) (calls ++ more) c
  Follows-trans a b c out outs calls more (f, p, m) (g, q, n) = (
    scans_only-append calls more
        ∙ ap (λ l. l ++ scans_only more) f
        ∙ ap (◌++◌ (viewed (path_of a) out)) (g ∙ ap (λ r. viewed r outs) p)
        ∙ sym (viewed-append (path_of a) out outs),
    q ∙ ap (λ r. after r outs) p ∙ sym (after-append (path_of a) out outs),
    maps_shown-append calls more
        ∙ ap (λ l. l ++ maps_shown more) m
        ∙ ap (◌++◌ (map_places out)) n
        ∙ sym (map_places-append out outs),
  )

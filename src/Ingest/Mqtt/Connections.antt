-- ===== src/Ingest/Mqtt/Connections.antt =====
-- The two connections of a hub to its broker.
use olivaw_hub.Prelude.{
  ◌↔◌, length, length-append, take, take-append, ◌∙◌, ◌≡◌, ◌≢◌, refl, sym, ap, ◌⊎◌, inl, inr, none,
  some, ◌++◌, append_cancel, arith, Option-cases,
}
use olivaw_hub.Text.{Text, codes}
use olivaw_hub.Config.{MqttConfig}
use olivaw_hub.Ingest.Mqtt.{sub_options, cmd_options}

-- Two texts with endings of the same length.
endings : (x y s t : Text) → length s ≡ length t → x ++ s ≡ y ++ t → (x ≡ y) × (s ≡ t)
endings x y s t l h =
    let long = ap length h in
    let same : length x ≡ length y = omega (arith, length-append x s, length-append y t) in
    let first =
      sym (take-append x s)
      ∙ ap (take (length x)) h
      ∙ ap (λ n. take n (y ++ t)) same
      ∙ take-append y t in
    (first, append_cancel y s t (sym (ap (λ z. z ++ s) first) ∙ h))

-- Both connections of a hub go to the configured port of the configured host and log in with the name
-- and the password where both are configured, and without any else. Of the connections of two hubs,
-- one that subscribes and one that commands never have the same client id, and two of a kind have the
-- same only where the configured client id is the same.
pub sub_options-cmd_options :
    (a b : MqttConfig)
    → ((sub_options a).client_id ≢ (cmd_options b).client_id)
      × (((sub_options a).client_id ≡ (sub_options b).client_id) ↔ (a.client_id ≡ b.client_id))
      × (((cmd_options a).client_id ≡ (cmd_options b).client_id) ↔ (a.client_id ≡ b.client_id))
      × ((sub_options a).host ≡ a.host)
      × ((cmd_options a).host ≡ a.host)
      × ((sub_options a).port ≡ a.port)
      × ((cmd_options a).port ≡ a.port)
      × ((cmd_options a).credentials ≡ (sub_options a).credentials)
      × (((u : Text) × (p : Text) × (a.username ≡ some u)
            × (a.password ≡ some p)
            × ((sub_options a).credentials ≡ some (u, p)))
          ⊎ (((a.username ≡ none) ⊎ (a.password ≡ none)) × ((sub_options a).credentials ≡ none)))
unfolding sub_options cmd_options
sub_options-cmd_options a b = (
  (λ e. ends_differ (endings a.client_id b.client_id (codes "-sub") (codes "-cmd") refl e).1),
  (
    (λ e. (endings a.client_id b.client_id (codes "-sub") (codes "-sub") refl e).0),
    ap (λ s. s ++ codes "-sub"),
  ),
  (
    (λ e. (endings a.client_id b.client_id (codes "-cmd") (codes "-cmd") refl e).0),
    ap (λ s. s ++ codes "-cmd"),
  ),
  refl,
  refl,
  refl,
  refl,
  refl,
  login,
)
  where
    ends_differ : codes "-sub" ≢ codes "-cmd"
    ends_differ e = ground arith

    login :
        ((u : Text) × (p : Text) × (a.username ≡ some u)
          × (a.password ≡ some p)
          × ((sub_options a).credentials ≡ some (u, p)))
        ⊎ (((a.username ≡ none) ⊎ (a.password ≡ none)) × ((sub_options a).credentials ≡ none))
    login = elim (Option-cases a.username) [
      | inl nameless ↦ inr (inl nameless, ground arith)
      | inr (u, named) ↦ elim (Option-cases a.password) [
        | inl passwordless ↦ inr (inr passwordless, ground arith)
        | inr (p, locked) ↦ inl (u, p, named, locked, ground arith)
      ]
    ]

-- ===== src/Ingest/Subscriber.antt =====
-- src/ingest/mqtt.rs, `spawn`: the loop that subscribes to every car and forwards what is decoded.
use olivaw_hub.Prelude.{
  ℕ, zero, suc, ◌≡◌, refl, ap, ◌∙◌, inl, inr, Bool, true, false, Option, none, some, List, [], ◌∷◌,
  ◌++◌, take, Option-cases,
}
use olivaw_hub.Text.{Bytes}
use olivaw_hub.Text.Utf8.{from_utf8_lossy}
use olivaw_hub.External.{Types, Proto}
use olivaw_hub.Ingest.{CarEvent, decode}

-- What `eventloop.poll` returns; with a message, the clock that is read while it is decoded.
pub data Polled : Type 0 where
  conn_ack other failed : Polled
  publish : Bytes → Bytes → Option ℕ → Polled

-- What the loop does: a request to subscribe, an event sent, a pause of three seconds.
pub data Act (t : Types) : Type 0 where
  subscribe retry_later : Act t
  forward : CarEvent t → Act t

module _ {t : Types} (p : Proto t) where
  -- `if !subscribed`; the request may be refused.
  unfoldable pub ask : Bool → Bool → List (Act t) × Bool
  ask true accepted = ([], true)
  ask false accepted = (subscribe ∷ [], accepted)

  -- The loop, over what the polls return and whether a request made then is accepted. The pipeline
  -- takes `room` more events.
  unfoldable pub ingest : Bool → ℕ → List (Polled × Bool) → List (Act t)
  unfolding ask
  ingest subscribed room [] = []
  ingest subscribed room ((conn_ack, accepted) ∷ polls) =
      let (asked, now) = ask false accepted in asked ++ ingest now room polls
  ingest subscribed room ((other, accepted) ∷ polls) =
      let (asked, now) = ask subscribed accepted in asked ++ ingest now room polls
  ingest subscribed room ((failed, accepted) ∷ polls) = retry_later ∷ ingest subscribed room polls
  ingest subscribed room ((publish topic payload clock, accepted) ∷ polls) =
      let (asked, now) = ask subscribed accepted in
      elim (decode p clock (from_utf8_lossy topic) payload) [
        | none ↦ asked ++ ingest now room polls
        | some event ↦ elim room [
          | zero ↦ []
          | suc left ↦ forward event ∷ (asked ++ ingest now left polls)
        ]
      ]

  -- The events that were sent.
  abbrev pub forwarded : List (Act t) → List (CarEvent t)
  forwarded [] = []
  forwarded (subscribe ∷ l) = forwarded l
  forwarded (retry_later ∷ l) = forwarded l
  forwarded (forward e ∷ l) = e ∷ forwarded l

  -- The events of the messages that arrived.
  abbrev pub decoded : List (Polled × Bool) → List (CarEvent t)
  decoded [] = []
  decoded ((conn_ack, _) ∷ l) = decoded l
  decoded ((other, _) ∷ l) = decoded l
  decoded ((failed, _) ∷ l) = decoded l
  decoded ((publish topic payload clock, _) ∷ l) =
      elim (decode p clock (from_utf8_lossy topic) payload) [
        | none ↦ decoded l
        | some e ↦ e ∷ decoded l
      ]

  forwarded-ask : (s ok : Bool) (l : List (Act t)) → forwarded ((ask s ok).0 ++ l) ≡ forwarded l
  unfolding ask
  forwarded-ask true ok l = refl
  forwarded-ask false ok l = refl

  -- Whatever connections are lost and made again and whatever requests fail in between, the events
  -- that reach the pipeline are those of the messages that arrived and could be decoded, in order,
  -- as many as the pipeline takes.
  pub forwarded-ingest :
      (subscribed : Bool) (room : ℕ) (polls : List (Polled × Bool))
      → forwarded (ingest subscribed room polls) ≡ take room (decoded polls)
  unfolding ingest
  forwarded-ingest s zero [] = refl
  forwarded-ingest s (suc room) [] = refl
  forwarded-ingest s room ((conn_ack, ok) ∷ polls) = forwarded-ingest ok room polls
  forwarded-ingest s room ((other, ok) ∷ polls) =
      forwarded-ask s ok (ingest (ask s ok).1 room polls) ∙ forwarded-ingest (ask s ok).1 room polls
  forwarded-ingest s room ((failed, ok) ∷ polls) = forwarded-ingest s room polls
  forwarded-ingest s zero ((publish topic payload clock, ok) ∷ polls) =
      let rest =
        forwarded-ask s ok (ingest (ask s ok).1 zero polls)
        ∙ forwarded-ingest (ask s ok).1 zero polls in
      elim (Option-cases (decode p clock (from_utf8_lossy topic) payload)) [
        | inl foreign ↦ rw (foreign, forwarded, decoded) rest
        | inr (e, own) ↦ rw (own, forwarded, decoded) refl
      ]
  forwarded-ingest s (suc room) ((publish topic payload clock, ok) ∷ polls) =
      elim (Option-cases (decode p clock (from_utf8_lossy topic) payload)) [
        | inl foreign ↦
            rw (foreign, forwarded, decoded)
              (forwarded-ask s ok (ingest (ask s ok).1 (suc room) polls)
                ∙ forwarded-ingest (ask s ok).1 (suc room) polls)
        | inr (e, own) ↦
            rw (own, forwarded, decoded)
              (ap (◌∷◌ e) (
                forwarded-ask s ok (ingest (ask s ok).1 room polls)
                ∙ forwarded-ingest (ask s ok).1 room polls))
      ]

-- ===== src/Postcard.antt =====
-- The serializer of recordings, the postcard crate: a function each way.
use olivaw_hub.Prelude.{
  ℕ, ◌≡◌, Option, none, some, ◌∷◌, ◌++◌, arith, length, take, drop, take-append, drop-append, ◌==◌,
  if◌then◌else◌,
}
use olivaw_hub.Text.{Bytes, Text}
use olivaw_hub.External.{Types}
use olivaw_hub.External.Toy.{toy}
use olivaw_hub.Ingest.{CarEvent, EventKind, status, telemetry, scan}

pub record Postcard (t : Types) : Type 0 where
  pub to_stdvec : CarEvent t → Option Bytes
  pub from_bytes : Bytes → Option (CarEvent t)

-- What has been serialized is read back.
pub record PostcardLaws {t : Types} (c : Postcard t) : Type 0 where
  pub from-to :
      (e : CarEvent t) (b : Bytes)
      → Postcard.to_stdvec c e ≡ some b
      → Postcard.from_bytes c b ≡ some e

-- A concrete serializer: the time, the kind and the text or number.
abbrev toy_to_stdvec : CarEvent toy → Option Bytes
toy_to_stdvec e = elim e.kind [
  | status s ↦ some (e.at_ms ∷ 1 ∷ length s ∷ s ++ e.car)
  | telemetry x ↦ some (e.at_ms ∷ 2 ∷ x ∷ e.car)
  | scan f ↦ some (e.at_ms ∷ 3 ∷ length f ∷ f ++ e.car)
]

abbrev toy_from_bytes : Bytes → Option (CarEvent toy)
toy_from_bytes (at ∷ k ∷ x ∷ rest) =
    if k == 1
    then some (record { car = drop x rest; at_ms = at; kind = status (take x rest) })
    else if k == 2
    then some (record { car = rest; at_ms = at; kind = telemetry x })
    else if k == 3
    then some (record { car = drop x rest; at_ms = at; kind = scan (take x rest) })
    else none
toy_from_bytes _ = none

abbrev pub toy_postcard : Postcard toy
toy_postcard = record { to_stdvec = toy_to_stdvec; from_bytes = toy_from_bytes }

toy_from-to :
    (car : Text) (at_ms : ℕ) (kind : EventKind toy) (b : Bytes)
    → toy_to_stdvec (record { car = car; at_ms = at_ms; kind = kind }) ≡ some b
    → toy_from_bytes b ≡ some (record { car = car; at_ms = at_ms; kind = kind })
toy_from-to car at_ms (status s) b h = ground (arith, take-append s car, drop-append s car)
toy_from-to car at_ms (telemetry x) b h = ground arith
toy_from-to car at_ms (scan f) b h = ground (arith, take-append f car, drop-append f car)

pub toy_postcard_laws : PostcardLaws toy_postcard
toy_postcard_laws = record { from-to = λ e b h. toy_from-to e.car e.at_ms e.kind b h }

-- ===== src/Ingest/Materialize/Keys.antt =====
-- The keys of events are the same before and after materialization, enrichment and rematerialization.
use naralabs_atlas.Prelude.{ℕ, ◌≡◌, refl, ap, Bool, true, false, Option, List, [], ◌∷◌, map, arith}
use naralabs_atlas.Stellar.Model
use naralabs_atlas.Ingest.Model.{ContractEvent, key_of}
use naralabs_atlas.Ingest.Materialize.{
  Parsers, Decoded, apply_one, stamp, apply_batch, materialize_event, materialize_events,
  rematerialize_event, rematerialize, key_of_fetched,
}

key-apply_one : (d : Option Decoded) (e : ContractEvent) → key_of (apply_one d e) ≡ key_of e
unfolding apply_one
key-apply_one d e = ground arith

key-stamp : (bump : Bool) (now : ℕ) (e : ContractEvent) → key_of (stamp bump now e) ≡ key_of e
unfolding stamp
key-stamp true now e = refl
key-stamp false now e = refl

-- ApplyBatch keeps the number of events, their keys and their order, whatever the decode service answers.
pub keys-apply_batch :
    {W : Type 0} (decode : ContractEvent → W → Option Decoded × W) (bump : Bool) (now : ℕ)
    (es : List ContractEvent) (w : W)
    → map key_of (apply_batch decode bump now es w).0 ≡ map key_of es
unfolding apply_batch
keys-apply_batch decode bump now [] w = refl
keys-apply_batch decode bump now (e ∷ es) w = cc (
  key-stamp bump now (apply_one (decode e w).0 e),
  key-apply_one (decode e w).0 e,
  keys-apply_batch decode bump now es (decode e w).1,
)

-- MaterializeEvents makes one row for each fetched event, with its key, in the same order.
pub keys-materialize_events :
    (p : Parsers) (es : List Model.ContractEvent)
    → map key_of (materialize_events p es) ≡ map key_of_fetched es
unfolding materialize_events materialize_event
keys-materialize_events p [] = refl
keys-materialize_events p (e ∷ es) = ap (λ ks. key_of_fetched e ∷ ks) (keys-materialize_events p es)

-- rematerialize makes one row for each row, with its key, in the same order.
pub keys-rematerialize :
    (p : Parsers) (es : List ContractEvent) → map key_of (rematerialize p es) ≡ map key_of es
unfolding rematerialize rematerialize_event
keys-rematerialize p [] = refl
keys-rematerialize p (e ∷ es) = ap (λ ks. key_of e ∷ ks) (keys-rematerialize p es)

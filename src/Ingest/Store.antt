-- ===== src/Ingest/Store.antt =====
-- The services that the ingest calls: the repositories of internal/module/ingest/repository, the client
-- of internal/client/stellar, the decode service, the publisher and the clock; and `persist`,
-- which ingest_worker_service.go, backfill_service.go and replay_service.go write out in turn.
pub mod Log
use naralabs_atlas.Prelude.{
  ℕ, Bool, true, false, not, Option, none, some, List, [], ◌∷◌, Text, length, ltb, chunks, Result,
  ok, err, if◌then◌else◌,
}
use naralabs_atlas.RpcChain.Errors.{Error}
use naralabs_atlas.Stellar.Model
use naralabs_atlas.Stellar.Model.{FetchEventsInput}
use naralabs_atlas.Ingest.Model.{ContractEvent, EventAddress, TokenEvent}
use naralabs_atlas.Ingest.Materialize.{
  Parsers, Decoded, apply_batch, materialize_events, extract_derived,
}
use naralabs_atlas.Ingest.Exec.{Exec, pure, after, ◌>>=◌, ◌>>◌, when}

-- `decode` is `none` for a worker without a semantic enricher, `publish` for one without a publisher; an
-- error of the publisher is only logged.
pub record Services (W : Type 0) : Type 0 where
  pub parsers : Parsers
  pub decode : Option (ContractEvent → W → Option Decoded × W)
  pub publish : Option (List ContractEvent → W → W)
  pub clock : W → ℕ × W
  pub get_cursor : Exec W ℕ
  pub upsert_cursor : ℕ → Exec W (Unit {0})
  pub latest_ledger : Exec W ℕ
  pub fetch_events : FetchEventsInput → W → (Result Error (List Model.ContractEvent) × ℕ) × W
  pub upsert_batch : List ContractEvent → Exec W (Unit {0})
  pub upsert_addresses : List EventAddress → Exec W (Unit {0})
  pub upsert_token_events : List TokenEvent → Exec W (Unit {0})

abbrev pub is_nil : {A : Type 0} → List A → Bool
is_nil [] = true
is_nil (x ∷ xs) = false

module _ {W : Type 0} (env : Services W) where
  open env use {
    parsers, decode, publish, clock, upsert_batch, upsert_addresses, upsert_token_events,
  }

  -- semantic.ApplyBatch, which returns at once on nil and on an empty batch
  pub enrich :
      Option (ContractEvent → W → Option Decoded × W)
      → Bool
      → List ContractEvent
      → W
      → List ContractEvent × W
  enrich none bump es w = (es, w)
  enrich (some d) bump [] w = ([], w)
  enrich (some d) bump (e ∷ es) w = let (now, w') = clock w in apply_batch d bump now (e ∷ es) w'

  -- materializeBatch
  pub materialize_batch : List Model.ContractEvent → W → List ContractEvent × W
  unfolding enrich
  materialize_batch events w = enrich decode false (materialize_events parsers events) w

  -- publishIngest
  publish_ingest : Option (List ContractEvent → W → W) → List ContractEvent → Exec W (Unit {0})
  publish_ingest none chunk w = (ok tt, w)
  publish_ingest (some send) [] w = (ok tt, w)
  publish_ingest (some send) (e ∷ es) w = (ok tt, send (e ∷ es) w)

  -- UpsertBatch and the rows of ExtractDerived.
  unfoldable pub store_rows : List ContractEvent → Exec W (Unit {0})
  store_rows rows = do
    upsert_batch rows
    when (not (is_nil (extract_derived parsers rows).0))
        (upsert_addresses (extract_derived parsers rows).0)
    when (not (is_nil (extract_derived parsers rows).1))
        (upsert_token_events (extract_derived parsers rows).1)

  -- The loop of persist, over the slices of the rows.
  pub persist_chunks : List (List ContractEvent) → Exec W (Unit {0})
  unfolding store_rows publish_ingest
  persist_chunks [] = pure tt
  persist_chunks (c ∷ cs) = do store_rows c; publish_ingest publish c; persist_chunks cs

  -- persist
  pub persist : ℕ → List ContractEvent → Exec W (Unit {0})
  unfolding persist_chunks
  persist batch_size [] = pure tt
  persist batch_size (e ∷ es) =
      let size = if ltb 0 batch_size then batch_size else length (e ∷ es) in
      persist_chunks (chunks size (e ∷ es))

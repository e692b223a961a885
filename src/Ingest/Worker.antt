-- ===== src/Ingest/Worker.antt =====
-- internal/module/ingest/service/ingest_worker_service.go: one cycle of the worker.
pub mod Safety
pub mod Run
use naralabs_atlas.Prelude.{
  ℕ, ◌+◌, ◌-◌, ◌&&◌, Bool, true, false, Option, none, some, List, [], ◌∷◌, Text, ltb, leb, ◌==◌,
  Result, ok, err, text, if◌then◌else◌, u32, u64, gt_i64, pos_i64,
}
use naralabs_atlas.RpcChain.Errors.{Error, is_reanchor_cursor, plain}
use naralabs_atlas.Stellar.Model
use naralabs_atlas.Stellar.Model.{FetchEventsInput}
use naralabs_atlas.Stellar.Batches.{build_filter_batches}
use naralabs_atlas.Ingest.Model.{Settings}
use naralabs_atlas.Ingest.Exec.{Exec, pure, raise, after, ◌>>=◌, ◌>>◌, when}
use naralabs_atlas.Ingest.Timing.{resolve_cold_start, reorg_from_ledger}
use naralabs_atlas.Ingest.Store.{Services, materialize_batch, persist}

-- The fields of IngestWorkerService that a cycle changes; `last_reorg` is an int64 pattern.
pub record Worker (W : Type 0) : Type 0 where
  pub last_reorg : ℕ
  pub outside : W

abbrev pub lift : {W A : Type 0} → Exec W A → Exec (Worker W) A
lift m s = let (r, w) = m s.outside in (r, record s { outside = w })

module _ {W : Type 0} (env : Services W) (cfg : Settings) where
  -- materializeBatch and persist
  store_events : List Model.ContractEvent → Exec W (Unit {0})
  store_events events w =
      let (rows, w') = materialize_batch env events w in persist env cfg.batch_size rows w'

  fetch_input : ℕ → ℕ → List Text → FetchEventsInput
  fetch_input start end batch = record {
    network = cfg.network;
    start_ledger = start;
    end_ledger = end;
    limit = u32 cfg.page_limit;
    cursor = [];
    contract_ids = batch;
  }

  -- A batch of the reorg rescan.
  rescan_answer : (Result Error (List Model.ContractEvent) × ℕ) × W → Result Error (Unit {0}) × W
  unfolding store_events
  rescan_answer ((err e, next), w) = (err e, w)
  rescan_answer ((ok events, next), w) = store_events events w

  rescan_batches : ℕ → ℕ → List (List Text) → Exec W (Unit {0})
  unfolding rescan_answer fetch_input
  rescan_batches from to [] = pure tt
  rescan_batches from to (b ∷ bs) = do
    (λ w. rescan_answer (env.fetch_events (fetch_input from to b) w))
    rescan_batches from to bs

  -- last > 0 && time.Duration(now-last) < cfg.Ingest.ReorgInterval
  too_soon : ℕ → ℕ → Bool
  too_soon last now =
      pos_i64 last && gt_i64 cfg.reorg_interval (u64 (now + 18446744073709551616 - last))

  rescan : ℕ → ℕ → ℕ → Exec (Worker W) (Unit {0})
  unfolding rescan_batches
  rescan from start now = do
    lift (rescan_batches from start (build_filter_batches cfg.watched 25))
    (λ s. (ok tt, record s { last_reorg = now }))

  -- maybeRescanReorg behind its reading of the clock
  rescan_at : ℕ → ℕ → ℕ → Exec (Worker W) (Unit {0})
  unfolding too_soon rescan
  rescan_at last_ledger start now s =
      let from = reorg_from_ledger last_ledger cfg.reorg_window in
      if too_soon s.last_reorg now
      then (ok tt, s)
      else if from == 0
      then (ok tt, s)
      else if leb start from
      then (ok tt, s)
      else rescan from start now s

  -- maybeRescanReorg
  maybe_rescan_reorg : ℕ → ℕ → Exec (Worker W) (Unit {0})
  unfolding rescan_at
  maybe_rescan_reorg last_ledger start s =
      let (now, w) = env.clock s.outside in
      if cfg.reorg_window == 0
      then (ok tt, s)
      else rescan_at last_ledger start now (record s { outside = w })

  -- A batch of the cycle: `some` of the next ledger, or `none` where the cursor was re-anchored.
  batch_answer : (Result Error (List Model.ContractEvent) × ℕ) × W → Result Error (Option ℕ) × W
  unfolding store_events
  batch_answer ((err e, next), w) = if is_reanchor_cursor e then (ok none, w) else (err e, w)
  batch_answer ((ok events, next), w) = (do store_events events; pure (some next)) w

  -- The loop over the batches; `cursor` is cursorLedger.
  next_cursor : Option ℕ → ℕ → (ℕ → Exec W (Option ℕ)) → Exec W (Option ℕ)
  next_cursor none cursor rest = pure none
  next_cursor (some next) cursor rest = rest (if ltb cursor next then next else cursor)

  ingest_batches : ℕ → ℕ → List (List Text) → ℕ → Exec W (Option ℕ)
  unfolding batch_answer fetch_input next_cursor
  ingest_batches start latest [] cursor = pure (some cursor)
  ingest_batches start latest (b ∷ bs) cursor = do
    answer ← (λ w. batch_answer (env.fetch_events (fetch_input start latest b) w))
    next_cursor answer cursor (λ cursor'. ingest_batches start latest bs cursor')

  -- The end of the cycle: the cursor moves on.
  move_cursor : ℕ → ℕ → Option ℕ → Exec W Bool
  move_cursor last latest none = pure false
  move_cursor last latest (some cursor) = do
    let next = if leb cursor last then latest else cursor
    env.upsert_cursor next
    pure (leb latest next)

  cycle_from : ℕ → ℕ → ℕ → Exec (Worker W) Bool
  unfolding maybe_rescan_reorg ingest_batches move_cursor
  cycle_from last latest start = if leb latest start then pure true else do
    maybe_rescan_reorg last start
    found ← lift (ingest_batches start latest (build_filter_batches cfg.watched 25) start)
    lift (move_cursor last latest found)

  cold_start : ℕ → ℕ → Option ℕ → Exec (Worker W) Bool
  unfolding cycle_from
  cold_start last latest none = raise (plain (text "parse START_LEDGER") false)
  cold_start last latest (some start) = cycle_from last latest start

  -- ingestOnce
  pub ingest_once : Exec (Worker W) Bool
  unfolding cold_start
  ingest_once = do
    last ← lift env.get_cursor
    latest ← lift env.latest_ledger
    cold_start last latest
        (resolve_cold_start last latest cfg.retention_ledgers cfg.start_ledger_raw)

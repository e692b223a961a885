-- ===== src/Ingest/Backfill.antt =====
-- internal/module/ingest/service/backfill_service.go: Run and backfillLedgerWindow.
pub mod Windows
use naralabs_atlas.Prelude.{
  ℕ, zero, suc, ◌+◌, ◌&&◌, Bool, true, false, Option, none, some, List, [], ◌∷◌, Text, ltb, leb,
  ◌==◌, Result, ok, err, text, if◌then◌else◌, u32, pos_i64,
}
use naralabs_atlas.RpcChain.Errors.{Error, plain}
use naralabs_atlas.Stellar.Model
use naralabs_atlas.Stellar.Model.{FetchEventsInput}
use naralabs_atlas.Stellar.Batches.{build_filter_batches}
use naralabs_atlas.Ingest.Model.{Settings}
use naralabs_atlas.Ingest.Exec.{Exec, pure, after, ◌>>=◌, ◌>>◌}
use naralabs_atlas.Ingest.Store.{Services, is_nil, materialize_batch, store_rows}

-- end of the window at `cursor`, in uint32 arithmetic
abbrev pub window_end : ℕ → ℕ → ℕ → ℕ
window_end batch to cursor =
    let end = u32 (cursor + u32 batch + 4294967295) in if ltb to end then to else end

-- The loop of Run. `window` is backfillLedgerWindow, `progress` UpdateProgress, `live` ctx.Err() and
-- `pause` the timer. `none` is a loop that goes on behind its fuel.
module _ {W : Type 0} (window : ℕ → ℕ → Exec W (Unit {0})) (progress : ℕ → Exec W (Unit {0}))
    (live pause : Exec W (Unit {0})) where
  -- One window; the result is the next cursor.
  pub step : ℕ → ℕ → ℕ → Exec W ℕ
  step batch to cursor = do
    let end = window_end batch to cursor
    live
    window cursor end
    progress (u32 (end + 1))
    pause
    pure (u32 (end + 1))

  follow :
      Result Error ℕ × W
      → (ℕ → W → Option (Result Error (Unit {0}) × W))
      → Option (Result Error (Unit {0}) × W)
  follow (ok cursor, w) rest = rest cursor w
  follow (err e, w) rest = some (err e, w)

  -- for cursor <= toLedger
  while_at_most :
      Bool → (W → Option (Result Error (Unit {0}) × W)) → W → Option (Result Error (Unit {0}) × W)
  while_at_most true body w = body w
  while_at_most false body w = some (ok tt, w)

  pub backfill_loop : ℕ → ℕ → ℕ → ℕ → W → Option (Result Error (Unit {0}) × W)
  unfolding step follow while_at_most
  backfill_loop zero batch to cursor w = none
  backfill_loop (suc fuel) batch to cursor w =
      while_at_most (leb cursor to)
        (λ w. follow (step batch to cursor w) (backfill_loop fuel batch to)) w

-- The services of a backfill. `horizon` is the Horizon pass, whose answer and error are only logged.
pub record BackfillServices (W : Type 0) : Type 0 where
  pub ingest : Services W
  pub start : ℕ → ℕ → Exec W ℕ
  pub update_progress : ℕ → Exec W (Unit {0})
  pub complete : Exec W (Unit {0})
  pub live : Exec W (Unit {0})
  pub pause : ℕ → Exec W (Unit {0})
  pub horizon : Option (ℕ → ℕ → W → W)

module _ {W : Type 0} (env : BackfillServices W) (cfg : Settings) where
  -- The rows of a batch; none are left out with `continue`.
  backfill_rows : List Model.ContractEvent → Exec W (Unit {0})
  backfill_rows events w =
      let (rows, w') = materialize_batch env.ingest events w in
      if is_nil rows then (ok tt, w') else store_rows env.ingest rows w'

  backfill_answer : (Result Error (List Model.ContractEvent) × ℕ) × W → Result Error (Unit {0}) × W
  unfolding backfill_rows
  backfill_answer ((err e, next), w) = (err e, w)
  backfill_answer ((ok events, next), w) = backfill_rows events w

  backfill_input : ℕ → ℕ → List Text → FetchEventsInput
  backfill_input from to batch = record {
    network = cfg.network;
    start_ledger = from;
    end_ledger = to;
    limit = u32 cfg.page_limit;
    cursor = [];
    contract_ids = batch;
  }

  backfill_batches : ℕ → ℕ → List (List Text) → Exec W (Unit {0})
  unfolding backfill_answer backfill_input
  backfill_batches from to [] = pure tt
  backfill_batches from to (b ∷ bs) = do
    (λ w. backfill_answer (env.ingest.fetch_events (backfill_input from to b) w))
    backfill_batches from to bs

  scan_horizon : Option (ℕ → ℕ → W → W) → ℕ → ℕ → Exec W (Unit {0})
  scan_horizon none from to w = (ok tt, w)
  scan_horizon (some scan) from to w = (ok tt, scan from to w)

  -- backfillLedgerWindow
  backfill_ledger_window : ℕ → ℕ → Exec W (Unit {0})
  unfolding backfill_batches scan_horizon
  backfill_ledger_window from to = do
    backfill_batches from to (build_filter_batches cfg.watched 25)
    scan_horizon env.horizon from to

  -- The defaults of Run; durations are int64 patterns.
  backfill_interval : ℕ
  backfill_interval = if pos_i64 cfg.backfill_interval then cfg.backfill_interval else 100000000

  backfill_batch_size : ℕ
  backfill_batch_size = if pos_i64 cfg.backfill_batch_size then cfg.backfill_batch_size else 200

  finish : Option (Result Error (Unit {0}) × W) → Option (Result Error (Unit {0}) × W)
  finish none = none
  finish (some r) = some (after r (λ _. env.complete))

  start_at : ℕ → ℕ → ℕ → Result Error ℕ × W → Option (Result Error (Unit {0}) × W)
  unfolding backfill_ledger_window backfill_interval backfill_batch_size finish
  start_at fuel from to (err e, w) = some (err e, w)
  start_at fuel from to (ok next, w) = finish (
      backfill_loop backfill_ledger_window env.update_progress env.live
        (env.pause backfill_interval) fuel backfill_batch_size to (if next == 0 then from else next)
        w)

  run_to : ℕ → ℕ → Result Error ℕ × W → Option (Result Error (Unit {0}) × W)
  unfolding start_at
  run_to fuel from (err e, w) = some (err e, w)
  run_to fuel from (ok to, w) = start_at fuel from to (env.start from to w)

  -- Run, with the fuel of its loop
  pub run : ℕ → ℕ → ℕ → W → Option (Result Error (Unit {0}) × W)
  unfolding run_to
  run fuel from to w =
      if ltb 0 to && ltb to from
      then some (err (plain (text "from_ledger must be <= to_ledger") false), w)
      else if to == 0
      then run_to fuel from (env.ingest.latest_ledger w)
      else run_to fuel from (ok to, w)

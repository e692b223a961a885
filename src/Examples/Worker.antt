-- ===== src/Examples/Worker.antt =====
-- The ingest on an outside that is the time.
use naralabs_atlas.Prelude.{
  ℕ, ◌+◌, ◌≡◌, All, is_empty, if◌then◌else◌, refl, Bool, true, false, not, Option, none, some, List,
  [], ◌∷◌, map, arith, text, ok,
}
use naralabs_atlas.Stellar.Model
use naralabs_atlas.Ingest.Model.{ContractEvent, key_of, Settings}
use naralabs_atlas.Ingest.Timing.Poll.{after_idle, after_idle-max}
use naralabs_atlas.Ingest.Materialize.{Parsers, Decoded, extract_derived}
use naralabs_atlas.Ingest.Materialize.Replayed.{
  DecodeInput, Enriched, Parsed, at_time, ingested, replayed, replayed-ingested,
}
use naralabs_atlas.Ingest.Exec.{Exec, when}
use naralabs_atlas.Ingest.Store.{Services, is_nil, store_rows, persist}
use naralabs_atlas.Ingest.Store.Log.{Stored, with_log, no_log, persist-Stored}
use naralabs_atlas.Ingest.Worker.{ingest_once}
use naralabs_atlas.Ingest.Worker.Run
use naralabs_atlas.Ingest.Worker.Run.{
  PollSettings, validate_polling, InBounds, interval, new_running, run-InBounds,
}
use naralabs_atlas.Ingest.Worker.Safety.{Moved, log_of_worker, ingest_once-Moved}
use naralabs_atlas.Ingest.Backfill.{backfill_loop}
use naralabs_atlas.Ingest.Backfill.Windows.{Filled, noted_window, beside, backfill_loop-Filled}
use naralabs_atlas.Ingest.Replay.{ReplayServices, replay_loop}
use naralabs_atlas.Ingest.Replay.Progress.{replay_loop-Stuck}

abbrev parsers : Parsers
parsers = record {
  normalize_topics = λ xdr json. text "[]";
  normalize_value = λ xdr json. text "{}";
  extract_addresses = λ topics value. record { address = text "G"; role = text "from" } ∷ [];
  extract_transfer = λ topics value. none;
}

abbrev fetched : ℕ → Model.ContractEvent
fetched ledger = record {
  id = text "1";
  network = text "testnet";
  contract_id = text "C";
  ledger = ledger;
  txn_hash = text "T";
  event_type = 1;
  topics_xdr = [];
  value_xdr = [];
  topics_json = [];
  value_json = [];
}

abbrev row : ℕ → ContractEvent
row ledger = record {
  id = text "1";
  network = text "testnet";
  contract_id = text "C";
  ledger = ledger;
  txn_hash = text "T";
  event_type = 1;
  topics_xdr = [];
  value_xdr = [];
  topics_json = text "[]";
  value_json = text "{}";
  semantic_decoded = false;
  decoded_event_name = [];
  schema_version = 0;
  decode_summary = [];
  decoded_fields_json = [];
  ingested_at = none;
}

abbrev decode : ContractEvent → ℕ → Option Decoded × ℕ
decode e w = (
  some (record {
    status = text "decoded";
    event_name = text "Transfer";
    version = 2;
    summary = text "a transfer";
    fields = none;
  }),
  w + 1,
)

abbrev services : Services ℕ
services = record {
  parsers = parsers;
  decode = some decode;
  publish = none;
  clock = λ w. (w, w);
  get_cursor = λ w. (ok 40, w);
  upsert_cursor = λ n w. (ok tt, w);
  latest_ledger = λ w. (ok 60, w);
  fetch_events = λ i w. ((ok (fetched 41 ∷ fetched 45 ∷ []), 60), w);
  upsert_batch = λ rows w. (ok tt, w);
  upsert_addresses = λ rows w. (ok tt, w);
  upsert_token_events = λ rows w. (ok tt, w);
}

abbrev settings : Settings
settings = record {
  network = text "testnet";
  retention_ledgers = 30;
  start_ledger_raw = [];
  page_limit = 100;
  batch_size = 1;
  reorg_window = 5;
  reorg_interval = 60;
  backfill_batch_size = 10;
  backfill_interval = 1;
  replay_batch_size = 10;
  watched = text "C" ∷ [];
}

ingest_once-Moved_example :
    Moved log_of_worker (
      ingest_once (with_log services) settings (record { last_reorg = 0; outside = (100, no_log) }))
ingest_once-Moved_example = ingest_once-Moved services settings 0 100

persist-Stored_example :
    Stored
      (map key_of (row 41 ∷ row 45 ∷ []))
      no_log
      (persist (with_log services) 1 (row 41 ∷ row 45 ∷ []) (100, no_log))
persist-Stored_example = persist-Stored services 1 (row 41 ∷ row 45 ∷ []) 100 no_log

abbrev window : ℕ → ℕ → Exec ℕ (Unit {0})
window from to w = (ok tt, w + to)

backfill_loop-Filled_example : Filled 5 10 22 (
    backfill_loop
      (noted_window window)
      (λ n. beside (λ w. (ok tt, w)))
      (beside (λ w. (ok tt, w)))
      (beside (λ w. (ok tt, w)))
      14
      5
      22
      10
      (0, []))
backfill_loop-Filled_example =
    backfill_loop-Filled window (λ n w. (ok tt, w)) (λ w. (ok tt, w)) (λ w. (ok tt, w)) 14 5 22 10 0
      (omega arith) (omega arith) (omega arith) (omega arith)

-- The only events at hand are in the ledger 7.
abbrev replay_services : ReplayServices ℕ
replay_services = record {
  ingest = services;
  list = λ network from to limit w. (ok (row 7 ∷ []), w);
}

when_ok : (b : Bool) (w : ℕ) → when b (λ (v : ℕ). (ok tt, v)) w ≡ (ok tt, w)
when_ok true w = refl
when_ok false w = refl

stores : (rows : List ContractEvent) (w : ℕ) → (store_rows services rows w).0 ≡ ok tt
unfolding store_rows
stores rows w = rw (
  when_ok (not (is_nil (extract_derived parsers rows).0)) w,
  when_ok (not (is_nil (extract_derived parsers rows).1)) w,
)

replay_loop-Stuck_example : replay_loop replay_services settings 1000 10 20 7 3 ≡ none
replay_loop-Stuck_example =
    replay_loop-Stuck replay_services settings 10 20 7 (ground arith) refl
      (λ w. (row 7, [], refl, refl)) stores 1000 3

after_idle-max_example : after_idle 5 60 50 10 ≡ 60
after_idle-max_example =
    after_idle-max 5 60 50 10 (omega arith) (omega arith) (omega arith) (omega arith) (omega arith)
      (omega arith) (omega arith)

-- POLL_INTERVAL is above POLL_INTERVAL_MAX.
abbrev polling : PollSettings
polling = record { min = 5; max = 60; initial = 100 }

accepted : validate_polling polling ≡ some polling
unfolding validate_polling
accepted = refl

run-InBounds_example : InBounds polling (
    interval polling
      (Run.run services settings polling 3
        (new_running polling (record { last_reorg = 0; outside = 100 }))).poll_interval)
run-InBounds_example =
    run-InBounds services settings polling polling (omega arith) (omega arith) accepted 3
      (record { last_reorg = 0; outside = 100 })

-- The JSON of the server first, then the XDR.
abbrev xdr_parsers : Parsers
xdr_parsers = record parsers { normalize_value = λ xdr json. if is_empty json then xdr else json }

abbrev answer : DecodeInput → Option Decoded
answer i = some (record {
  status = text "decoded";
  event_name = text "Transfer";
  version = 2;
  summary = i.value_json;
  fields = none;
})

fetched-Parsed : All (Parsed xdr_parsers) (fetched 41 ∷ fetched 45 ∷ [])
unfolding Parsed
fetched-Parsed = ((refl, refl), ((refl, refl), tt))

replayed-ingested_example :
    All (Enriched answer) (ingested {W = ℕ} xdr_parsers answer 1 2 (fetched 41 ∷ fetched 45 ∷ []) 0)
    × (replayed {W = ℕ} xdr_parsers answer 1 2
          (ingested {W = ℕ} xdr_parsers answer 1 2 (fetched 41 ∷ fetched 45 ∷ []) 0)
          0
        ≡ map
            (at_time 2)
            (ingested {W = ℕ} xdr_parsers answer 1 2 (fetched 41 ∷ fetched 45 ∷ []) 0))
replayed-ingested_example =
    replayed-ingested {W = ℕ} xdr_parsers answer 1 2 (fetched 41 ∷ fetched 45 ∷ []) 0 0
      fetched-Parsed

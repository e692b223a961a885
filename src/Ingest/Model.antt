-- ===== src/Ingest/Model.antt =====
-- internal/module/ingest/model/event.go, and the settings of config/config.go that the ingest reads.
use naralabs_atlas.Prelude.{ℕ, Bool, Option, List, Text}

-- The event that is stored. Times are `none` for the zero time.
pub record ContractEvent : Type 0 where
  pub id : Text
  pub network : Text
  pub contract_id : Text
  pub ledger : ℕ
  pub txn_hash : Text
  pub event_type : ℕ
  pub topics_xdr : List Text
  pub value_xdr : Text
  pub topics_json : Text
  pub value_json : Text
  pub semantic_decoded : Bool
  pub decoded_event_name : Text
  pub schema_version : ℕ
  pub decode_summary : Text
  pub decoded_fields_json : Text
  pub ingested_at : Option ℕ

pub record EventAddress : Type 0 where
  pub network : Text
  pub address : Text
  pub contract_id : Text
  pub event_id : Text
  pub ledger : ℕ
  pub role : Text
  pub ingested_at : Option ℕ

pub record TokenEvent : Type 0 where
  pub network : Text
  pub contract_id : Text
  pub event_id : Text
  pub ledger : ℕ
  pub token_symbol : Text
  pub token_amount : Text
  pub from_address : Text
  pub to_address : Text
  pub action : Text
  pub ingested_at : Option ℕ

-- What identifies a stored event: the sorting key of the table `events`.
pub record Key : Type 0 where
  pub network : Text
  pub contract_id : Text
  pub ledger : ℕ
  pub id : Text

abbrev pub key_of : ContractEvent → Key
key_of e = record { network = e.network; contract_id = e.contract_id; ledger = e.ledger; id = e.id }

-- Settings; `watched` is WatchedContractIDs(), and durations are int64 patterns.
pub record Settings : Type 0 where
  pub network : Text
  pub retention_ledgers : ℕ
  pub start_ledger_raw : Text
  pub page_limit : ℕ
  pub batch_size : ℕ
  pub reorg_window : ℕ
  pub reorg_interval : ℕ
  pub backfill_batch_size : ℕ
  pub backfill_interval : ℕ
  pub replay_batch_size : ℕ
  pub watched : List Text

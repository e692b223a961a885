-- ===== src/Stellar/Model.antt =====
-- internal/client/stellar/stellar_dto.go, and what the RPC server's answers hold.
use naralabs_atlas.Prelude.{ℕ, List, [], Text, text, text_eq, if◌then◌else◌, u32}

pub record FetchEventsInput : Type 0 where
  pub network : Text
  pub start_ledger : ℕ
  pub end_ledger : ℕ
  pub limit : ℕ
  pub cursor : Text
  pub contract_ids : List Text

-- rpc.EventInfo of the SDK, the fields that are read.
pub record EventInfo : Type 0 where
  pub id : Text
  pub contract_id : Text
  pub ledger : ℕ
  pub transaction_hash : Text
  pub event_type : Text
  pub topic_xdr : List Text
  pub value_xdr : Text
  pub topic_json : List Text
  pub value_json : Text

-- `ingested_at` is the zero time in all that this package makes, and is left out here.
pub record ContractEvent : Type 0 where
  pub id : Text
  pub network : Text
  pub contract_id : Text
  pub ledger : ℕ
  pub txn_hash : Text
  pub event_type : ℕ
  pub topics_xdr : List Text
  pub value_xdr : Text
  pub topics_json : List Text
  pub value_json : Text

-- eventTypeToUint32; the SDK spells the types so.
unfoldable pub event_type_to_uint32 : Text → ℕ
event_type_to_uint32 t =
    if text_eq t (text "contract")
    then 1
    else if text_eq t (text "system")
    then 0
    else if text_eq t (text "diagnostic")
    then 2
    else 0

-- mapEvent
unfoldable pub map_event : Text → EventInfo → ContractEvent
unfolding event_type_to_uint32
map_event network e = record {
  id = e.id;
  network = network;
  contract_id = e.contract_id;
  ledger = u32 e.ledger;
  txn_hash = e.transaction_hash;
  event_type = event_type_to_uint32 e.event_type;
  topics_xdr = e.topic_xdr;
  value_xdr = e.value_xdr;
  topics_json = e.topic_json;
  value_json = e.value_json;
}

-- rpc.GetEventsResponse of the SDK, the fields that are read.
pub record Response : Type 0 where
  pub events : List EventInfo
  pub cursor : Text
  pub latest_ledger : ℕ

-- pageResult
pub record PageResult : Type 0 where
  pub events : List ContractEvent
  pub cursor : Text
  pub latest_ledger : ℕ

-- The zero value of the variables page, nextCursor and latestLedger.
abbrev pub no_page : PageResult
no_page = record { events = []; cursor = []; latest_ledger = 0 }

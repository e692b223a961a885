-- ===== src/Ingest/Materialize.antt =====
-- internal/module/ingest/service: event_materializer.go, semantic_enricher.go, realtime_publish.go and
-- ExtractDerived of helpers.go. The text that lib/scval, lib/scval/address, lib/scval/token and the
-- decode service compute is a parameter here.
pub mod Keys
pub mod Replayed
use naralabs_atlas.Prelude.{
  ℕ, ◌%◌, Bool, false, Option, none, some, List, [], ◌∷◌, ◌++◌, Text, text, text_eq, ltb,
  if◌then◌else◌, u32,
}
use naralabs_atlas.Stellar.Model
use naralabs_atlas.Ingest.Model.{ContractEvent, EventAddress, TokenEvent, Key}

-- What lib/scval and its packages compute of an event's text. An address row is the address and its role;
-- a transfer hint is symbol, amount, from, to and action.
pub record Row : Type 0 where
  pub address : Text
  pub role : Text

pub record TransferHint : Type 0 where
  pub action : Text
  pub symbol : Text
  pub amount : Text
  pub from : Text
  pub to : Text

pub record Parsers : Type 0 where
  pub normalize_topics : List Text → List Text → Text
  pub normalize_value : Text → Text → Text
  pub extract_addresses : Text → Text → List Row
  pub extract_transfer : Text → Text → Option TransferHint

-- decoderservice's answer about an event, the parts that are read; `fields` is the JSON of result.Fields,
-- `none` if there are none.
pub record Decoded : Type 0 where
  pub status : Text
  pub event_name : Text
  pub version : ℕ
  pub summary : Text
  pub fields : Option Text

-- The columns that applyOne sets.
with_fields : Option Text → ContractEvent → ContractEvent
with_fields none e = e
with_fields (some raw) e = record e { decoded_fields_json = raw }

with_version : ℕ → ContractEvent → ContractEvent
with_version v e = if ltb 0 v then record e { schema_version = v % 65536 } else e

-- applyOne; `none` is topics that are no JSON array, or an error of Decode.
pub apply_one : Option Decoded → ContractEvent → ContractEvent
unfolding with_fields with_version
apply_one none e = e
apply_one (some d) e =
    with_fields d.fields
      (record (with_version d.version (record e {
        semantic_decoded = text_eq d.status (text "decoded");
        decoded_event_name = d.event_name;
      })) { decode_summary = d.summary })

-- Event i of the batch, with its ingest time set where `bump` is.
pub stamp : Bool → ℕ → ContractEvent → ContractEvent
stamp bump now e = if bump then record e { ingested_at = some now } else e

module _ {W : Type 0} (decode : ContractEvent → W → Option Decoded × W) where
  -- ApplyBatch: the events in order, each with the answer of the decode service.
  unfoldable pub apply_batch : Bool → ℕ → List ContractEvent → W → List ContractEvent × W
  unfolding stamp
  apply_batch bump now [] w = ([], w)
  apply_batch bump now (e ∷ es) w =
      let (d, w₁) = decode e w in
      let (rest, w₂) = apply_batch bump now es w₁ in (stamp bump now (apply_one d e) ∷ rest, w₂)

module _ (p : Parsers) where
  -- materializeEvent
  materialize_event : Model.ContractEvent → ContractEvent
  materialize_event e = record {
    id = e.id;
    network = e.network;
    contract_id = e.contract_id;
    ledger = e.ledger;
    txn_hash = e.txn_hash;
    event_type = e.event_type;
    topics_xdr = e.topics_xdr;
    value_xdr = e.value_xdr;
    topics_json = p.normalize_topics e.topics_xdr e.topics_json;
    value_json = p.normalize_value e.value_xdr e.value_json;
    semantic_decoded = false;
    decoded_event_name = [];
    schema_version = 0;
    decode_summary = [];
    decoded_fields_json = [];
    ingested_at = none;
  }

  -- MaterializeEvents
  pub materialize_events : List Model.ContractEvent → List ContractEvent
  materialize_events [] = []
  materialize_events (e ∷ es) = materialize_event e ∷ materialize_events es

  -- rematerialize of replay_service.go: the text anew from the XDR alone.
  rematerialize_event : ContractEvent → ContractEvent
  rematerialize_event e = record {
    id = e.id;
    network = e.network;
    contract_id = e.contract_id;
    ledger = e.ledger;
    txn_hash = e.txn_hash;
    event_type = e.event_type;
    topics_xdr = e.topics_xdr;
    value_xdr = e.value_xdr;
    topics_json = p.normalize_topics e.topics_xdr [];
    value_json = p.normalize_value e.value_xdr [];
    semantic_decoded = e.semantic_decoded;
    decoded_event_name = [];
    schema_version = 0;
    decode_summary = [];
    decoded_fields_json = [];
    ingested_at = e.ingested_at;
  }

  pub rematerialize : List ContractEvent → List ContractEvent
  rematerialize [] = []
  rematerialize (e ∷ es) = rematerialize_event e ∷ rematerialize es

  address_rows : ContractEvent → List Row → List EventAddress
  address_rows e [] = []
  address_rows e (r ∷ rs) =
      record {
        network = e.network;
        address = r.address;
        contract_id = e.contract_id;
        event_id = e.id;
        ledger = e.ledger;
        role = r.role;
        ingested_at = e.ingested_at;
      }
      ∷ address_rows e rs

  token_rows : ContractEvent → Option TransferHint → List TokenEvent
  token_rows e none = []
  token_rows e (some h) =
      record {
        network = e.network;
        contract_id = e.contract_id;
        event_id = e.id;
        ledger = e.ledger;
        token_symbol = h.symbol;
        token_amount = h.amount;
        from_address = h.from;
        to_address = h.to;
        action = h.action;
        ingested_at = e.ingested_at;
      }
      ∷ []

  -- ExtractDerived
  pub extract_derived : List ContractEvent → List EventAddress × List TokenEvent
  unfolding address_rows token_rows
  extract_derived [] = ([], [])
  extract_derived (e ∷ es) =
      let (addresses, tokens) = extract_derived es in
      (
        address_rows e (p.extract_addresses e.topics_json e.value_json) ++ addresses,
        token_rows e (p.extract_transfer e.topics_json e.value_json) ++ tokens,
      )

-- LastIngestedLedger of mapIngestMessage, from the value so far; `u32` is the conversion in its test.
pub last_ingested : ℕ → List ContractEvent → ℕ
last_ingested last [] = last
last_ingested last (e ∷ es) = last_ingested (if ltb (u32 last) e.ledger then e.ledger else last) es

-- The key of the stored event that a fetched event becomes.
abbrev pub key_of_fetched : Model.ContractEvent → Key
key_of_fetched e = record {
  network = e.network;
  contract_id = e.contract_id;
  ledger = e.ledger;
  id = e.id;
}

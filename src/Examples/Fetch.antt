-- ===== src/Examples/Fetch.antt =====
-- FetchEvents on servers with one event per page.
use naralabs_atlas.Prelude.{
  ℕ, ◌+◌, ◌≡◌, ◌<◌, ◌≤◌, refl, some, List, [], ◌∷◌, arith, Text, text, Result, ok, err, ap, length,
  concat, All, ltb, if◌then◌else◌,
}
use naralabs_atlas.RpcChain.Errors.{Error}
use naralabs_atlas.Stellar.Model.{FetchEventsInput, ContractEvent, PageResult}
use naralabs_atlas.Stellar.Model.{EventInfo, Response}
use naralabs_atlas.Stellar.Client.{Request}
use naralabs_atlas.Stellar.RpcClient.{
  Answered, request_of, fetch_events_of, fetch_events_of-Answered,
}
use naralabs_atlas.Stellar.Batches.{
  build_filter_batches, concat-build_filter_batches, sizes-build_filter_batches,
}
use naralabs_atlas.Stellar.Fetch.{next_ledger, fetch_loop}
use naralabs_atlas.Stellar.Fetch.OnePage.{fetch_loop_one_page}
use naralabs_atlas.Stellar.Fetch.Progress.{Ended, fetch_loop-Ended}

abbrev event : ℕ → ContractEvent
event ledger = record {
  id = text "1";
  network = text "testnet";
  contract_id = text "C";
  ledger = ledger;
  txn_hash = [];
  event_type = 1;
  topics_xdr = [];
  value_xdr = [];
  topics_json = [];
  value_json = [];
}

-- A full page, with a cursor to more, from servers at the ledger 90.
abbrev page : PageResult
page = record { events = event 50 ∷ []; cursor = text "50-1"; latest_ledger = 90 }

abbrev get : FetchEventsInput → ℕ → Result Error PageResult × ℕ
get input s = (ok page, s + 1)

abbrev request : FetchEventsInput
request = record {
  network = text "testnet";
  start_ledger = 50;
  end_ledger = 90;
  limit = 4;
  cursor = [];
  contract_ids = [];
}

fetch_loop_one_page_example :
    (fetch_loop get 5 request 50 [] [] 0
      ≡ some (record { events = ok (event 50 ∷ []); ledger = next_ledger 50 page }, 1))
    × (90 ≤ next_ledger 50 page)
fetch_loop_one_page_example =
    fetch_loop_one_page get 4 request 50 [] [] 0 1 page (omega arith) (omega arith) refl

-- A server that answers with an empty page.
abbrev get_none : FetchEventsInput → ℕ → Result Error PageResult × ℕ
get_none input s = (ok (record { events = []; cursor = []; latest_ledger = 60 }), s)

in_limit :
    (i : FetchEventsInput) (p : PageResult) → (get_none i 0).0 ≡ ok p → length p.events ≤ i.limit
in_limit i p e =
    let none_there : 0 ≡ length p.events =
      ap (λ r. elim r [ ok q ↦ length q.events | err x ↦ 0 ]) e in
    omega arith

fetch_loop-Ended_example : Ended 50 8 (fetch_loop get_none 5 request 50 [] [] 0)
fetch_loop-Ended_example =
    fetch_loop-Ended get_none (λ i s p e. in_limit i p e) 5 request 50 [] [] 0 (omega arith)
      (omega arith) (omega arith) (omega arith)

abbrev ids : List Text
ids = text "A" ∷ text "B" ∷ text "C" ∷ []

concat-build_filter_batches_example : concat (build_filter_batches ids 2) ≡ ids
concat-build_filter_batches_example = concat-build_filter_batches ids 2

sizes-build_filter_batches_example :
    All
      (λ b. (0 < length b) × (length b ≤ (if ltb 0 2 then 2 else 25)))
      (build_filter_batches ids 2)
sizes-build_filter_batches_example = sizes-build_filter_batches ids 2 (omega arith)

abbrev info : EventInfo
info = record {
  id = text "1";
  contract_id = text "C";
  ledger = 50;
  transaction_hash = text "T";
  event_type = text "contract";
  topic_xdr = [];
  value_xdr = [];
  topic_json = [];
  value_json = [];
}

abbrev answers : Request → ℕ → Result Error Response × ℕ
answers r w = (ok (record { events = info ∷ []; cursor = text "50-1"; latest_ledger = 90 }), w + 1)

fetch_events_of-Answered_example :
    Answered
      (text "testnet")
      50
      (answers (request_of request) 0)
      (fetch_events_of answers (text "testnet") request 0)
fetch_events_of-Answered_example = fetch_events_of-Answered answers (text "testnet") request 0

-- ===== src/Stellar/RpcClient.antt =====
-- internal/client/stellar/stellar_rpc_client.go: the client of one server, without retries. `get_events` and
-- `get_latest` are the SDK's calls.
use naralabs_atlas.Prelude.{
  ℕ, ◌≤◌, ◌≡◌, ◌⊎◌, ◌%◌, ◌^◌, Bool-cases, ltb→lt, ltb→le, inl, inr, text_eq, text_eq_sound, false,
  [], ◌∷◌, refl, arith, List, map, none, Result, ok, err, text, is_empty, if◌then◌else◌, ltb,
  Option, some,
}
use naralabs_atlas.RpcChain.Errors.{Error, wrapped}
use naralabs_atlas.Stellar.Model.{
  FetchEventsInput, ContractEvent, EventInfo, Response, map_event, event_type_to_uint32,
}
use naralabs_atlas.Prelude.{Text}
use naralabs_atlas.Stellar.Batches.{build_event_filters}
use naralabs_atlas.Stellar.Client.{Request}
use naralabs_atlas.Stellar.Fetch.{parse_cursor_ledger}

past : ℕ → Option ℕ → ℕ
past start none = start
past start (some parsed) = if ltb start parsed then parsed else start

-- nextLedger
pub ledger_after : ℕ → Response → ℕ
unfolding past
ledger_after start r =
    let next = if is_empty r.cursor then start else past start (parse_cursor_ledger r.cursor) in
    if ltb next r.latest_ledger then r.latest_ledger else next

pub request_of : FetchEventsInput → Request
request_of input = record {
  start_ledger = input.start_ledger;
  limit = input.limit;
  cursor = none;
  filters = build_event_filters input.contract_ids;
}

module _ {W : Type 0} where
  sequence_of : Result Error ℕ × W → Result Error ℕ × W
  sequence_of (err e, w) = (err (wrapped (text "get latest ledger: ") e), w)
  sequence_of (ok n, w) = (ok n, w)

  -- RPCClient.LatestLedger
  pub latest_ledger_of : (W → Result Error ℕ × W) → W → Result Error ℕ × W
  unfolding sequence_of
  latest_ledger_of get_latest w = sequence_of (get_latest w)

  events_of :
      Text
      → FetchEventsInput
      → Result Error Response × W
      → (Result Error (List ContractEvent) × ℕ) × W
  unfolding ledger_after
  events_of network input (err e, w) = ((err (wrapped (text "get events: ") e), 0), w)
  events_of network input (ok r, w) =
      ((ok (map (map_event network) r.events), ledger_after input.start_ledger r), w)

  -- RPCClient.FetchEvents
  pub fetch_events_of :
      (Request → W → Result Error Response × W)
      → Text
      → FetchEventsInput
      → W
      → (Result Error (List ContractEvent) × ℕ) × W
  unfolding events_of
  fetch_events_of get_events network input w =
      events_of network input (get_events (request_of input) w)

-- The types of events as the ingest numbers them.
TypeOf : Text → ℕ → Type 0
TypeOf t n =
    ((t ≡ text "contract") × (n ≡ 1))
    ⊎ ((t ≡ text "diagnostic") × (n ≡ 2))
    ⊎ ((text_eq t (text "contract") ≡ false) × (text_eq t (text "diagnostic") ≡ false) × (n ≡ 0))

-- An event of the server and what is made of it.
Mapped : Text → EventInfo → ContractEvent → Type 0
Mapped network i e =
    (e.network ≡ network)
    × (e.id ≡ i.id)
    × (e.contract_id ≡ i.contract_id)
    × (e.ledger ≡ i.ledger % 2 ^ 32)
    × (e.txn_hash ≡ i.transaction_hash)
    × TypeOf i.event_type e.event_type
    × (e.topics_xdr ≡ i.topic_xdr)
    × (e.value_xdr ≡ i.value_xdr)
    × (e.topics_json ≡ i.topic_json)
    × (e.value_json ≡ i.value_json)

-- The events of two lists, one by one
AllMapped : Text → List EventInfo → List ContractEvent → Type 0
AllMapped network [] [] = Unit
AllMapped network [] (e ∷ es) = ⊥
AllMapped network (i ∷ is) [] = ⊥
AllMapped network (i ∷ is) (e ∷ es) = Mapped network i e × AllMapped network is es

-- No ledger of the list is above the number.
AtMost : ℕ → Option ℕ → Type 0
AtMost n none = Unit
AtMost n (some c) = c ≤ n

-- The ledger of a cursor, if it has one
cursor_ledger : Response → Option ℕ
cursor_ledger r = if is_empty r.cursor then none else parse_cursor_ledger r.cursor

-- The greatest of StartLedger, the server's latest ledger and the ledger of the cursor, if it has one.
IsNext : ℕ → Response → ℕ → Type 0
IsNext start r next =
    (start ≤ next)
    × (r.latest_ledger ≤ next)
    × AtMost next (cursor_ledger r)
    × ((next ≡ start) ⊎ (next ≡ r.latest_ledger) ⊎ (cursor_ledger r ≡ some next))

-- What FetchEvents makes of the server's answer, from StartLedger.
pub Answered :
    {W : Type 0}
    → Text
    → ℕ
    → Result Error Response × W
    → (Result Error (List ContractEvent) × ℕ) × W
    → Type 0
Answered network start (ok r, w) ((ok es, next), w') =
    AllMapped network r.events es × IsNext start r next × (w' ≡ w)
Answered network start (ok r, w) ((err e, next), w') = ⊥
Answered network start (err e, w) ((ok es, next), w') = ⊥
Answered network start (err e, w) ((err e', next), w') =
    (e' ≡ wrapped (text "get events: ") e) × (next ≡ 0) × (w' ≡ w)

event_type_to_uint32-TypeOf : (t : Text) → TypeOf t (event_type_to_uint32 t)
unfolding TypeOf event_type_to_uint32
event_type_to_uint32-TypeOf t = elim (Bool-cases (text_eq t (text "contract"))) [
  | inl e ↦ rw e (inl (text_eq_sound t (text "contract") e, refl))
  | inr e ↦ elim (Bool-cases (text_eq t (text "diagnostic"))) [
    | inl f ↦ let e' = text_eq_sound t (text "diagnostic") f in rw e' (inr (inl (refl, refl)))
    | inr f ↦ elim (Bool-cases (text_eq t (text "system"))) [
      | inl g ↦ rw (e, f, g) (inr (inr (refl, refl, refl)))
      | inr g ↦ rw (e, f, g) (inr (inr (refl, refl, refl)))
    ]
  ]
]

map_event-Mapped : (network : Text) (i : EventInfo) → Mapped network i (map_event network i)
unfolding Mapped map_event
map_event-Mapped network i =
    (refl, refl, refl, refl, refl, event_type_to_uint32-TypeOf i.event_type, refl, refl, refl, refl)

map-AllMapped :
    (network : Text) (is : List EventInfo) → AllMapped network is (map (map_event network) is)
unfolding AllMapped
map-AllMapped network [] = tt
map-AllMapped network (i ∷ is) = (map_event-Mapped network i, map-AllMapped network is)

next_of : (start latest : ℕ) (o : Option ℕ) → ℕ
unfolding past
next_of start latest o = if ltb (past start o) latest then latest else past start o

next_of-cases :
    (start latest : ℕ) (o : Option ℕ)
    → (start ≤ next_of start latest o)
      × (latest ≤ next_of start latest o)
      × AtMost (next_of start latest o) o
      × ((next_of start latest o ≡ start)
          ⊎ (next_of start latest o ≡ latest)
          ⊎ (o ≡ some (next_of start latest o)))
unfolding next_of past AtMost
next_of-cases start latest none = ground arith
next_of-cases start latest (some c) = elim (Bool-cases (ltb start c)) [
  | inl e ↦ rw e (elim (Bool-cases (ltb c latest)) [
    | inl f ↦ rw f (
      omega (arith, ltb→lt start c e, ltb→lt c latest f),
      omega arith,
      omega (arith, ltb→lt c latest f),
      inr (inl refl),
    )
    | inr f ↦ rw f (omega (arith, ltb→lt start c e), ltb→le c latest f, omega arith, inr (inr refl))
  ])
  | inr e ↦ rw e (elim (Bool-cases (ltb start latest)) [
    | inl f ↦ rw f (
      omega (arith, ltb→lt start latest f),
      omega arith,
      omega (arith, ltb→le start c e, ltb→lt start latest f),
      inr (inl refl),
    )
    | inr f ↦ rw f (omega arith, ltb→le start latest f, ltb→le start c e, inl refl)
  ])
]

ledger_after-next_of :
    (start : ℕ) (r : Response)
    → ledger_after start r ≡ next_of start r.latest_ledger (cursor_ledger r)
unfolding ledger_after next_of past cursor_ledger
ledger_after-next_of start r = elim (Bool-cases (is_empty r.cursor)) [
  | inl e ↦ rw e refl
  | inr e ↦ rw e refl
]

ledger_after-IsNext : (start : ℕ) (r : Response) → IsNext start r (ledger_after start r)
unfolding IsNext
ledger_after-IsNext start r =
    rw (ledger_after-next_of start r) (next_of-cases start r.latest_ledger (cursor_ledger r))

events_of-Answered :
    {W : Type 0} (network : Text) (input : FetchEventsInput) (r : Result Error Response × W)
    → Answered network input.start_ledger r (events_of network input r)
unfolding events_of Answered
events_of-Answered network input (err e, w) = (refl, refl, refl)
events_of-Answered network input (ok r, w) =
    (map-AllMapped network r.events, ledger_after-IsNext input.start_ledger r, refl)

-- From an answer of the server, RPCClient.FetchEvents returns its events one by one: with the network, with the same
-- identifier, contract, transaction, XDR and JSON, with the ledger as a uint32 and the number of the type. The ledger
-- beside them is the greatest of StartLedger, the server's latest ledger and the ledger of the cursor, if it has one.
-- An error of the server is returned with a prefix, beside the ledger 0.
pub fetch_events_of-Answered :
    {W : Type 0} (get_events : Request → W → Result Error Response × W) (network : Text)
    (input : FetchEventsInput) (w : W)
    → Answered network input.start_ledger
        (get_events (request_of input) w)
        (fetch_events_of get_events network input w)
unfolding fetch_events_of
fetch_events_of-Answered get_events network input w =
    events_of-Answered network input (get_events (request_of input) w)

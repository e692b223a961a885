-- ===== src/Stellar/Fetch.antt =====
-- internal/client/stellar/resilient_client.go: FetchEvents, the loop over the pages; parseCursorLedger
-- of stellar_rpc_client.go.
pub mod OnePage
pub mod Progress
use mathlib.Core.List.{reverse}
use naralabs_atlas.Prelude.{
  is_empty, ℕ, zero, suc, ◌+◌, ◌*◌, ◌-◌, Bool, true, false, ◌&&◌, ◌||◌, not, Option, none, some,
  List, [], ◌∷◌, ◌++◌, Text, ltb, leb, ◌==◌, if◌then◌else◌, Result, ok, err, length, u32,
}
use naralabs_atlas.RpcChain.Errors.{Error}
use naralabs_atlas.RpcChain.Pool.{active_index}
use naralabs_atlas.RpcChain.Retry.{RetryPolicy}
use naralabs_atlas.Stellar.Model.{FetchEventsInput, ContractEvent, PageResult}
use naralabs_atlas.Stellar.Client.{Session, Servers, get_page}

-- strings.Split(cursor, ".")[0]
before_dot : Text → Text
before_dot [] = []
before_dot (c ∷ s) = if c == b'.' then [] else c ∷ before_dot s

is_digit : ℕ → Bool
is_digit c = leb b'0' c && leb c b'9'

-- The value of the digits at the front, from the value `n` so far.
leading_digits : ℕ → Text → ℕ
unfolding is_digit
leading_digits n [] = n
leading_digits n (c ∷ s) =
    let rest = leading_digits (n * 10 + (c - b'0')) s in if is_digit c then rest else n

-- fmt.Sscanf(s, "%d", &ledger) into a uint32: no digit or a value past 2 ^ 32 - 1 is an error. RPC
-- cursors begin with a digit; a sign or white space in front is taken for an error here.
scan_uint32 : Text → Option ℕ
unfolding leading_digits is_digit
scan_uint32 [] = none
scan_uint32 (c ∷ s) =
    let n = leading_digits 0 (c ∷ s) in
    if is_digit c then (if ltb n 4294967296 then some n else none) else none

-- parseCursorLedger; an error is `none`.
unfoldable pub parse_cursor_ledger : Text → Option ℕ
unfolding before_dot scan_uint32
parse_cursor_ledger cursor = scan_uint32 (before_dot cursor)

-- The ledger that the cursor names, where it is past `ledger`.
cursor_or : ℕ → Option ℕ → ℕ
cursor_or ledger none = ledger
cursor_or ledger (some parsed) = if ltb ledger parsed then parsed else ledger

-- nextLedger behind a page
unfoldable pub next_ledger : ℕ → PageResult → ℕ
unfolding cursor_or
next_ledger start page =
    let from_cursor =
      if is_empty page.cursor then start else cursor_or start (parse_cursor_ledger page.cursor) in
    if ltb from_cursor page.latest_ledger then page.latest_ledger else from_cursor

no_events : List ContractEvent → Bool
no_events [] = true
no_events (e ∷ es) = false

-- The three tests that end the loop.
unfoldable pub is_last : FetchEventsInput → PageResult → List ContractEvent → ℕ → Bool
unfolding no_events
is_last input page all next =
    (is_empty page.cursor || no_events page.events)
    || (ltb 0 input.limit && leb input.limit (u32 (length all)))
    || (ltb 0 input.end_ledger && leb input.end_ledger next)

-- pageInput
pub page_input : FetchEventsInput → ℕ → Text → FetchEventsInput
page_input input start cursor = record input {
  start_ledger = start;
  cursor = cursor;
  limit = if input.limit == 0 then 1000 else input.limit;
}

-- The answer of FetchEvents: the error or the events, beside the ledger to go on from.
pub record Fetched : Type 0 where
  pub events : Result Error (List ContractEvent)
  pub ledger : ℕ

-- What a page leads to; `all` is allEvents, and `next` is the rest of the loop.
module _ {S : Type 0} where
  next_page :
      FetchEventsInput
      → ℕ
      → List ContractEvent
      → Result Error PageResult × S
      → (ℕ → Text → List ContractEvent → S → Option (Fetched × S))
      → Option (Fetched × S)
  next_page input start all (err e, s) next = some (record { events = err e; ledger = start }, s)
  next_page input start all (ok p, s) next =
      let all' = all ++ p.events in
      let ledger = next_ledger start p in
      let rest = next ledger p.cursor all' s in
      if is_last input p all' ledger
      then some (record { events = ok all'; ledger = ledger }, s)
      else rest

-- The loop, over the pages that `page` gets. With the fuel at an end the loop has not ended: `none`.
module _ {S : Type 0} (page : FetchEventsInput → S → Result Error PageResult × S) where
  pub fetch_loop : ℕ → FetchEventsInput → ℕ → Text → List ContractEvent → S → Option (Fetched × S)
  unfolding next_page page_input
  fetch_loop zero input start cursor all s = none
  fetch_loop (suc f) input start cursor all s =
      next_page input start all (page (page_input input start cursor) s)
        (λ start' cursor' all' s'. fetch_loop f input start' cursor' all' s')

-- FetchEvents, with `fuel` for the number of pages
pub fetch_events :
    {W : Type 0}
    → Servers W
    → RetryPolicy
    → ℕ
    → Text
    → FetchEventsInput
    → Session W
    → Option (Fetched × Session W)
fetch_events env policy fuel network input s =
    fetch_loop (λ i. get_page env policy (active_index s.pool) i) fuel
      (record input { network = network }) input.start_ledger input.cursor [] s

-- ===== src/Stellar/Fetch/OnePage.antt =====
-- internal/client/stellar/resilient_client.go: FetchEvents asks for one page only, where a server's latest
-- ledger has reached EndLedger.
use naralabs_atlas.Prelude.{
  ℕ, suc, ◌≤◌, ◌<◌, ◌≡◌, true, some, List, ◌++◌, Text, Result, ok, arith, le→leb, if◌then◌else◌,
}
use naralabs_atlas.RpcChain.Errors.{Error}
use naralabs_atlas.Stellar.Model.{FetchEventsInput, ContractEvent, PageResult}
use naralabs_atlas.Stellar.Fetch.{next_ledger, is_last, page_input, next_page, fetch_loop}

latest-le-next_ledger : (start : ℕ) (p : PageResult) → p.latest_ledger ≤ next_ledger start p
unfolding next_ledger
latest-le-next_ledger start p = ground arith

is_last_at_end :
    (input : FetchEventsInput) (p : PageResult) (all : List ContractEvent) (next : ℕ)
    → 0 < input.end_ledger
    → input.end_ledger ≤ next
    → is_last input p all next ≡ true
unfolding is_last
is_last_at_end input p all next h k = ground (arith, le→leb input.end_ledger next k)

-- For any pages, where EndLedger is set and the latest ledger of the first page's answer has reached it: the loop of
-- FetchEvents ends after that page. It returns the events of that page behind those it had and no others,
-- however many more there are, and a ledger to go on from that is no less than the latest ledger.
pub fetch_loop_one_page :
    {S : Type 0} (page : FetchEventsInput → S → Result Error PageResult × S) (f : ℕ)
    (input : FetchEventsInput) (start : ℕ) (cursor : Text) (all : List ContractEvent) (s s' : S)
    (p : PageResult)
    → 0 < input.end_ledger
    → input.end_ledger ≤ p.latest_ledger
    → page (page_input input start cursor) s ≡ (ok p, s')
    → (fetch_loop page (suc f) input start cursor all s
        ≡ some (record { events = ok (all ++ p.events); ledger = next_ledger start p }, s'))
      × (p.latest_ledger ≤ next_ledger start p)
unfolding fetch_loop next_page
fetch_loop_one_page page f input start cursor all s s' p h k e = (
  rw e (
      rw (
        is_last_at_end input p (all ++ p.events) (next_ledger start p) h
            (omega (arith, latest-le-next_ledger start p)),
        if◌then◌else◌,
      )),
  latest-le-next_ledger start p,
)

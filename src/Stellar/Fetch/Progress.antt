-- ===== src/Stellar/Fetch/Progress.antt =====
-- internal/client/stellar/resilient_client.go: the loop of FetchEvents ends, and its ledger does not go back.
use naralabs_atlas.Prelude.{
  ℕ, zero, suc, ◌+◌, ◌*◌, ◌^◌, ◌≤◌, ◌<◌, ◌≡◌, refl, false, Option, none, some, List, [], ◌∷◌, ◌++◌,
  Text, Result, ok, err, arith, if◌then◌else◌, length, length-append, Bool-cases, inl, inr,
}
use naralabs_atlas.RpcChain.Errors.{Error}
use naralabs_atlas.Stellar.Model.{FetchEventsInput, ContractEvent, PageResult}
use naralabs_atlas.Stellar.Fetch.{
  Fetched, next_ledger, cursor_or, is_last, no_events, page_input, next_page, fetch_loop,
}

le-next_ledger : (start : ℕ) (p : PageResult) → start ≤ next_ledger start p
unfolding next_ledger cursor_or
le-next_ledger start p = ground arith

no_events-false : (es : List ContractEvent) → no_events es ≡ false → 0 < length es
unfolding no_events
no_events-false [] h = cc
no_events-false (e ∷ es) h = omega arith

-- A page that is not the last one has an event, and leaves the total below the limit.
is_last-false :
    (input : FetchEventsInput) (p : PageResult) (all : List ContractEvent) (next : ℕ)
    → 0 < input.limit
    → length all < 2 ^ 32
    → is_last input p all next ≡ false
    → (0 < length p.events) × (length all < input.limit)
unfolding is_last
is_last-false input p all next h k e = (no_events-false p.events (ground arith), ground arith)

abbrev pub HasAtMost : ℕ → Result Error (List ContractEvent) → Type 0
HasAtMost n (ok es) = length es ≤ n
HasAtMost n (err e) = Unit

-- The loop has ended, with at least `start` for its ledger and `bound` events at most.
abbrev pub Ended : {S : Type 0} → ℕ → ℕ → Option (Fetched × S) → Type 0
Ended start bound none = ⊥
Ended start bound (some (r, s)) = (start ≤ r.ledger) × HasAtMost bound r.events

Ended-mono :
    {S : Type 0} (start start' bound : ℕ) (r : Option (Fetched × S))
    → start ≤ start'
    → Ended start' bound r
    → Ended start bound r
Ended-mono start start' bound none h e = e
Ended-mono start start' bound (some (r, s)) h e = (omega (arith, e.0), e.1)

page_input-limit :
    (input : FetchEventsInput) (start : ℕ) (cursor : Text)
    → 0 < input.limit
    → (page_input input start cursor).limit ≡ input.limit
unfolding page_input
page_input-limit input start cursor h = ground arith

module _ {S : Type 0} (input : FetchEventsInput) (start : ℕ) (all : List ContractEvent)
    (next : ℕ → Text → List ContractEvent → S → Option (Fetched × S)) (l : 0 < input.limit)
    (b : input.limit ≤ 2 ^ 31) (a : length all < input.limit) where
  next_page-Ended :
      (r : Result Error PageResult × S)
      → ((p : PageResult) → r.0 ≡ ok p → length p.events ≤ input.limit)
      → ((p : PageResult) (start' : ℕ) (cursor' : Text) (s' : S)
          → length all < length (all ++ p.events)
          → length (all ++ p.events) < input.limit
          → Ended start' (2 * input.limit) (next start' cursor' (all ++ p.events) s'))
      → Ended start (2 * input.limit) (next_page input start all r next)
  unfolding next_page
  next_page-Ended (err e, s) size rest = (omega arith, tt)
  next_page-Ended (ok p, s) size rest =
      let total = length-append all p.events in
      elim (Bool-cases (is_last input p (all ++ p.events) (next_ledger start p))) [
        | inl last ↦
            rw (last, if◌then◌else◌) (le-next_ledger start p, omega (arith, total, size p refl))
        | inr more ↦
            let (grows, fits) =
              is_last-false input p (all ++ p.events) (next_ledger start p) l
                (omega (arith, total, size p refl)) more in
            rw (more, if◌then◌else◌)
              (Ended-mono start (next_ledger start p) (2 * input.limit) _ (le-next_ledger start p)
                (rest p (next_ledger start p) p.cursor s (omega (arith, total, grows)) fits))
      ]

module _ {S : Type 0} (page : FetchEventsInput → S → Result Error PageResult × S)
    (in_limit : (i : FetchEventsInput) (s : S) (p : PageResult)
      → (page i s).0 ≡ ok p
      → length p.events ≤ i.limit) where
  -- For pages that have no more events than they were asked for, a limit above 0 and at most 2 ^ 31, fewer events than
  -- the limit so far, and fuel above what is left of the limit: the loop of FetchEvents ends within its fuel. Its
  -- ledger is no less than the one it started from, and without an error it returns at most `2 * limit` events.
  pub fetch_loop-Ended :
      (f : ℕ) (input : FetchEventsInput) (start : ℕ) (cursor : Text) (all : List ContractEvent)
      (s : S)
      → 0 < input.limit
      → input.limit ≤ 2 ^ 31
      → length all < input.limit
      → input.limit < length all + f
      → Ended start (2 * input.limit) (fetch_loop page f input start cursor all s)
  unfolding fetch_loop
  fetch_loop-Ended zero input start cursor all s l b a h = absurd (omega arith)
  fetch_loop-Ended (suc f) input start cursor all s l b a h =
      next_page-Ended input start all _ l b a (page (page_input input start cursor) s)
        (λ p e.
          rw (page_input-limit input start cursor l) at
            (in_limit (page_input input start cursor) s p e))
        (λ p start' cursor' s' grows fits.
          fetch_loop-Ended f input start' cursor' (all ++ p.events) s' l b fits (omega arith))

-- ===== src/Stellar/Client.antt =====
-- internal/client/stellar/resilient_client.go: `call`, `fetchPage` and `LatestLedger`. A session is the
-- client's pool and throttle with the outside. A page that is read goes to a captured variable, which
-- is a part of the outside that the callback sees.
use naralabs_atlas.Prelude.{
  is_empty, ℕ, ◌&&◌, Bool, false, not, Option, none, some, List, map, Text, text, if◌then◌else◌,
  Result, ok, err, ◌==◌,
}
use naralabs_atlas.RpcChain.Errors.{Error, reanchor_cursor, panic, wrapped, mark_retryable}
use naralabs_atlas.RpcChain.Pool.{Pool, Endpoint, active_index}
use naralabs_atlas.RpcChain.Pool
use naralabs_atlas.RpcChain.Retry.{Waiting, RetryPolicy, do_retry}
use naralabs_atlas.RpcChain.Throttle.{Throttle}
use naralabs_atlas.RpcChain.Throttle
use naralabs_atlas.Stellar.Model.{FetchEventsInput, Response, PageResult, no_page, map_event}
use naralabs_atlas.Stellar.Batches.{EventFilter, build_event_filters}

pub record Session (W : Type 0) : Type 0 where
  pub pool : Pool
  pub throttle : Throttle
  pub outside : W

-- rpc.GetEventsRequest of the SDK.
pub record Request : Type 0 where
  pub start_ledger : ℕ
  pub limit : ℕ
  pub cursor : Option Text
  pub filters : List EventFilter

-- The outside: clock, context, timer and random source, and the servers by their URL. `cursor_error` is
-- the error of rpc.ParseCursor, if any.
pub record Servers (W : Type 0) : Type 0 where
  pub clock : W → ℕ × W
  pub waiting : Waiting W
  pub latest : Text → W → Result Error ℕ × W
  pub get_events : Text → Request → W → Result Error Response × W
  pub cursor_error : Text → Option Error

module _ {W : Type 0} (env : Servers W) where
  open env use {clock, waiting, latest, get_events, cursor_error}

  -- The context, timer and random source, seen from a session.
  abbrev lift : {A V : Type 0} → (W → A × W) → Session (W × V) → A × Session (W × V)
  lift f s = let (a, w) = f s.outside.0 in (a, record s { outside = (w, s.outside.1) })

  abbrev session_waiting : {V : Type 0} → Waiting (Session (W × V))
  session_waiting = record {
    ctx_err = lift waiting.ctx_err;
    sleep = λ d. lift (waiting.sleep d);
    scale = λ d. lift (waiting.scale d);
  }

  -- `V` is the captured variable of the callback `fn`.
  module _ {V : Type 0} (fn : Pool → Endpoint → W × V → Option Error × (W × V)) where
    abbrev capture : (A : Type 0) → (W → A × W) → W × V → A × (W × V)
    capture A f (w, v) = let (a, w') = f w in (a, (w', v))

    pool_answer : Session (W × V) → Pool.Answer (W × V) → Option Error × Session (W × V)
    pool_answer s none = (some panic, s)
    pool_answer s (some (e, p, w)) = (e, record s { pool = p; outside = w })

    after_throttle :
        Session (W × V) → Option Error × Throttle × (W × V) → Option Error × Session (W × V)
    unfolding pool_answer
    after_throttle s (some e, t, w) = (some e, record s { throttle = t; outside = w })
    after_throttle s (none, t, w) =
        pool_answer (record s { throttle = t; outside = w })
          (Pool.call (capture ℕ clock) fn s.pool w)

    attempt : Session (W × V) → Option Error × Session (W × V)
    unfolding after_throttle
    attempt s = after_throttle s (
        Throttle.wait (capture ℕ clock) (λ d. capture (Option Error) (waiting.sleep d)) s.throttle
          s.outside)

    -- call
    call : RetryPolicy → Session (W × V) → Option Error × Session (W × V)
    unfolding attempt
    call policy s = do_retry session_waiting attempt policy s

  page_of : FetchEventsInput → Result Error Response × W → Result Error PageResult × W
  page_of input (err e, w) = (err e, w)
  page_of input (ok r, w) = (
    ok (record {
      events = map (map_event input.network) r.events;
      cursor = r.cursor;
      latest_ledger = r.latest_ledger;
    }),
    w,
  )

  request : FetchEventsInput → Option Text → Request
  request input cursor = record {
    start_ledger = input.start_ledger;
    limit = input.limit;
    cursor = cursor;
    filters = build_event_filters input.contract_ids;
  }

  -- rpcchain.Retryable about the server's error
  mark : {A : Type 0} → Result Error A × W → Result Error A × W
  mark (ok a, w) = (ok a, w)
  mark (err e, w) = elim (mark_retryable (some e)) [ none ↦ (err e, w) | some e' ↦ (err e', w) ]

  ask : Text → FetchEventsInput → Option Text → W → Result Error PageResult × W
  unfolding page_of request mark
  ask url input cursor w = page_of input (mark (get_events url (request input cursor) w))

  -- fetchPage
  fetch_page : Text → FetchEventsInput → W → Result Error PageResult × W
  unfolding ask
  fetch_page url input w =
      if is_empty input.cursor then ask url input none w else elim (cursor_error input.cursor) [
        | some e ↦ (err (wrapped (text "parse rpc cursor: ") e), w)
        | none ↦ ask url input (some input.cursor) w
      ]

  -- The end of the callback: the page, cursor and ledger go to the captured variables.
  store_page : PageResult → Result Error PageResult × W → Option Error × (W × PageResult)
  store_page old (err e, w) = (some e, (w, old))
  store_page old (ok p, w) = (none, (w, p))

  -- startEndpoint >= 0 && cursor != "" && ActiveIndex() >= 0 && ActiveIndex() != startEndpoint
  moved : Option ℕ → Text → Option ℕ → Bool
  moved none cursor active = false
  moved (some a) cursor none = false
  moved (some a) cursor (some b) = not (is_empty cursor) && not (b == a)

  -- The callback of FetchEvents.
  page_callback :
      Option ℕ
      → FetchEventsInput
      → Pool
      → Endpoint
      → W × PageResult
      → Option Error × (W × PageResult)
  unfolding moved store_page fetch_page
  page_callback start input pool endpoint (w, old) =
      if moved start input.cursor (active_index pool)
      then (some reanchor_cursor, (w, old))
      else store_page old (fetch_page endpoint.url input w)

  captured : {V : Type 0} → V → Session W → Session (W × V)
  captured v s = record { pool = s.pool; throttle = s.throttle; outside = (s.outside, v) }

  uncaptured : {V : Type 0} → Session (W × V) → Session W
  uncaptured s = record { pool = s.pool; throttle = s.throttle; outside = s.outside.0 }

  -- What `call` returned, and what is in the captured variable then.
  page_answer : {V : Type 0} → Option Error × Session (W × V) → Result Error V × Session W
  page_answer (some e, s) = (err e, uncaptured s)
  page_answer (none, s) = (ok s.outside.1, uncaptured s)

  -- One page: c.call with the variables page, nextCursor and latestLedger at their zero values.
  pub get_page :
      RetryPolicy → Option ℕ → FetchEventsInput → Session W → Result Error PageResult × Session W
  unfolding call page_callback page_answer captured uncaptured
  get_page policy start input s =
      page_answer (call (page_callback start input) policy (captured no_page s))

  store_sequence : ℕ → Result Error ℕ × W → Option Error × (W × ℕ)
  store_sequence old (err e, w) = (some e, (w, old))
  store_sequence old (ok n, w) = (none, (w, n))

  -- LatestLedger; the sequence is 0 beside an error.
  pub latest_ledger : RetryPolicy → Session W → Result Error ℕ × Session W
  unfolding call store_sequence mark page_answer captured uncaptured
  latest_ledger policy s = page_answer (
      call (λ pool endpoint w. store_sequence w.1 (mark (latest endpoint.url w.0))) policy
        (captured 0 s))

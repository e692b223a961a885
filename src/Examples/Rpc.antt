-- ===== src/Examples/Rpc.antt =====
-- lib/rpcchain on two endpoints, the first of which fails for a while.
use naralabs_atlas.Prelude.{
  ℕ, ◌+◌, ◌≡◌, refl, ap, ◌∙◌, true, false, Option, none, some, [], ◌∷◌, arith, text, ltb,
  if◌then◌else◌, pos_i64,
}
use naralabs_atlas.RpcChain.Errors.{
  Error, Retry, as_retryable, plain, retryable, all_endpoints_down,
}
use naralabs_atlas.RpcChain.Pool.{Endpoint, EndpointState, Pool, pick, call}
use naralabs_atlas.RpcChain.Pool.Total.{IsValid, addresses, Settled, call-Settled}
use naralabs_atlas.RpcChain.Pool.Order.{rotated, Extends, logged_fn, logged_clock, call_order}
use naralabs_atlas.RpcChain.Pool.Down.{call_while_down}
use naralabs_atlas.RpcChain.Retry.{RetryPolicy, Waiting, normalise, default_retry_policy, do_retry}
use naralabs_atlas.RpcChain.Retry.Attempts
use naralabs_atlas.RpcChain.Retry.Attempts.{
  Within, Exactly, After, do_retry-Within, do_retry-Exactly,
}
use naralabs_atlas.RpcChain.Retry.Backoff
use naralabs_atlas.RpcChain.Retry.Backoff.{Doubling, Waits, do_retry-Doubling}
use naralabs_atlas.RpcChain.Throttle.{Throttle, wait}
use naralabs_atlas.RpcChain.Throttle.Spacing.{Granted, wait-Granted}

abbrev state : ℕ → EndpointState
state until = record {
  endpoint = record { url = text "https://a"; label = text "a" };
  errors = 0;
  down_until = until;
}

abbrev pool : ℕ → Pool
pool until = record { endpoints = state until ∷ state until ∷ []; active = some 1 }

pool-IsValid : (until : ℕ) → IsValid (pool until)
pool-IsValid until = record { some_endpoint = omega arith; active_in_range = λ a e. ground arith }

-- The outside is the time.
abbrev clock : ℕ → ℕ × ℕ
clock w = (w, w)

abbrev busy : Error
busy = retryable (plain (text "429 Too Many Requests") false) true 0

abbrev flaky : ℕ → Option Error × ℕ
flaky w = if ltb w 3 then (some busy, w + 1) else (none, w)

abbrev flaky_endpoint : Pool → Endpoint → ℕ → Option Error × ℕ
flaky_endpoint p e w = flaky w

call-Settled_example : Settled (pool 0) (call clock flaky_endpoint (pool 0) 2)
call-Settled_example = call-Settled clock flaky_endpoint (pool 0) 2 (pool-IsValid 0)

call_order_example :
    (start : ℕ) × (pick (pool 0) 2 ≡ some start)
    × Extends
        (rotated (addresses (pool 0)) 2 start 0)
        []
        (call (logged_clock clock) (logged_fn flaky_endpoint) (pool 0) (2, []))
call_order_example = call_order clock flaky_endpoint (pool 0) 2 (pool-IsValid 0)

abbrev stopped : ℕ → ℕ × ℕ
stopped w = (5, w)

call_while_down_example :
    (w : ℕ) × (call (logged_clock stopped) (logged_fn flaky_endpoint) (pool 9) (0, [])
      ≡ some (some all_endpoints_down, pool 9, (w, [])))
call_while_down_example =
    call_while_down stopped flaky_endpoint 5 (λ w. omega arith) (pool 9) 0 (pool-IsValid 9)
      (omega arith, (omega arith, tt))

abbrev waiting : Waiting ℕ
waiting = record { ctx_err = λ s. (none, s); sleep = λ d s. (none, s); scale = λ d s. (d, s) }

do_retry-Within_example :
    After
      (Within (normalise default_retry_policy).max_attempts)
      []
      (do_retry (Attempts.with_log waiting) (Attempts.logged flaky) default_retry_policy (0, []))
do_retry-Within_example = do_retry-Within waiting flaky default_retry_policy 0

do_retry-Exactly_example :
    After
      (Exactly (normalise default_retry_policy).max_attempts none)
      []
      (do_retry (Attempts.with_log waiting) (Attempts.logged flaky) default_retry_policy (0, []))
do_retry-Exactly_example =
    do_retry-Exactly waiting flaky (λ s. refl) (λ d s. refl) default_retry_policy 0

abbrev steady : RetryPolicy
steady = record {
  max_attempts = 5;
  base_backoff = 500_000_000;
  max_backoff = 30_000_000_000;
  max_retry_after = 60_000_000_000;
  jitter = false;
}

abbrev always_busy : ℕ → Option Error × ℕ
always_busy w = (some busy, w + 1)

-- Its error carries no Retry-After.
no_hint :
    (s : ℕ) (e : Error) (re : Retry)
    → (always_busy s).0 ≡ some e
    → as_retryable e ≡ some re
    → pos_i64 re.retry_after ≡ false
unfolding as_retryable
no_hint s e re h k =
    let found : as_retryable busy ≡ some re =
      ap (λ o. elim o [ none ↦ none | some x ↦ as_retryable x ]) h ∙ k in
    let none_asked : 0 ≡ re.retry_after =
      ap (λ o. elim o [ none ↦ 0 | some r ↦ r.retry_after ]) found in
    ground arith

do_retry-Doubling_example :
    Waits
      (Doubling 500_000_000 30_000_000_000 0)
      []
      (do_retry (Backoff.with_waits waiting) (Backoff.beside always_busy) steady (0, []))
unfolding normalise
do_retry-Doubling_example =
    do_retry-Doubling waiting always_busy steady 0 refl (ground arith) (ground arith) no_hint

abbrev every_ten : Throttle
every_ten = record { interval = 10; last = some 5 }

abbrev sleep : ℕ → ℕ → Option Error × ℕ
sleep d w = (none, w + d)

wait-Granted_example : Granted (λ w. w) 15 (wait clock sleep every_ten 7)
wait-Granted_example =
    wait-Granted clock sleep (λ w. w)
      (record { reads = λ w. omega arith; runs = λ w. omega arith; lasts = λ d w h. omega arith })
      every_ten 7 5 refl (omega arith) refl

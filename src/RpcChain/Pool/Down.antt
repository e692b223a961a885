-- ===== src/RpcChain/Pool/Down.antt =====
-- lib/rpcchain/pool.go: a call while every endpoint is marked down.
use naralabs_atlas.Prelude.{
  ℕ, zero, suc, ◌+◌, ◌%◌, ◌≤◌, ◌<◌, ◌≡◌, refl, Option, none, some, List, [], arith, lt→ltb, length,
  get_elem?-some, All, All-get_elem?, if◌then◌else◌,
}
use naralabs_atlas.RpcChain.Errors.{Error, all_endpoints_down}
use naralabs_atlas.RpcChain.Pool.{
  Endpoint, EndpointState, Pool, skipped, try, round, continue, call_loop, call,
}
use naralabs_atlas.RpcChain.Pool.Total.{IsValid, pick-lt, round-eq-try, call-eq-loop}
use naralabs_atlas.RpcChain.Pool.Order.{logged_fn, logged_clock}

module _ {W : Type 0} (clock : W → ℕ × W) (fn : Pool → Endpoint → W → Option Error × W) (time : ℕ)
    (early : (w : W) → (clock w).0 ≤ time) where
  abbrev now' : W × List Endpoint → ℕ × (W × List Endpoint)
  now' = logged_clock clock

  abbrev fn' : Pool → Endpoint → W × List Endpoint → Option Error × (W × List Endpoint)
  fn' = logged_fn fn

  abbrev IsDown : EndpointState → Type 0
  IsDown s = time < s.down_until

  round_skips :
      (p : Pool) (idx : ℕ) (w : W) (log : List Endpoint)
      → idx < length p.endpoints
      → All IsDown p.endpoints
      → round now' fn' idx p (w, log) ≡ skipped ((clock w).1, log)
  round_skips p idx w log h d =
      let (s, g) = get_elem?-some p.endpoints idx h in
      let down =
        lt→ltb (clock w).0 s.down_until
          (omega (arith, early w, All-get_elem? IsDown p.endpoints idx s d g)) in
      rw (round-eq-try now' fn' p idx s (w, log) g) (unfold try in rw (down, if◌then◌else◌))

  call_loop_skips :
      (k start i : ℕ) (p : Pool) (w : W) (log : List Endpoint)
      → 0 < length p.endpoints
      → All IsDown p.endpoints
      → (w' : W) × (call_loop now' fn' k start i (some all_endpoints_down) p (w, log)
          ≡ some (some all_endpoints_down, p, (w', log)))
  unfolding call_loop continue
  call_loop_skips zero start i p w log h d = (w, refl)
  call_loop_skips (suc k) start i p w log h d =
      rw (round_skips p ((start + i) % length p.endpoints) w log (omega arith) d)
        (call_loop_skips k start (i + 1) p (clock w).1 log h d)

  -- While the clock reads no later than a time at which every endpoint of a well-formed pool is still
  -- marked down, a call fails with ErrAllEndpointsDown, calls no endpoint and leaves the pool as it was.
  pub call_while_down :
      (p : Pool) (w : W)
      → IsValid p
      → All IsDown p.endpoints
      → (w' : W) × (call now' fn' p (w, []) ≡ some (some all_endpoints_down, p, (w', [])))
  call_while_down p w v d =
      let (start, picked, _) = pick-lt p (clock w).0 v in
      rw (call-eq-loop now' fn' p (w, []) start picked)
        (first (length p.endpoints) v.some_endpoint start)
    where
      first :
          (k : ℕ)
          → 0 < k
          → (start : ℕ)
          → (w' : W) × (call_loop now' fn' k start 0 none p ((clock w).1, [])
              ≡ some (some all_endpoints_down, p, (w', [])))
      first zero h start = absurd (omega arith)
      first (suc k) h start =
          let bound : (start + 0) % length p.endpoints < length p.endpoints =
            omega (arith, v.some_endpoint) in
          unfold call_loop continue in
          rw (round_skips p ((start + 0) % length p.endpoints) (clock w).1 [] bound d)
            (call_loop_skips k start (0 + 1) p (clock (clock w).1).1 [] v.some_endpoint d)

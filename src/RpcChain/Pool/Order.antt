-- ===== src/RpcChain/Pool/Order.antt =====
-- lib/rpcchain/pool.go: the order in which a call tries the endpoints.
use naralabs_atlas.Prelude.{
  ℕ, zero, suc, ◌+◌, ◌%◌, ◌<◌, ◌≡◌, refl, sym, ◌∙◌, inl, inr, Option, none, some, List, [], ◌∷◌,
  ◌++◌, arith, ltb, if◌then◌else◌, Bool-cases, length, get_elem?, append-nil, append_assoc,
  length-map, get_elem?-map, get_elem?-some, map-set,
}
use mathlib.Core.Path.{subst}
use naralabs_atlas.RpcChain.Errors.{Error, all_endpoints_down}
use naralabs_atlas.RpcChain.Pool.{
  Endpoint, EndpointState, Pool, Round, skipped, succeeded, failed, panicked, Answer, pick,
  too_many, count_error, answer, try, round, continue, call_loop, call,
}
use naralabs_atlas.RpcChain.Pool.Total.{
  addresses, IsValid, pick-lt, round-eq-try, call-eq-loop, length_of_addresses,
}

-- `xs` is `ys` with some items left out.
pub data Subseq {ℓ} {A : Type ℓ} : List A → List A → Type ℓ where
  empty : {ys : List A} → Subseq [] ys
  same : {x : A} {xs ys : List A} → Subseq xs ys → Subseq (x ∷ xs) (x ∷ ys)
  leave_out : {y : A} {xs ys : List A} → Subseq xs ys → Subseq xs (y ∷ ys)

-- The endpoints es[(start+i) % n], es[(start+i+1) % n], ..., `k` of them.
abbrev pub rotated : List Endpoint → ℕ → ℕ → ℕ → List Endpoint
rotated es zero start i = []
rotated es (suc k) start i =
    let rest = rotated es k start (i + 1) in
    elim (get_elem? es ((start + i) % length es)) [ none ↦ rest | some e ↦ e ∷ rest ]

rotated-suc :
    (es : List Endpoint) (k start i : ℕ) (e : Endpoint)
    → get_elem? es ((start + i) % length es) ≡ some e
    → rotated es (suc k) start i ≡ e ∷ rotated es k start (i + 1)
rotated-suc es k start i e h = rw (h, rotated)

-- The callback and the clock with a log of the endpoints that the callback was given.
module _ {W : Type 0} where
  abbrev pub logged_fn :
      (Pool → Endpoint → W → Option Error × W)
      → Pool
      → Endpoint
      → W × List Endpoint
      → Option Error × (W × List Endpoint)
  logged_fn fn p e (w, log) = let (r, w') = fn p e w in (r, (w', log ++ e ∷ []))

  abbrev pub logged_clock : (W → ℕ × W) → W × List Endpoint → ℕ × (W × List Endpoint)
  logged_clock clock (w, log) = let (t, w') = clock w in (t, (w', log))

  -- What a round at the endpoint `e` adds to the log.
  abbrev GoodLog : Pool → Endpoint → List Endpoint → Round (W × List Endpoint) → Type 0
  GoodLog p e log (skipped (w, log')) = log' ≡ log
  GoodLog p e log (succeeded q (w, log')) = log' ≡ log ++ e ∷ []
  GoodLog p e log (failed x q (w, log')) = (log' ≡ log ++ e ∷ []) × (addresses q ≡ addresses p)
  GoodLog p e log panicked = Unit

  -- The answered call's log is `log` with some of `es` behind it, in their order.
  abbrev pub Extends : List Endpoint → List Endpoint → Answer (W × List Endpoint) → Type 0
  Extends es log none = Unit
  Extends es log (some (r, p, (w, log'))) =
      (new : List Endpoint) × (log' ≡ log ++ new) × Subseq new es

  Extends-skip :
      (e : Endpoint) (es log : List Endpoint) (a : Answer (W × List Endpoint))
      → Extends es log a
      → Extends (e ∷ es) log a
  Extends-skip e es log none h = tt
  Extends-skip e es log (some (r, p, (w, log'))) h = (h.0, h.1, leave_out h.2)

  Extends-cons :
      (e : Endpoint) (es log : List Endpoint) (a : Answer (W × List Endpoint))
      → Extends es (log ++ e ∷ []) a
      → Extends (e ∷ es) log a
  Extends-cons e es log none h = tt
  Extends-cons e es log (some (r, p, (w, log'))) h =
      (e ∷ h.0, h.1 ∙ append_assoc log (e ∷ []) h.0, same h.2)

module _ {W : Type 0} (clock : W → ℕ × W) (fn : Pool → Endpoint → W → Option Error × W) where
  abbrev now' : W × List Endpoint → ℕ × (W × List Endpoint)
  now' = logged_clock clock

  abbrev fn' : Pool → Endpoint → W × List Endpoint → Option Error × (W × List Endpoint)
  fn' = logged_fn fn

  answer-GoodLog :
      (p : Pool) (idx : ℕ) (s : EndpointState) (r : Option Error × (W × List Endpoint))
      (log : List Endpoint)
      → get_elem? p.endpoints idx ≡ some s
      → r.1.1 ≡ log ++ s.endpoint ∷ []
      → GoodLog p s.endpoint log (answer now' fn' p idx s r)
  unfolding answer
  answer-GoodLog p idx s (none, (w, l)) log g h = h
  answer-GoodLog p idx s (some x, (w, l)) log g h = elim (Bool-cases (too_many (count_error s))) [
    | inl many ↦
        rw (many, if◌then◌else◌)
          (h, map-set (λ (t : EndpointState). t.endpoint) p.endpoints idx s _ g refl)
    | inr few ↦
        rw (few, if◌then◌else◌)
          (h, map-set (λ (t : EndpointState). t.endpoint) p.endpoints idx s _ g refl)
  ]

  round-GoodLog :
      (p : Pool) (idx : ℕ) (s : EndpointState) (w : W) (log : List Endpoint)
      → get_elem? p.endpoints idx ≡ some s
      → GoodLog p s.endpoint log (round now' fn' idx p (w, log))
  round-GoodLog p idx s w log g = rw (round-eq-try now' fn' p idx s (w, log) g) (split (clock w))
    where
      split : (t : ℕ × W) → GoodLog p s.endpoint log (try now' fn' p idx s (t.0, (t.1, log)))
      split (t, w') = elim (Bool-cases (ltb t s.down_until)) [
        | inl down ↦ unfold try in rw (down, if◌then◌else◌) refl
        | inr up ↦
            unfold try in
            rw (up, if◌then◌else◌) (answer-GoodLog p idx s (fn' p s.endpoint (w', log)) log g refl)
      ]

  continue-Extends :
      (p : Pool) (r : Round (W × List Endpoint)) (e : Endpoint) (es log : List Endpoint)
      (next : Option Error → Pool → W × List Endpoint → Answer (W × List Endpoint))
      → GoodLog p e log r
      → ((last : Option Error) (q : Pool) (w : W) (log' : List Endpoint)
          → addresses q ≡ addresses p
          → Extends es log' (next last q (w, log')))
      → Extends (e ∷ es) log (continue now' fn' p r next)
  unfolding continue
  continue-Extends p (skipped (w, l)) e es log next g h =
      Extends-skip e es log (next (some all_endpoints_down) p (w, l)) (
        subst (λ m. Extends es m (next (some all_endpoints_down) p (w, l))) g
          (h (some all_endpoints_down) p w l refl))
  continue-Extends p (succeeded q (w, l)) e es log next g h = (e ∷ [], g, same empty)
  continue-Extends p (failed x q (w, l)) e es log next g h =
      Extends-cons e es log (next (some x) q (w, l))
        (subst (λ m. Extends es m (next (some x) q (w, l))) g.0 (h (some x) q w l g.1))
  continue-Extends p panicked e es log next g h = tt

  call_loop-Extends :
      (k start i : ℕ) (last : Option Error) (p : Pool) (w : W) (log : List Endpoint)
      (es : List Endpoint)
      → addresses p ≡ es
      → 0 < length p.endpoints
      → Extends (rotated es k start i) log (call_loop now' fn' k start i last p (w, log))
  unfolding call_loop
  call_loop-Extends zero start i none p w log es a h = ([], sym (append-nil log), empty)
  call_loop-Extends zero start i (some e) p w log es a h = ([], sym (append-nil log), empty)
  call_loop-Extends (suc k) start i last p w log es a h =
      let (s, g) = get_elem?-some p.endpoints ((start + i) % length p.endpoints) (omega arith) in
      rw (rotated-suc es k start i s.endpoint (at_es s g)) (
        continue-Extends p (round now' fn' ((start + i) % length p.endpoints) p (w, log)) s.endpoint
          (rotated es k start (i + 1)) log _
          (round-GoodLog p ((start + i) % length p.endpoints) s w log g)
          (λ last' q w' log' e.
            call_loop-Extends k start (i + 1) last' q w' log' es (e ∙ a)
              (omega (arith, length_of_addresses q p e))))
    where
      at_es :
          (s : EndpointState)
          → get_elem? p.endpoints ((start + i) % length p.endpoints) ≡ some s
          → get_elem? es ((start + i) % length es) ≡ some s.endpoint
      at_es s g =
          rw (← a, length-map p.endpoints (λ (t : EndpointState). t.endpoint))
            (get_elem?-map (λ (t : EndpointState). t.endpoint) p.endpoints _ s g)

  -- A call gives the callback the endpoints in turn, from the one that `pick` chose and round to the
  -- first: the log of the call is a subsequence of one such rotation of the addresses.
  pub call_order :
      (p : Pool) (w : W)
      → IsValid p
      → (start : ℕ) × (pick p (clock w).0 ≡ some start)
        × Extends (rotated (addresses p) (length p.endpoints) start 0) [] (call now' fn' p (w, []))
  call_order p w v =
      let (start, picked, _) = pick-lt p (clock w).0 v in
      (
        start,
        picked,
        rw (call-eq-loop now' fn' p (w, []) start picked) (
            call_loop-Extends (length p.endpoints) start 0 none p (clock w).1 [] (addresses p) refl
              v.some_endpoint),
      )

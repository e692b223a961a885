-- ===== src/RpcChain/Pool/Total.antt =====
-- lib/rpcchain/pool.go: a call on a well-formed pool ends with an answer, and leaves the pool
-- well-formed.
use naralabs_atlas.Prelude.{
  ℕ, zero, suc, ◌+◌, ◌%◌, ◌<◌, ◌≡◌, refl, sym, ◌∙◌, ap, ◌⊎◌, inl, inr, Option, none, some, List, [],
  ◌∷◌, map, arith, ltb, if◌then◌else◌, Bool-cases, length, get_elem?, length-map, get_elem?-some,
  get_elem?-set_self, map-set,
}
use naralabs_atlas.RpcChain.Errors.{Error}
use naralabs_atlas.RpcChain.Pool.{
  Endpoint, EndpointState, Pool, Round, skipped, succeeded, failed, panicked, Answer, first_up,
  pick, too_many, count_error, answer, try, round, continue, call_loop, call,
}

pub record IsValid (p : Pool) : Type 0 where
  pub some_endpoint : 0 < length p.endpoints
  pub active_in_range : (a : ℕ) → p.active ≡ some a → a < length p.endpoints

-- The endpoints with their health left out.
abbrev pub addresses : Pool → List Endpoint
addresses p = map (λ s. s.endpoint) p.endpoints

-- An index is in range for every pool with the same endpoints.
pub length_of_addresses :
    (p q : Pool) → addresses p ≡ addresses q → length p.endpoints ≡ length q.endpoints
length_of_addresses p q h =
    sym (length-map p.endpoints (λ s. s.endpoint))
    ∙ ap length h
    ∙ length-map q.endpoints (λ s. s.endpoint)

first_up-lt :
    (now i : ℕ) (ss : List EndpointState)
    → (first_up now i ss ≡ 0) ⊎ (first_up now i ss < i + length ss)
unfolding first_up
first_up-lt now i [] = inl refl
first_up-lt now i (s ∷ ss) = ground (arith, first_up-lt now (i + 1) ss)

pub pick-lt :
    (p : Pool) (now : ℕ) → IsValid p → (i : ℕ) × (pick p now ≡ some i) × (i < length p.endpoints)
unfolding pick
pick-lt p now v = go p.active refl
  where
    fallback : first_up now 0 p.endpoints < length p.endpoints
    fallback = ground (arith, first_up-lt now 0 p.endpoints, v.some_endpoint)

    go : (a : Option ℕ) → p.active ≡ a → (i : ℕ) × (pick p now ≡ some i) × (i < length p.endpoints)
    go none e = (first_up now 0 p.endpoints, ground arith, fallback)
    go (some a) e =
        let bound = v.active_in_range a e in
        let (s, at_a) = get_elem?-some p.endpoints a bound in
        elim (Bool-cases (ltb s.down_until now)) [
          | inl up ↦ (a, ground arith, bound)
          | inr down ↦ (first_up now 0 p.endpoints, ground arith, fallback)
        ]

-- What an answered call has done to the pool `p`: after nil, `active` is an endpoint with no error
-- noted; after an error, `active` is what it was. The endpoints are the same.
pub record Succeeded (p q : Pool) : Type 0 where
  pub index : ℕ
  pub state : EndpointState
  pub is_active : q.active ≡ some index
  pub at_index : get_elem? q.endpoints index ≡ some state
  pub no_error : state.errors ≡ 0
  pub same : addresses q ≡ addresses p

pub record Failed (p q : Pool) : Type 0 where
  pub unmoved : q.active ≡ p.active
  pub same : addresses q ≡ addresses p

abbrev pub Settled : {W : Type 0} → Pool → Answer W → Type 0
Settled p none = ⊥
Settled p (some (none, q, w)) = Succeeded p q
Settled p (some (some e, q, w)) = Failed p q

abbrev GoodRound : {W : Type 0} → Pool → Round W → Type 0
GoodRound p (skipped w) = Unit
GoodRound p (succeeded q w) = Succeeded p q
GoodRound p (failed e q w) = Failed p q
GoodRound p panicked = ⊥

Settled-trans : {W : Type 0} (p q : Pool) (a : Answer W) → Failed p q → Settled q a → Settled p a
Settled-trans p q none f h = h
Settled-trans p q (some (none, r, w)) f h = record {
  index = h.index;
  state = h.state;
  is_active = h.is_active;
  at_index = h.at_index;
  no_error = h.no_error;
  same = h.same ∙ f.same;
}
Settled-trans p q (some (some e, r, w)) f h = record {
  unmoved = h.unmoved ∙ f.unmoved;
  same = h.same ∙ f.same;
}

module _ {W : Type 0} (clock : W → ℕ × W) (fn : Pool → Endpoint → W → Option Error × W) where
  answer-GoodRound :
      (p : Pool) (idx : ℕ) (s : EndpointState) (r : Option Error × W)
      → idx < length p.endpoints
      → get_elem? p.endpoints idx ≡ some s
      → GoodRound p (answer clock fn p idx s r)
  unfolding answer
  answer-GoodRound p idx s (none, w) h g = record {
    index = idx;
    state = record s { errors = 0 };
    is_active = refl;
    at_index = get_elem?-set_self p.endpoints idx _ h;
    no_error = refl;
    same = map-set (λ (t : EndpointState). t.endpoint) p.endpoints idx s _ g refl;
  }
  answer-GoodRound p idx s (some e, w) h g = elim (Bool-cases (too_many (count_error s))) [
    | inl many ↦
        rw (many, if◌then◌else◌)
          (record {
            unmoved = refl;
            same = map-set (λ (t : EndpointState). t.endpoint) p.endpoints idx s _ g refl;
          })
    | inr few ↦
        rw (few, if◌then◌else◌)
          (record {
            unmoved = refl;
            same = map-set (λ (t : EndpointState). t.endpoint) p.endpoints idx s _ g refl;
          })
  ]

  try-GoodRound :
      (p : Pool) (idx : ℕ) (s : EndpointState) (t : ℕ × W)
      → idx < length p.endpoints
      → get_elem? p.endpoints idx ≡ some s
      → GoodRound p (try clock fn p idx s t)
  unfolding try
  try-GoodRound p idx s (now, w) h g = elim (Bool-cases (ltb now s.down_until)) [
    | inl down ↦ rw (down, if◌then◌else◌) tt
    | inr up ↦ rw (up, if◌then◌else◌) (answer-GoodRound p idx s (fn p s.endpoint w) h g)
  ]

  pub round-eq-try :
      (p : Pool) (idx : ℕ) (s : EndpointState) (w : W)
      → get_elem? p.endpoints idx ≡ some s
      → round clock fn idx p w ≡ try clock fn p idx s (clock w)
  unfolding round
  round-eq-try p idx s w g = ground arith

  round-GoodRound :
      (p : Pool) (idx : ℕ) (w : W) → idx < length p.endpoints → GoodRound p (round clock fn idx p w)
  round-GoodRound p idx w h =
      let (s, g) = get_elem?-some p.endpoints idx h in
      rw (round-eq-try p idx s w g) (try-GoodRound p idx s (clock w) h g)

  continue-Settled :
      (p : Pool) (r : Round W) (next : Option Error → Pool → W → Answer W)
      → GoodRound p r
      → ((e : Error) (q : Pool) (w : W) → Failed p q → Settled p (next (some e) q w))
      → Settled p (continue clock fn p r next)
  unfolding continue
  continue-Settled p (skipped w) next g h = h _ p w (record { unmoved = refl; same = refl })
  continue-Settled p (succeeded q w) next g h = g
  continue-Settled p (failed e q w) next g h = h e q w g
  continue-Settled p panicked next g h = g

  call_loop-Settled :
      (k start i : ℕ) (last : Option Error) (p : Pool) (w : W)
      → 0 < length p.endpoints
      → Settled p (call_loop clock fn k start i last p w)
  unfolding call_loop
  call_loop-Settled zero start i none p w h = record { unmoved = refl; same = refl }
  call_loop-Settled zero start i (some e) p w h = record { unmoved = refl; same = refl }
  call_loop-Settled (suc k) start i last p w h =
      continue-Settled p (round clock fn ((start + i) % length p.endpoints) p w) _
        (round-GoodRound p ((start + i) % length p.endpoints) w (omega arith))
        (λ e q w' f. Settled-trans p q _ f (
          call_loop-Settled k start (i + 1) (some e) q w'
            (omega (arith, length_of_addresses q p f.same))))

  pub call-eq-loop :
      (p : Pool) (w : W) (start : ℕ)
      → pick p (clock w).0 ≡ some start
      → call clock fn p w ≡ call_loop clock fn (length p.endpoints) start 0 none p (clock w).1
  unfolding call
  call-eq-loop p w start h = ground arith

  -- On a well-formed pool a call never panics and always ends with an answer. After nil, `active` is the
  -- index of an endpoint with no error noted; after an error, `active` is what it was. The endpoints
  -- keep their places.
  pub call-Settled : (p : Pool) (w : W) → IsValid p → Settled p (call clock fn p w)
  call-Settled p w v =
      let (start, picked, _) = pick-lt p (clock w).0 v in
      rw (call-eq-loop p w start picked)
        (call_loop-Settled (length p.endpoints) start 0 none p (clock w).1 v.some_endpoint)

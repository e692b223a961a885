-- ===== src/RpcChain/Pool.antt =====
-- lib/rpcchain/pool.go. Times are nanoseconds since 1970. The type `W` is the world outside: the
-- clock and what the callback does to it. A call that would panic is `none`.
pub mod Total
pub mod Order
pub mod Down
use naralabs_atlas.Prelude.{
  ℕ, zero, suc, ◌+◌, ◌%◌, Bool, true, false, ◌&&◌, Option, none, some, List, [], ◌∷◌, map, Text,
  ltb, leb, Result, ok, err, if◌then◌else◌, length, get_elem?, set, u32,
}
use naralabs_atlas.RpcChain.Errors.{Error, all_endpoints_down, no_endpoint}

pub record Endpoint : Type 0 where
  pub url : Text
  pub label : Text

-- `errors` is an int32 pattern. The program never stores year 1 in `down_until`, so the source's
-- until.IsZero() is false throughout, and the tests below leave it out.
pub record EndpointState : Type 0 where
  pub endpoint : Endpoint
  pub errors : ℕ
  pub down_until : ℕ

-- `active` is -1 (`none`) or an index.
pub record Pool : Type 0 where
  pub endpoints : List EndpointState
  pub active : Option ℕ

abbrev fresh : Endpoint → EndpointState
fresh e = record { endpoint = e; errors = 0; down_until = 0 }

-- NewPool
unfoldable pub new_pool : List Endpoint → Result Error Pool
new_pool [] = err no_endpoint
new_pool (e ∷ es) = ok (record { endpoints = map fresh (e ∷ es); active = none })

-- ActiveIndex
unfoldable pub active_index : Pool → Option ℕ
active_index p = p.active

-- The loop of `pick`: the index of the first endpoint whose down time is over, or 0.
first_up : ℕ → ℕ → List EndpointState → ℕ
first_up now i [] = 0
first_up now i (s ∷ ss) = if ltb s.down_until now then i else first_up now (i + 1) ss

-- pick, after its reading of the clock; an active index out of range panics.
pub pick : Pool → ℕ → Option ℕ
unfolding first_up
pick p now = elim p.active [
  | none ↦ some (first_up now 0 p.endpoints)
  | some a ↦ elim (get_elem? p.endpoints a) [
    | none ↦ none
    | some s ↦ if ltb s.down_until now then some a else some (first_up now 0 p.endpoints)
  ]
]

-- 30 * time.Second
abbrev down_time : ℕ
down_time = 30_000_000_000

-- count := errors.Add(1) and the test count >= 3, on an int32 pattern
abbrev count_error : EndpointState → EndpointState
count_error s = record s { errors = u32 (s.errors + 1) }

abbrev too_many : EndpointState → Bool
too_many s = leb 3 s.errors && ltb s.errors 2147483648

abbrev mark_down : EndpointState → ℕ → EndpointState
mark_down s now = record s { down_until = now + down_time }

abbrev put : Pool → ℕ → EndpointState → Pool
put p idx s = record p { endpoints = set p.endpoints idx s }

-- What one round of the loop of `Call` does.
pub data Round (W : Type 0) : Type 0 where
  skipped : W → Round W
  succeeded : Pool → W → Round W
  failed : Error → Pool → W → Round W
  panicked : Round W

-- The error (`none` for nil), the pool and the outside after a call; `none` is a panic.
abbrev pub Answer : Type 0 → Type 0
Answer W = Option (Option Error × Pool × W)

-- A call of fn, which can read the pool.
module _ {W : Type 0} (clock : W → ℕ × W) (fn : Pool → Endpoint → W → Option Error × W) where
  -- At the third error the clock is read again.
  penalise : Pool → ℕ → EndpointState → Error → W → Round W
  penalise p idx s e w =
      if too_many s
      then (let (now, w') = clock w in failed e (put p idx (mark_down s now)) w')
      else failed e (put p idx s) w

  answer : Pool → ℕ → EndpointState → Option Error × W → Round W
  unfolding penalise
  answer p idx s (none, w) =
      succeeded (record (put p idx (record s { errors = 0 })) { active = some idx }) w
  answer p idx s (some e, w) = penalise p idx (count_error s) e w

  pub try : Pool → ℕ → EndpointState → ℕ × W → Round W
  unfolding answer
  try p idx s (now, w) =
      if ltb now s.down_until then skipped w else answer p idx s (fn p s.endpoint w)

  pub round : ℕ → Pool → W → Round W
  unfolding try
  round idx p w = elim (get_elem? p.endpoints idx) [
    | none ↦ panicked
    | some s ↦ try p idx s (clock w)
  ]

  -- The end of the loop body: `continue`, `return nil` or the next round.
  continue : Pool → Round W → (Option Error → Pool → W → Answer W) → Answer W
  continue p (skipped w) next = next (some all_endpoints_down) p w
  continue p (succeeded p' w) next = some (none, p', w)
  continue p (failed e p' w) next = next (some e) p' w
  continue p panicked next = none

  -- `k` rounds are left, and the next one is round `i`. `last` is lastErr.
  pub call_loop : ℕ → ℕ → ℕ → Option Error → Pool → W → Answer W
  unfolding continue
  call_loop zero start i none p w = some (some all_endpoints_down, p, w)
  call_loop zero start i (some e) p w = some (some e, p, w)
  call_loop (suc k) start i last p w =
      continue p (round ((start + i) % length p.endpoints) p w)
        (λ last' p' w'. call_loop k start (i + 1) last' p' w')

  -- Call; the answer's first part is the error, `none` for nil.
  pub call : Pool → W → Answer W
  call p w =
      let (now, w') = clock w in
      elim (pick p now) [
        | none ↦ none
        | some start ↦ call_loop (length p.endpoints) start 0 none p w'
      ]

-- ===== src/RpcChain/Throttle.antt =====
-- lib/rpcchain/throttle.go. Times and durations are nanoseconds; an interval is an int64 pattern.
pub mod Spacing
use naralabs_atlas.Prelude.{ℕ, ◌-◌, Bool, Option, none, some, leb, if◌then◌else◌, pos_i64}
use naralabs_atlas.RpcChain.Errors.{Error}

-- `last` is `none` while it is the zero time: time.Since of that is the longest duration.
pub record Throttle : Type 0 where
  pub interval : ℕ
  pub last : Option ℕ

-- elapsed >= t.interval; the monotonic clock makes `now` no earlier than `last`.
long_ago : Throttle → ℕ → Bool
long_ago t now = elim t.last [
  | none ↦ leb t.interval 9223372036854775807
  | some l ↦ leb t.interval (now - l)
]

-- t.interval - elapsed, on the branch where it is positive
left_to_wait : Throttle → ℕ → ℕ
left_to_wait t now = elim t.last [ none ↦ 0 | some l ↦ t.interval - (now - l) ]

module _ {W : Type 0} (clock : W → ℕ × W) (sleep : ℕ → W → Option Error × W) where
  -- t.last = time.Now(); return nil
  grant : Throttle → W → Option Error × Throttle × W
  grant t w = let (now, w') = clock w in (none, record t { last = some now }, w')

  -- The select between ctx.Done() and the timer.
  waited : Throttle → Option Error × W → Option Error × Throttle × W
  waited t (none, w) = grant t w
  waited t (some e, w) = (some e, t, w)

  -- Wait
  pub wait : Throttle → W → Option Error × Throttle × W
  wait t w =
      let (now, w') = clock w in
      let delay = left_to_wait t now in
      if pos_i64 t.interval
      then (if long_ago t now then grant t w' else waited t (sleep delay w'))
      else (none, t, w)

-- ===== src/Ingest/Timing/Poll.antt =====
-- internal/module/ingest/service/helpers.go: the poll interval under NextAdaptivePoll.
use naralabs_atlas.Prelude.{
  ℕ, zero, suc, ◌+◌, ◌≤◌, ◌<◌, ◌≡◌, ◌⊎◌, ◌^◌, Bool, true, false, inl, inr, arith,
}
use naralabs_atlas.Ingest.Timing.{next_adaptive_poll}

module _ (min max current : ℕ) (some_time : 0 < min) (ordered : min ≤ max) (small : max < 2 ^ 62)
    (above : min ≤ current) (below : current ≤ max) where
  -- A worker that has caught up comes nearer to the maximum, unless it is there.
  caught_up_grows : 1 < current → current < max → current < next_adaptive_poll current min max true
  unfolding next_adaptive_poll
  caught_up_grows h k = ground arith

  behind_shrinks : min < current → next_adaptive_poll current min max false < current
  unfolding next_adaptive_poll
  behind_shrinks h = ground arith

-- The same for an interval that may be above the maximum.
pub next_adaptive_poll_above :
    (min max current : ℕ) (done : Bool)
    → 0 < min
    → min ≤ max
    → max < 2 ^ 62
    → min ≤ current
    → current < 2 ^ 62
    → (min ≤ next_adaptive_poll current min max done)
      × ((next_adaptive_poll current min max done ≤ max)
          ⊎ (next_adaptive_poll current min max done ≤ current))
unfolding next_adaptive_poll
next_adaptive_poll_above min max current true a b c d e = (ground arith, inl (ground arith))
next_adaptive_poll_above min max current false a b c d e = (ground arith, inr (ground arith))

-- The interval after `k` cycles that ended caught up.
abbrev pub after_idle : ℕ → ℕ → ℕ → ℕ → ℕ
after_idle min max zero current = current
after_idle min max (suc k) current = after_idle min max k (next_adaptive_poll current min max true)

idle_step :
    (min max current : ℕ)
    → 0 < min
    → min ≤ max
    → max < 2 ^ 62
    → min ≤ current
    → current ≤ max
    → 1 < current
    → (min ≤ next_adaptive_poll current min max true)
      × (next_adaptive_poll current min max true ≤ max)
      × (1 < next_adaptive_poll current min max true)
      × ((next_adaptive_poll current min max true ≡ max)
          ⊎ (current < next_adaptive_poll current min max true))
unfolding next_adaptive_poll
idle_step min max current a b c d e f = ground arith

-- For bounds `0 < min <= max` below 2 ^ 62 ns and an interval between them above 1 ns: after `max - current` cycles or
-- more that all end caught up, the interval is the maximum.
pub after_idle-max :
    (min max k current : ℕ)
    → 0 < min
    → min ≤ max
    → max < 2 ^ 62
    → min ≤ current
    → current ≤ max
    → 1 < current
    → max ≤ current + k
    → after_idle min max k current ≡ max
after_idle-max min max zero current a b c d e f h = omega arith
after_idle-max min max (suc k) current a b c d e f h =
    let (above, below, long, grows) = idle_step min max current a b c d e f in
    after_idle-max min max k (next_adaptive_poll current min max true) a b c above below long
      (omega arith)

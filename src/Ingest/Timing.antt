-- ===== src/Ingest/Timing.antt =====
-- internal/module/ingest/service/helpers.go: ResolveColdStart, ReorgFromLedger and NextAdaptivePoll.
pub mod Poll
use naralabs_atlas.Prelude.{
  ℕ, ◌+◌, ◌-◌, ◌/◌, ◌≤◌, ◌<◌, ◌≡◌, ◌⊎◌, Bool, true, false, ◌||◌, Option, none, some, arith, Text,
  is_empty, ltb, leb, ◌==◌, if◌then◌else◌, u64, gt_i64, pos_i64,
}
use naralabs_atlas.Config.{parse_start_ledger, parse_start_ledger-lt}

-- ResolveColdStart; an error is `none`.
unfoldable pub resolve_cold_start : ℕ → ℕ → ℕ → Text → Option ℕ
resolve_cold_start last latest retention raw =
    if ltb 0 last
    then some last
    else if is_empty raw
    then (if leb latest retention then some 0 else some (latest - retention))
    else parse_start_ledger raw latest

-- ReorgFromLedger
pub reorg_from_ledger : ℕ → ℕ → ℕ
reorg_from_ledger last window = if window == 0 || leb last window then 0 else last - window

-- current / 2 in int64, for a positive pattern
abbrev half : ℕ → ℕ
half d = d / 2

abbrev poll_min : ℕ → ℕ
poll_min min = if pos_i64 min then min else 1_000_000_000

abbrev poll_max : ℕ → ℕ → ℕ
poll_max current max = if pos_i64 max then max else current

abbrev poll_current : ℕ → ℕ → ℕ
poll_current min current = if pos_i64 current then current else min

-- What follows the defaults.
step_poll : ℕ → ℕ → ℕ → Bool → ℕ
step_poll current min max true =
    if gt_i64 (u64 (current + half current)) max then max else u64 (current + half current)
step_poll current min max false = if gt_i64 min (half current) then min else half current

-- NextAdaptivePoll
pub next_adaptive_poll : ℕ → ℕ → ℕ → Bool → ℕ
unfolding step_poll
next_adaptive_poll current min max caught_up =
    step_poll (poll_current (poll_min min) current) (poll_min min) (poll_max current max) caught_up

-- ===== src/Ingest/Worker/Run.antt =====
-- Run of internal/module/ingest/service/ingest_worker_service.go: the cycles, one for each time that the timer of the
-- poll interval goes off. Errors of a cycle are only logged.
use naralabs_atlas.Prelude.{
  ℕ, zero, suc, refl, subst, Bool-cases, ◌≡◌, ◌⊎◌, inl, inr, Option, none, some, not, gt_i64, ◌==◌,
  ◌≤◌, ◌<◌, ◌^◌, arith, Bool, true, false, Result, ok, err, if◌then◌else◌, pos_i64,
}
use naralabs_atlas.RpcChain.Errors.{Error}
use naralabs_atlas.Ingest.Model.{Settings}
use naralabs_atlas.Ingest.Store.{Services}
use naralabs_atlas.Ingest.Timing.{next_adaptive_poll}
use naralabs_atlas.Ingest.Timing.Poll.{next_adaptive_poll_above}
use naralabs_atlas.Ingest.Worker.{Worker, ingest_once}

-- POLL_INTERVAL_MIN, POLL_INTERVAL_MAX and POLL_INTERVAL
pub record PollSettings : Type 0 where
  pub min : ℕ
  pub max : ℕ
  pub initial : ℕ

-- The worker with its pollInterval. A SetConfig between cycles is left out.
pub record Running (W : Type 0) : Type 0 where
  pub poll_interval : ℕ
  pub worker : Worker W

-- SetConfig of NewIngestWorkerService
abbrev pub new_running : {W : Type 0} → PollSettings → Worker W → Running W
new_running p w = record { poll_interval = p.initial; worker = w }

-- The first result of ingestOnce, which is false beside an error.
caught_up : Result Error Bool → Bool
caught_up (ok b) = b
caught_up (err e) = false

-- interval, at the head of the loop
pub interval : PollSettings → ℕ → ℕ
interval p stored = if pos_i64 stored then stored else p.initial

module _ {W : Type 0} (env : Services W) (cfg : Settings) (p : PollSettings) where
  -- The loop body, behind its timer.
  pub tick : Running W → Running W
  unfolding caught_up interval
  tick s =
      let (r, worker) = ingest_once env cfg s.worker in
      record {
        poll_interval = next_adaptive_poll (interval p s.poll_interval) p.min p.max (caught_up r);
        worker = worker;
      }

  -- The loop, for a timer that has gone off `n` times when the context ends.
  pub ticks : ℕ → Running W → Running W
  ticks zero s = s
  ticks (suc n) s = ticks n (tick s)

  -- Run
  pub run : ℕ → Running W → Running W
  unfolding ticks
  run n s = ticks n (record s { worker = (ingest_once env cfg s.worker).1 })

-- What Config.validate leaves of the three settings; `none` is its error.
unfoldable pub validate_polling : PollSettings → Option PollSettings
validate_polling p =
    if not (pos_i64 p.min)
    then none
    else if gt_i64 p.min p.max
    then none
    else some (
        let initial = if gt_i64 p.min p.initial then p.min else p.initial in
        record { min = p.min; max = if p.max == 0 then initial else p.max; initial = initial })

Ordered : PollSettings → Type 0
Ordered p =
    (0 < p.min) × (p.min ≤ p.max) × (p.min ≤ p.initial) × (p.max < 2 ^ 62) × (p.initial < 2 ^ 62)

module _ (raw : PollSettings) (small : raw.max < 2 ^ 62) (small' : raw.initial < 2 ^ 62) where
  accepted-Ordered :
      pos_i64 raw.min ≡ true
      → gt_i64 raw.min raw.max ≡ false
      → Ordered (
          let initial = if gt_i64 raw.min raw.initial then raw.min else raw.initial in
          record {
            min = raw.min;
            max = if raw.max == 0 then initial else raw.max;
            initial = initial;
          })
  unfolding Ordered
  accepted-Ordered h k = (ground arith, ground arith, ground arith, ground arith, ground arith)

  validate_polling-Ordered : (p : PollSettings) → validate_polling raw ≡ some p → Ordered p
  unfolding validate_polling
  validate_polling-Ordered p h =
      from_tests _ p (pos_i64 raw.min) (gt_i64 raw.min raw.max) accepted-Ordered h
    where
      from_tests :
          (q p : PollSettings) (b c : Bool)
          → (b ≡ true → c ≡ false → Ordered q)
          → (if not b then none else if c then none else some q) ≡ some p
          → Ordered p
      from_tests q p false c k h = cc
      from_tests q p true true k h = cc
      from_tests q p true false k h = let e : q ≡ p = cc in subst Ordered e (k refl refl)

-- No shorter than POLL_INTERVAL_MIN, and no longer than the longer one of POLL_INTERVAL_MAX and POLL_INTERVAL.
abbrev pub InBounds : PollSettings → ℕ → Type 0
InBounds p d = (p.min ≤ d) × ((d ≤ p.max) ⊎ (d ≤ p.initial))

module _ {W : Type 0} (env : Services W) (cfg : Settings) (p : PollSettings)
    (ordered : Ordered p) where
  interval-InBounds : (d : ℕ) → InBounds p d → InBounds p (interval p d)
  unfolding interval Ordered
  interval-InBounds d (l, u) = elim (Bool-cases (pos_i64 d)) [
    | inl e ↦ rw e (l, u)
    | inr e ↦ rw e (ordered.2, inr (omega arith))
  ]

  next-InBounds :
      (current : ℕ) (done : Bool)
      → InBounds p current
      → InBounds p (next_adaptive_poll current p.min p.max done)
  unfolding Ordered
  next-InBounds current done (l, u) =
      let (some_time, in_order, start, small, small') = ordered in
      let (l', u') =
        next_adaptive_poll_above p.min p.max current done some_time in_order small l
          (omega arith) in
      (
        l',
        elim u' [
          | inl h ↦ inl h
          | inr h ↦ elim u [ inl k ↦ inl (omega arith) | inr k ↦ inr (omega arith) ]
        ],
      )

  tick-InBounds :
      (s : Running W) → InBounds p s.poll_interval → InBounds p (tick env cfg p s).poll_interval
  unfolding tick
  tick-InBounds s b =
      next-InBounds (interval p s.poll_interval) (caught_up (ingest_once env cfg s.worker).0)
        (interval-InBounds s.poll_interval b)

  ticks-InBounds :
      (n : ℕ) (s : Running W)
      → InBounds p s.poll_interval
      → InBounds p (interval p (ticks env cfg p n s).poll_interval)
  unfolding ticks
  ticks-InBounds zero s b = interval-InBounds s.poll_interval b
  ticks-InBounds (suc n) s b = ticks-InBounds n (tick env cfg p s) (tick-InBounds s b)

-- For settings that Config.validate accepts, with POLL_INTERVAL and POLL_INTERVAL_MAX below 2 ^ 62 ns: from a new
-- worker, whatever its cycles return, each interval for which the loop of Run waits is at least POLL_INTERVAL_MIN,
-- and at most POLL_INTERVAL_MAX or POLL_INTERVAL, whichever is longer.
pub run-InBounds :
    {W : Type 0} (env : Services W) (cfg : Settings) (raw p : PollSettings)
    → raw.max < 2 ^ 62
    → raw.initial < 2 ^ 62
    → validate_polling raw ≡ some p
    → (n : ℕ) (w : Worker W)
    → InBounds p (interval p (run env cfg p n (new_running p w)).poll_interval)
unfolding run Ordered
run-InBounds env cfg raw p a b h n w =
    let ordered = validate_polling-Ordered raw a b p h in
    ticks-InBounds env cfg p ordered n
      (record { poll_interval = p.initial; worker = (ingest_once env cfg w).1 })
      (ordered.2, inr (omega arith))

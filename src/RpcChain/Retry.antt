-- ===== src/RpcChain/Retry.antt =====
-- lib/rpcchain/retry.go: `Do`. Durations are int64 patterns in nanoseconds. `S` is all that the
-- context, the timer, the random source and the callback can see and change.
pub mod Attempts
pub mod Backoff
use naralabs_atlas.Prelude.{
  ℕ, zero, suc, ◌+◌, ◌-◌, ◌*◌, Bool, true, false, Option, none, some, ltb, leb, if◌then◌else◌, u64,
  gt_i64, pos_i64,
}
use naralabs_atlas.RpcChain.Errors.{Error, Retry, as_retryable}

pub record RetryPolicy : Type 0 where
  pub max_attempts : ℕ
  pub base_backoff : ℕ
  pub max_backoff : ℕ
  pub max_retry_after : ℕ
  pub jitter : Bool

-- DefaultRetryPolicy
unfoldable pub default_retry_policy : RetryPolicy
default_retry_policy = record {
  max_attempts = 5;
  base_backoff = 500_000_000;
  max_backoff = 30_000_000_000;
  max_retry_after = 60_000_000_000;
  jitter = true;
}

abbrev or_else : ℕ → ℕ → ℕ
or_else d default = if pos_i64 d then d else default

-- The defaults that `Do` puts in; a `max_attempts` below 1 is 0 here.
unfoldable pub normalise : RetryPolicy → RetryPolicy
normalise p = record {
  max_attempts = if ltb p.max_attempts 1 then 1 else p.max_attempts;
  base_backoff = or_else p.base_backoff 500_000_000;
  max_backoff = or_else p.max_backoff 30_000_000_000;
  max_retry_after = or_else p.max_retry_after 60_000_000_000;
  jitter = p.jitter;
}

-- The doubling behind a wait that no Retry-After set, in int64.
pub next_backoff : RetryPolicy → ℕ → Retry → ℕ
next_backoff p backoff re =
    if pos_i64 re.retry_after
    then backoff
    else if gt_i64 (u64 (backoff * 2)) p.max_backoff
    then p.max_backoff
    else u64 (backoff * 2)

-- What `Do` needs of the outside: ctx.Err(), the select between ctx.Done() and the timer (its answer is
-- ctx.Err() where the context ended first), and time.Duration(float64(base) * factor) with a random
-- factor in [0.5, 1.5).
pub record Waiting (S : Type 0) : Type 0 where
  pub ctx_err : S → Option Error × S
  pub sleep : ℕ → S → Option Error × S
  pub scale : ℕ → S → ℕ × S

-- An attempt ends `Do` with an error or nil, or leaves a retryable error.
data Attempt (S : Type 0) : Type 0 where
  stop : Option Error → S → Attempt S
  again : Error → Retry → S → Attempt S

module _ {S : Type 0} where
  -- errors.As(err, &re) and re.Retryable
  classify : Error → Option Retry → S → Attempt S
  classify e none s = stop (some e) s
  classify e (some re) s = if re.can_retry then again e re s else stop (some e) s

  judge : Option Error × S → Attempt S
  unfolding classify
  judge (none, s) = stop none s
  judge (some e, s) = classify e (as_retryable e) s

  -- An answer of ctx.Err() or of a wait ends `Do` if it is an error.
  resume : Option Error × S → (S → Option Error × S) → Option Error × S
  resume (some e, s) next = (some e, s)
  resume (none, s) next = next s

  -- What follows an attempt that ends `Do`, or does not.
  settle : Attempt S → (Error → Retry → S → Option Error × S) → Option Error × S
  settle (stop r s) next = (r, s)
  settle (again e re s) next = next e re s

module _ {S : Type 0} (env : Waiting S) where
  open env use {ctx_err, sleep, scale}

  -- jitterDuration
  jitter_duration : ℕ → S → ℕ × S
  jitter_duration base s = if pos_i64 base then scale base s else (0, s)

  -- The wait before the next attempt.
  wait_for : RetryPolicy → ℕ → Retry → S → ℕ × S
  unfolding jitter_duration
  wait_for p backoff re s =
      if pos_i64 re.retry_after
      then (
        (if gt_i64 re.retry_after p.max_retry_after then p.max_retry_after else re.retry_after),
        s,
      )
      else if p.jitter
      then jitter_duration backoff s
      else (backoff, s)

  pause : RetryPolicy → ℕ → Retry → S → Option Error × S
  pause p backoff re s = let (wait, s') = wait_for p backoff re s in sleep wait s'

module _ {S : Type 0} (env : Waiting S) (fn : S → Option Error × S) where
  open env use {ctx_err}

  -- `k + 1` rounds are left; the next one is the attempt number `attempt`.
  do_loop : ℕ → RetryPolicy → ℕ → ℕ → Option Error → S → Option Error × S
  do_loop zero p attempt backoff last s = (last, s)
  do_loop (suc k) p attempt backoff last s = resume (ctx_err s) λ s₁.
      settle (judge (fn s₁)) λ e re s₂.
        let next =
          resume (pause env p backoff re s₂)
            (λ s₃. do_loop k p (attempt + 1) (next_backoff p backoff re) (some e) s₃) in
        if leb p.max_attempts attempt then (some e, s₂) else next

  -- Do
  pub do_retry : RetryPolicy → S → Option Error × S
  do_retry policy s = let p = normalise policy in do_loop p.max_attempts p 1 p.base_backoff none s

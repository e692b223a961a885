-- ===== src/RpcChain/Retry/Backoff.antt =====
-- lib/rpcchain/retry.go: how long `Do` waits between its attempts.
use Prim.Native.Nat.{min}
use native.Mathlib.Nat.{pow-suc}
use mathlib.Core.Path.{subst}
use naralabs_atlas.Prelude.{
  ℕ, zero, suc, ◌+◌, ◌*◌, ◌^◌, ◌≤◌, ◌<◌, ◌≡◌, refl, sym, ◌∙◌, false, Option, none, some, List, [],
  ◌∷◌, ◌++◌, arith, append-nil, append_assoc, leb, if◌then◌else◌, Bool-cases, inl, inr, gt_i64,
  pos_i64, u64,
}
use naralabs_atlas.RpcChain.Errors.{Error, Retry, as_retryable}
use naralabs_atlas.RpcChain.Retry.{
  RetryPolicy, normalise, next_backoff, Waiting, classify, judge, resume, settle, wait_for, pause,
  do_loop, do_retry,
}

-- The outside with a log of the waits that were asked for.
module _ {S : Type 0} where
  abbrev pub with_waits : Waiting S → Waiting (S × List ℕ)
  with_waits env = record {
    ctx_err = λ s. let (r, s') = env.ctx_err s.0 in (r, (s', s.1));
    sleep = λ d s. let (r, s') = env.sleep d s.0 in (r, (s', s.1 ++ d ∷ []));
    scale = λ d s. let (r, s') = env.scale d s.0 in (r, (s', s.1));
  }

  abbrev pub beside : (S → Option Error × S) → S × List ℕ → Option Error × (S × List ℕ)
  beside fn (s, log) = let (r, s') = fn s in (r, (s', log))

  -- `P` of the waits logged behind `log`.
  abbrev pub Waits : (List ℕ → Type 0) → List ℕ → Option Error × (S × List ℕ) → Type 0
  Waits P log (r, (s, log')) = (new : List ℕ) × (log' ≡ log ++ new) × P new

-- The waits are base * 2^i, base * 2^(i+1), ..., each cut off at `max`.
abbrev pub Doubling : ℕ → ℕ → ℕ → List ℕ → Type 0
Doubling base max i [] = Unit
Doubling base max i (d ∷ ds) = (d ≡ min (base * 2 ^ i) max) × Doubling base max (suc i) ds

-- Below 2 ^ 62 the doubling in int64 does not wrap.
double_cut :
    (b m : ℕ)
    → m < 2 ^ 62
    → (if gt_i64 (u64 (min b m * 2)) m then m else u64 (min b m * 2)) ≡ min (b * 2) m
double_cut b m h = ground arith

power_step : (b i : ℕ) → b * 2 ^ suc i ≡ b * 2 ^ i * 2
power_step b i = rw pow-suc (omega arith)

doubles :
    (p : RetryPolicy) (i : ℕ) (re : Retry)
    → p.max_backoff < 2 ^ 62
    → pos_i64 re.retry_after ≡ false
    → next_backoff p (min (p.base_backoff * 2 ^ i) p.max_backoff) re
      ≡ min (p.base_backoff * 2 ^ suc i) p.max_backoff
unfolding next_backoff
doubles p i re h n =
    rw (n, if◌then◌else◌, power_step p.base_backoff i)
      (double_cut (p.base_backoff * 2 ^ i) p.max_backoff h)

module _ {S : Type 0} (P : List ℕ → Type 0) (empty : P []) where
  resume-Waits :
      (c : Option Error) (s : S) (log : List ℕ) (next : S × List ℕ → Option Error × (S × List ℕ))
      → Waits P log (next (s, log))
      → Waits P log (resume (c, (s, log)) next)
  unfolding resume
  resume-Waits none s log next h = h
  resume-Waits (some e) s log next h = ([], sym (append-nil log), empty)

  settle-Waits :
      (x : Option Error) (s : S) (log : List ℕ)
      (next : Error → Retry → S × List ℕ → Option Error × (S × List ℕ))
      → ((e : Error) (re : Retry)
          → x ≡ some e
          → as_retryable e ≡ some re
          → Waits P log (next e re (s, log)))
      → Waits P log (settle (judge (x, (s, log))) next)
  unfolding settle judge classify
  settle-Waits none s log next h = ([], sym (append-nil log), empty)
  settle-Waits (some e) s log next h = go (as_retryable e) refl
    where
      go :
          (o : Option Retry)
          → as_retryable e ≡ o
          → Waits P log (settle (classify e o (s, log)) next)
      go none q = ([], sym (append-nil log), empty)
      go (some re) q = elim (Bool-cases re.can_retry) [
        | inl may ↦ simp (may, if◌then◌else◌) (h e re refl q)
        | inr may_not ↦ simp (may_not, if◌then◌else◌) ([], sym (append-nil log), empty)
      ]

module _ {S : Type 0} (env : Waiting S) (fn : S → Option Error × S) (p : RetryPolicy)
    (no_jitter : p.jitter ≡ false) (small : p.max_backoff < 2 ^ 62)
    (no_hint : (s : S) (e : Error) (re : Retry)
      → (fn s).0 ≡ some e
      → as_retryable e ≡ some re
      → pos_i64 re.retry_after ≡ false) where
  pause_waits :
      (backoff : ℕ) (re : Retry) (s : S) (log : List ℕ)
      → pos_i64 re.retry_after ≡ false
      → pause (with_waits env) p backoff re (s, log)
        ≡ ((env.sleep backoff s).0, ((env.sleep backoff s).1, log ++ backoff ∷ []))
  unfolding pause wait_for
  pause_waits backoff re s log n = ground arith

  after_wait :
      (i : ℕ) (c : Option Error) (s : S) (log : List ℕ)
      (next : S × List ℕ → Option Error × (S × List ℕ))
      → let d = min (p.base_backoff * 2 ^ i) p.max_backoff in
        ((s' : S)
          → Waits
              (Doubling p.base_backoff p.max_backoff (suc i))
              (log ++ d ∷ [])
              (next (s', log ++ d ∷ [])))
        → Waits (Doubling p.base_backoff p.max_backoff i) log (resume (c, (s, log ++ d ∷ [])) next)
  unfolding resume
  after_wait i none s log next h =
      let d = min (p.base_backoff * 2 ^ i) p.max_backoff in
      let (new, e, follows) = h s in (d ∷ new, e ∙ append_assoc log (d ∷ []) new, (refl, follows))
  after_wait i (some x) s log next h =
      (min (p.base_backoff * 2 ^ i) p.max_backoff ∷ [], refl, (refl, tt))

  do_loop-Doubling :
      (k attempt i : ℕ) (last : Option Error) (s : S) (log : List ℕ)
      → Waits (Doubling p.base_backoff p.max_backoff i) log (
          do_loop
            (with_waits env)
            (beside fn)
            k
            p
            attempt
            (min (p.base_backoff * 2 ^ i) p.max_backoff)
            last
            (s, log))
  unfolding do_loop
  do_loop-Doubling zero attempt i last s log = ([], sym (append-nil log), tt)
  do_loop-Doubling (suc k) attempt i last s log =
      let D = Doubling p.base_backoff p.max_backoff i in
      let (c, s₁) = env.ctx_err s in
      let (x, s₂) = fn s₁ in
      resume-Waits D tt c s₁ log _ (
        settle-Waits D tt x s₂ log _ λ e re q r. elim (Bool-cases (leb p.max_attempts attempt)) [
          | inl out ↦ rw (out, if◌then◌else◌) ([], sym (append-nil log), tt)
          | inr left ↦
              rw
                (
                  left,
                  if◌then◌else◌,
                  pause_waits (min (p.base_backoff * 2 ^ i) p.max_backoff) re s₂ log
                      (no_hint s₁ e re q r),
                )
                (after_wait i _ _ log _ λ s₃.
                  rw (doubles p i re small (no_hint s₁ e re q r))
                    (do_loop-Doubling k (attempt + 1) (suc i) (some e) s₃ _))
        ])

first_wait : (b m : ℕ) → b ≤ m → min (b * 2 ^ 0) m ≡ b
first_wait b m h = omega arith

-- With the jitter off, a maximum below 2 ^ 62 ns that is no less than the base, and no Retry-After among
-- the errors, `Do` waits base, 2 * base, 4 * base, ..., each cut off at the maximum.
pub do_retry-Doubling :
    {S : Type 0} (env : Waiting S) (fn : S → Option Error × S) (policy : RetryPolicy) (s : S)
    → policy.jitter ≡ false
    → (normalise policy).base_backoff ≤ (normalise policy).max_backoff
    → (normalise policy).max_backoff < 2 ^ 62
    → ((s : S) (e : Error) (re : Retry)
        → (fn s).0 ≡ some e
        → as_retryable e ≡ some re
        → pos_i64 re.retry_after ≡ false)
    → Waits
        (Doubling (normalise policy).base_backoff (normalise policy).max_backoff 0)
        []
        (do_retry (with_waits env) (beside fn) policy (s, []))
unfolding do_retry
do_retry-Doubling {S} env fn policy s j b m n =
    let p = normalise policy in
    subst
      (λ d.
        Waits (Doubling p.base_backoff p.max_backoff 0) []
          (do_loop (with_waits env) (beside fn) p.max_attempts p 1 d none (s, [])))
      (first_wait p.base_backoff p.max_backoff b)
      (do_loop-Doubling env fn p (unfold normalise in j) m n p.max_attempts 1 0 none s [])

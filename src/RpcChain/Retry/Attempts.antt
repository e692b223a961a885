-- ===== src/RpcChain/Retry/Attempts.antt =====
-- lib/rpcchain/retry.go: how often `Do` calls its function, and what it returns.
use naralabs_atlas.Prelude.{
  ℕ, zero, suc, ◌+◌, ◌<◌, ◌≡◌, ◌≢◌, refl, sym, ◌∙◌, Bool, true, false, Option, none, some, List, [],
  ◌∷◌, ◌++◌, arith, append-nil, append_assoc, leb, if◌then◌else◌, Bool-cases, inl, inr, le→leb,
  lt→leb,
}
use naralabs_atlas.RpcChain.Errors.{Error, Retry, as_retryable}
use naralabs_atlas.RpcChain.Retry.{
  RetryPolicy, normalise, next_backoff, Waiting, classify, judge, resume, settle, wait_for,
  jitter_duration, pause, do_loop, do_retry,
}

-- Whether `Do` may try again after the error.
abbrev pub may_retry : Option Retry → Bool
may_retry none = false
may_retry (some re) = re.can_retry

-- The results of at most `k` calls, and the answer: a nil or an error that is not retryable is the last
-- result and the answer; after the others there may be a further call. No call, no nil.
abbrev pub Within : ℕ → Option Error → List (Option Error) → Type 0
Within k r [] = r ≢ none
Within zero r (x ∷ rest) = ⊥
Within (suc k) r (none ∷ rest) = (r ≡ none) × (rest ≡ [])
Within (suc k) r (some e ∷ rest) =
    if may_retry (as_retryable e) then Within k r rest else (r ≡ some e) × (rest ≡ [])

-- The same where nothing else ends the loop: the answer is the last result, and after a retryable
-- error there is a further call while any of the `k` is left. `last` is the answer with none left.
abbrev pub Exactly : ℕ → Option Error → Option Error → List (Option Error) → Type 0
Exactly zero last r log = (r ≡ last) × (log ≡ [])
Exactly (suc k) last r [] = ⊥
Exactly (suc k) last r (none ∷ rest) = (r ≡ none) × (rest ≡ [])
Exactly (suc k) last r (some e ∷ rest) =
    if may_retry (as_retryable e) then Exactly k (some e) r rest else (r ≡ some e) × (rest ≡ [])

-- The outside with a log of the results of the calls.
module _ {S : Type 0} where
  abbrev pub logged :
      (S → Option Error × S) → S × List (Option Error) → Option Error × (S × List (Option Error))
  logged fn (s, log) = let (r, s') = fn s in (r, (s', log ++ r ∷ []))

  abbrev pub with_log : Waiting S → Waiting (S × List (Option Error))
  with_log env = record {
    ctx_err = λ s. let (r, s') = env.ctx_err s.0 in (r, (s', s.1));
    sleep = λ d s. let (r, s') = env.sleep d s.0 in (r, (s', s.1));
    scale = λ d s. let (r, s') = env.scale d s.0 in (r, (s', s.1));
  }

  -- `P` of the answer and of what was logged behind `log`.
  abbrev pub After :
      (Option Error → List (Option Error) → Type 0)
      → List (Option Error)
      → Option Error × (S × List (Option Error))
      → Type 0
  After P log (r, (s, log')) = (new : List (Option Error)) × (log' ≡ log ++ new) × P r new

module _ {S : Type 0} (P : Option Error → List (Option Error) → Type 0) where
  resume-After :
      (c : Option Error) (s : S) (log : List (Option Error))
      (next : S × List (Option Error) → Option Error × (S × List (Option Error)))
      → ((e : Error) → c ≡ some e → P (some e) [])
      → (c ≡ none → After P log (next (s, log)))
      → After P log (resume (c, (s, log)) next)
  unfolding resume
  resume-After none s log next h k = k refl
  resume-After (some e) s log next h k = ([], sym (append-nil log), h e refl)

-- One round of the loop: `P` of the answer and the log, from `Q` of what follows a retryable error.
module _ {S : Type 0} (P : Option Error → List (Option Error) → Type 0)
    (Q : Error → Option Error → List (Option Error) → Type 0) (nil : P none (none ∷ []))
    (final : (e : Error) → may_retry (as_retryable e) ≡ false → P (some e) (some e ∷ []))
    (retry : (e : Error)
      → may_retry (as_retryable e) ≡ true
      → (r : Option Error) (new : List (Option Error)) → Q e r new
      → P r (some e ∷ new)) where
  After-cons :
      (e : Error) (log : List (Option Error)) (res : Option Error × (S × List (Option Error)))
      → may_retry (as_retryable e) ≡ true
      → After (Q e) (log ++ some e ∷ []) res
      → After P log res
  After-cons e log (r, (s, log')) m h =
      (some e ∷ h.0, h.1 ∙ append_assoc log (some e ∷ []) h.0, retry e m r h.0 h.2)

  settle-After :
      (x : Option Error) (s : S) (log : List (Option Error))
      (next : Error → Retry → S × List (Option Error) → Option Error × (S × List (Option Error)))
      → ((e : Error) (re : Retry) (l : List (Option Error)) → After (Q e) l (next e re (s, l)))
      → After P log (settle (judge (x, (s, log ++ x ∷ []))) next)
  unfolding settle judge classify
  settle-After none s log next more = (none ∷ [], refl, nil)
  settle-After (some e) s log next more = go (as_retryable e) refl
    where
      go :
          (o : Option Retry)
          → as_retryable e ≡ o
          → After P log (settle (classify e o (s, log ++ some e ∷ [])) next)
      go none h = (some e ∷ [], refl, final e (rw h))
      go (some re) h = elim (Bool-cases re.can_retry) [
        | inl may ↦
            simp (may, if◌then◌else◌)
              (After-cons e log (next e re (s, log ++ some e ∷ [])) (rw h may) (more e re _))
        | inr may_not ↦ simp (may_not, if◌then◌else◌) (some e ∷ [], refl, final e (rw h may_not))
      ]

module _ {S : Type 0} (env : Waiting S) where
  pause_with_log :
      (p : RetryPolicy) (backoff : ℕ) (re : Retry) (s : S) (log : List (Option Error))
      → pause (with_log env) p backoff re (s, log)
        ≡ ((pause env p backoff re s).0, ((pause env p backoff re s).1, log))
  unfolding pause wait_for jitter_duration
  pause_with_log p backoff re s log = ground arith

  -- What follows a retryable error while attempts are left: a wait, and the rest of the loop.
  wait_then-After :
      (P : Option Error → List (Option Error) → Type 0) (p : RetryPolicy) (attempt backoff : ℕ)
      (e : Error) (re : Retry) (s : S) (log : List (Option Error))
      (next : S × List (Option Error) → Option Error × (S × List (Option Error)))
      → attempt < p.max_attempts
      → ((x : Error) → (pause env p backoff re s).0 ≡ some x → P (some x) [])
      → ((s' : S) → After P log (next (s', log)))
      → After P log (
          if leb p.max_attempts attempt
          then (some e, (s, log))
          else resume (pause (with_log env) p backoff re (s, log)) next)
  wait_then-After P p attempt backoff e re s log next h ended more =
      rw (lt→leb p.max_attempts attempt h, pause_with_log p backoff re s log, if◌then◌else◌)
        (resume-After P (pause env p backoff re s).0 (pause env p backoff re s).1 log next ended
          (λ _. more (pause env p backoff re s).1))

normalise-pos : (policy : RetryPolicy) → 0 < (normalise policy).max_attempts
unfolding normalise
normalise-pos policy = ground arith

module _ {S : Type 0} (env : Waiting S) (fn : S → Option Error × S) where
  -- The answer and the log of what follows a retryable error `e`.
  abbrev rest_of :
      ℕ
      → RetryPolicy
      → ℕ
      → ℕ
      → Error
      → Retry
      → S
      → List (Option Error)
      → Option Error × (S × List (Option Error))
  rest_of k p attempt backoff e re s log =
      let next = resume (pause (with_log env) p backoff re (s, log)) (λ s'.
        do_loop (with_log env) (logged fn) k p (attempt + 1) (next_backoff p backoff re) (some e)
          s') in
      if leb p.max_attempts attempt then (some e, (s, log)) else next

  module _ (P : Option Error → List (Option Error) → Type 0)
      (Q : Error → Option Error → List (Option Error) → Type 0) (nil : P none (none ∷ []))
      (final : (e : Error) → may_retry (as_retryable e) ≡ false → P (some e) (some e ∷ []))
      (retry : (e : Error)
        → may_retry (as_retryable e) ≡ true
        → (r : Option Error) (new : List (Option Error)) → Q e r new
        → P r (some e ∷ new)) where
    round-After :
        (k : ℕ) (p : RetryPolicy) (attempt backoff : ℕ) (last : Option Error) (s : S)
        (log : List (Option Error))
        → ((e : Error) → (env.ctx_err s).0 ≡ some e → P (some e) [])
        → ((e : Error) (re : Retry) (s' : S) (l : List (Option Error))
            → After (Q e) l (rest_of k p attempt backoff e re s' l))
        → After P log (do_loop (with_log env) (logged fn) (suc k) p attempt backoff last (s, log))
    unfolding do_loop
    round-After k p attempt backoff last s log ended more =
        let (c, s₁) = env.ctx_err s in
        let (x, s₂) = fn s₁ in
        resume-After P c s₁ log _ ended
          (λ _. settle-After P Q nil final retry x s₂ log _ (λ e re l. more e re s₂ l))

  do_loop-Within :
      (k : ℕ) (p : RetryPolicy) (attempt backoff : ℕ) (last : Option Error) (s : S)
      (log : List (Option Error))
      → attempt + k ≡ p.max_attempts
      → After
          (Within (suc k))
          log
          (do_loop (with_log env) (logged fn) (suc k) p attempt backoff last (s, log))
  do_loop-Within zero p attempt backoff last s log h =
      round-After (Within 1) (λ _. Within zero) (refl, refl)
        (λ e m. simp (m, if◌then◌else◌) (refl, refl)) (λ e m r new w. simp (m, if◌then◌else◌) w)
        zero p attempt backoff last s log (λ e q z. cc)
        λ e re s' l.
          rw (le→leb p.max_attempts attempt (omega arith), if◌then◌else◌)
            ([], sym (append-nil l), λ z. cc)
  do_loop-Within (suc k) p attempt backoff last s log h =
      round-After (Within (suc (suc k))) (λ _. Within (suc k)) (refl, refl)
        (λ e m. simp (m, if◌then◌else◌) (refl, refl)) (λ e m r new w. simp (m, if◌then◌else◌) w)
        (suc k) p attempt backoff last s log (λ e q z. cc)
        λ e re s' l.
          wait_then-After env (Within (suc k)) p attempt backoff e re s' l _ (omega arith)
            (λ x q z. cc)
            (λ s''.
              do_loop-Within k p (attempt + 1) (next_backoff p backoff re) (some e) s'' l
                (omega arith))

  module _ (open_ctx : (s : S) → (env.ctx_err s).0 ≡ none)
      (full_sleep : (d : ℕ) (s : S) → (env.sleep d s).0 ≡ none) where
    do_loop-Exactly :
        (k : ℕ) (p : RetryPolicy) (attempt backoff : ℕ) (last : Option Error) (s : S)
        (log : List (Option Error))
        → attempt + k ≡ p.max_attempts
        → After
            (Exactly (suc k) last)
            log
            (do_loop (with_log env) (logged fn) (suc k) p attempt backoff last (s, log))
    do_loop-Exactly zero p attempt backoff last s log h =
        round-After (Exactly 1 last) (λ e. Exactly zero (some e)) (refl, refl)
          (λ e m. simp (m, if◌then◌else◌) (refl, refl)) (λ e m r new w. simp (m, if◌then◌else◌) w)
          zero p attempt backoff last s log (λ e q. cc (open_ctx s))
          λ e re s' l.
            rw (le→leb p.max_attempts attempt (omega arith), if◌then◌else◌)
              ([], sym (append-nil l), (refl, refl))
    do_loop-Exactly (suc k) p attempt backoff last s log h =
        round-After (Exactly (suc (suc k)) last) (λ e. Exactly (suc k) (some e)) (refl, refl)
          (λ e m. simp (m, if◌then◌else◌) (refl, refl)) (λ e m r new w. simp (m, if◌then◌else◌) w)
          (suc k) p attempt backoff last s log (λ e q. cc (open_ctx s))
          λ e re s' l.
            wait_then-After env (Exactly (suc k) (some e)) p attempt backoff e re s' l _
              (omega arith) (λ x q. cc (slept p backoff re s'))
              (λ s''.
                do_loop-Exactly k p (attempt + 1) (next_backoff p backoff re) (some e) s'' l
                  (omega arith))
      where
        slept :
            (p : RetryPolicy) (backoff : ℕ) (re : Retry) (s : S)
            → (pause env p backoff re s).0 ≡ none
        slept p backoff re s = unfold pause in full_sleep _ _

    -- While the context lives and every wait ends by its timer, `Do` calls its function until it ends
    -- with nil or with an error that is not retryable, or `max(1, MaxAttempts)` times; it returns the
    -- last result.
    pub do_retry-Exactly :
        (policy : RetryPolicy) (s : S)
        → After
            (Exactly (normalise policy).max_attempts none)
            []
            (do_retry (with_log env) (logged fn) policy (s, []))
    unfolding do_retry
    do_retry-Exactly policy s =
        go (normalise policy) (normalise policy).max_attempts refl (normalise-pos policy)
      where
        go :
            (p : RetryPolicy) (n : ℕ)
            → p.max_attempts ≡ n
            → 0 < n
            → After
                (Exactly n none)
                []
                (do_loop (with_log env) (logged fn) n p 1 p.base_backoff none (s, []))
        go p zero e h = absurd (omega arith)
        go p (suc k) e h = do_loop-Exactly k p 1 p.base_backoff none s [] (omega arith)

  -- `Do` calls its function at most `max(1, MaxAttempts)` times. A call that ends with nil, or with an
  -- error that is not retryable, is the last one and gives the answer; the answer is nil only then.
  pub do_retry-Within :
      (policy : RetryPolicy) (s : S)
      → After
          (Within (normalise policy).max_attempts)
          []
          (do_retry (with_log env) (logged fn) policy (s, []))
  unfolding do_retry
  do_retry-Within policy s =
      go (normalise policy) (normalise policy).max_attempts refl (normalise-pos policy)
    where
      go :
          (p : RetryPolicy) (n : ℕ)
          → p.max_attempts ≡ n
          → 0 < n
          → After
              (Within n)
              []
              (do_loop (with_log env) (logged fn) n p 1 p.base_backoff none (s, []))
      go p zero e h = absurd (omega arith)
      go p (suc k) e h = do_loop-Within k p 1 p.base_backoff none s [] (omega arith)

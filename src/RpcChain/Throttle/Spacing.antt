-- ===== src/RpcChain/Throttle/Spacing.antt =====
-- lib/rpcchain/throttle.go: the time between two requests.
use naralabs_atlas.Prelude.{
  ℕ, ◌+◌, ◌≤◌, ◌≡◌, refl, true, Option, none, some, arith, if◌then◌else◌, Bool-cases, inl, inr,
  pos_i64,
}
use naralabs_atlas.RpcChain.Errors.{Error}
use naralabs_atlas.RpcChain.Throttle.{Throttle, long_ago, left_to_wait, grant, waited, wait}

-- The clock does not go back, and a wait that ends by its timer has lasted: `time` is the time in the
-- outside `w`, of which a reading of the clock is no older.
pub record IsClock {W : Type 0} (clock : W → ℕ × W) (sleep : ℕ → W → Option Error × W)
    (time : W → ℕ) : Type 0 where
  pub reads : (w : W) → time w ≤ (clock w).0
  pub runs : (w : W) → (clock w).0 ≤ time (clock w).1
  pub lasts : (d : ℕ) (w : W) → (sleep d w).0 ≡ none → time w + d ≤ time (sleep d w).1

long_ago-le :
    (t : Throttle) (now l : ℕ)
    → t.last ≡ some l
    → l ≤ now
    → long_ago t now ≡ true
    → l + t.interval ≤ now
unfolding long_ago
long_ago-le t now l e b h = ground arith

left_to_wait-le :
    (t : Throttle) (now l : ℕ)
    → t.last ≡ some l
    → l ≤ now
    → l + t.interval ≤ now + left_to_wait t now
unfolding left_to_wait
left_to_wait-le t now l e b = ground arith

-- What a request that was let through leaves behind, with no request before `bound`.
abbrev pub Granted : {W : Type 0} → (W → ℕ) → ℕ → Option Error × Throttle × W → Type 0
Granted time bound (some e, t, w) = Unit
Granted time bound (none, t, w) = (l : ℕ) × (t.last ≡ some l) × (bound ≤ l) × (l ≤ time w)

module _ {W : Type 0} (clock : W → ℕ × W) (sleep : ℕ → W → Option Error × W) (time : W → ℕ)
    (c : IsClock clock sleep time) where
  grant-Granted :
      (t : Throttle) (w : W) (bound : ℕ)
      → bound ≤ time w
      → Granted time bound (grant clock sleep t w)
  unfolding grant
  grant-Granted t w bound h = ((clock w).0, refl, omega (arith, c.reads w), c.runs w)

  waited-Granted :
      (t : Throttle) (r : Option Error × W) (bound : ℕ)
      → (r.0 ≡ none → bound ≤ time r.1)
      → Granted time bound (waited clock sleep t r)
  unfolding waited
  waited-Granted t (none, w) bound h = grant-Granted t w bound (h refl)
  waited-Granted t (some e, w) bound h = tt

  -- With a positive interval, a request that is let through after one at the time `l` comes no sooner
  -- than the interval after it, and its time is noted.
  pub wait-Granted :
      (t : Throttle) (w : W) (l : ℕ)
      → t.last ≡ some l
      → l ≤ time w
      → pos_i64 t.interval ≡ true
      → Granted time (l + t.interval) (wait clock sleep t w)
  unfolding wait
  wait-Granted t w l e b i =
      let (now, w') = clock w in
      let later : l ≤ now = omega (arith, c.reads w) in
      elim (Bool-cases (long_ago t now)) [
        | inl old ↦
            simp (i, old, if◌then◌else◌)
              (grant-Granted t w' (l + t.interval)
                (omega (arith, long_ago-le t now l e later old, c.runs w)))
        | inr recent ↦
            simp (i, recent, if◌then◌else◌)
              (waited-Granted t (sleep (left_to_wait t now) w') (l + t.interval) (λ g. omega (
                arith,
                left_to_wait-le t now l e later,
                c.runs w,
                c.lasts (left_to_wait t now) w' g,
              )))
      ]

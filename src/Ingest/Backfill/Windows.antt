-- ===== src/Ingest/Backfill/Windows.antt =====
-- The loop of BackfillService.Run (internal/module/ingest/service/backfill_service.go): which windows of ledgers it
-- visits, and when it ends.
use naralabs_atlas.Prelude.{
  ℕ, zero, suc, ◌≡◌, ◌<◌, ◌≤◌, ◌+◌, refl, Bool, true, false, Option, none, some, List, [], ◌∷◌,
  ◌++◌, arith, leb, Result, ok, err, u32, leb→le,
}
use mathlib.Core.Path.{subst}
use naralabs_atlas.RpcChain.Errors.{Error}
use naralabs_atlas.Ingest.Exec.{Exec, pure, after, ◌>>◌}
use naralabs_atlas.Ingest.Backfill.{window_end, step, follow, while_at_most, backfill_loop}

-- Windows of at most `batch` ledgers, one behind the other, from `a` up to, and without, `b`.
pub data Tiles (batch : ℕ) : ℕ → ℕ → List (ℕ × ℕ) → Type 0 where
  done : (a : ℕ) → Tiles batch a a []
  next :
      (a end b : ℕ) (ws : List (ℕ × ℕ))
      → a ≤ end
      → end < a + batch
      → Tiles batch (end + 1) b ws
      → Tiles batch a b ((a, end) ∷ ws)

Tiles-snoc :
    (batch a b end : ℕ) (ws : List (ℕ × ℕ))
    → Tiles batch a b ws
    → b ≤ end
    → end < b + batch
    → Tiles batch a (end + 1) (ws ++ (b, end) ∷ [])
Tiles-snoc batch _ _ end _ (done a) l u = next a end (end + 1) [] l u (done (end + 1))
Tiles-snoc batch _ _ end _ (next a end' b ws' l' u' t) l u =
    next a end' (end + 1) (ws' ++ (b, end) ∷ []) l' u' (Tiles-snoc batch (end' + 1) b end ws' t l u)

abbrev pub note : Result Error (Unit {0}) → ℕ × ℕ → List (ℕ × ℕ) → List (ℕ × ℕ)
note (ok a) x seen = seen ++ x ∷ []
note (err e) x seen = seen

module _ {W : Type 0} where
  -- A call that is no window.
  abbrev pub beside : {A : Type 0} → Exec W A → Exec (W × List (ℕ × ℕ)) A
  beside m (w, seen) = let (r, w') = m w in (r, (w', seen))

  -- A window is noted once it has been filled.
  abbrev pub noted_window : (ℕ → ℕ → Exec W (Unit {0})) → ℕ → ℕ → Exec (W × List (ℕ × ℕ)) (Unit {0})
  noted_window window from to (w, seen) =
      let (r, w') = window from to w in (r, (w', note r (from, to) seen))

after-cases :
    {S A B : Type 0} (P : Result Error B × S → Type 0) (r : Result Error A) (s : S)
    (f : A → Exec S B)
    → ((e : Error) → P (err e, s))
    → ((a : A) → P (f a s))
    → P (after (r, s) f)
after-cases P (ok a) s f h k = k a
after-cases P (err e) s f h k = h e

note-cases :
    {W B : Type 0} (P : Result Error B × (W × List (ℕ × ℕ)) → Type 0) (r : Result Error (Unit {0}))
    (w : W) (x : ℕ × ℕ) (seen : List (ℕ × ℕ)) (f : Unit {0} → Exec (W × List (ℕ × ℕ)) B)
    → ((e : Error) → P (err e, (w, seen)))
    → ((a : Unit {0}) → P (f a (w, seen ++ x ∷ [])))
    → P (after (r, (w, note r x seen)) f)
note-cases P (ok a) w x seen f h k = k a
note-cases P (err e) w x seen f h k = h e

window_end-bounds :
    (batch to cursor : ℕ)
    → 0 < batch
    → to + batch < 4294967296
    → cursor ≤ to
    → (cursor ≤ window_end batch to cursor)
      × (window_end batch to cursor < cursor + batch)
      × (window_end batch to cursor ≤ to)
window_end-bounds batch to cursor b t c = (ground arith, ground arith, ground arith)

-- What one round leaves: the next cursor and the windows up to it.
abbrev Stepped : {W : Type 0} → (batch a to end : ℕ) → Result Error ℕ × (W × List (ℕ × ℕ)) → Type 0
Stepped batch a to end (ok c, (w, seen)) = (c ≡ end + 1) × Tiles batch a (end + 1) seen
Stepped batch a to end (err e, (w, seen)) = (b : ℕ) × (b ≤ to + 1) × Tiles batch a b seen

-- What the loop leaves.
abbrev pub Filled :
    {W : Type 0} → (batch a to : ℕ) → Option (Result Error (Unit {0}) × (W × List (ℕ × ℕ))) → Type 0
Filled batch a to none = ⊥
Filled batch a to (some (ok x, (w, seen))) = Tiles batch a (to + 1) seen
Filled batch a to (some (err e, (w, seen))) = (b : ℕ) × (b ≤ to + 1) × Tiles batch a b seen

module _ {W : Type 0} (window : ℕ → ℕ → Exec W (Unit {0})) (progress : ℕ → Exec W (Unit {0}))
    (live pause : Exec W (Unit {0})) where
  step-Stepped :
      (batch a to cursor : ℕ) (w : W) (seen : List (ℕ × ℕ))
      → 0 < batch
      → to + batch < 4294967296
      → cursor ≤ to
      → Tiles batch a cursor seen
      → Stepped batch a to (window_end batch to cursor) (
          step
            (noted_window window)
            (λ n. beside (progress n))
            (beside live)
            (beside pause)
            batch
            to
            cursor
            (w, seen))
  unfolding step
  step-Stepped batch a to cursor w seen pos fits c tiles =
      let end = window_end batch to cursor in
      let (l, u, m) = window_end-bounds batch to cursor pos fits c in
      let tiles' = Tiles-snoc batch a cursor end seen tiles l u in
      let P = Stepped {W = W} batch a to end in
      let stop : Error → (b : ℕ) × (b ≤ to + 1) × Tiles batch a b seen =
        λ e. (cursor, omega arith, tiles) in
      let stop' : Error → (b : ℕ) × (b ≤ to + 1) × Tiles batch a b (seen ++ (cursor, end) ∷ []) =
        λ e. (end + 1, omega arith, tiles') in
      let w₁ = (live w).1 in
      let w₂ = (window cursor end w₁).1 in
      let w₃ = (progress (u32 (end + 1)) w₂).1 in
      let seen' = seen ++ (cursor, end) ∷ [] in
      let paused : Exec (W × List (ℕ × ℕ)) ℕ = beside pause >> pure (u32 (end + 1)) in
      let progressed : Exec (W × List (ℕ × ℕ)) ℕ = beside (progress (u32 (end + 1))) >> paused in
      let filled : Exec (W × List (ℕ × ℕ)) ℕ = noted_window window cursor end >> progressed in
      after-cases {A = Unit {0}} P (live w).0 (w₁, seen) (λ _. filled) stop
        (λ _.
          note-cases P (window cursor end w₁).0 w₂ (cursor, end) seen (λ _. progressed) stop
            (λ _.
              after-cases {A = Unit {0}} P (progress (u32 (end + 1)) w₂).0 (w₃, seen') (λ _. paused)
                stop'
                (λ _.
                  after-cases {A = Unit {0}} P (pause w₃).0 ((pause w₃).1, seen')
                    (λ _. pure (u32 (end + 1))) stop' (λ _. (ground arith, tiles')))))

  follow-Filled :
      (batch a to end fuel : ℕ) (r : Result Error ℕ × (W × List (ℕ × ℕ)))
      (rest : ℕ → W × List (ℕ × ℕ) → Option (Result Error (Unit {0}) × (W × List (ℕ × ℕ))))
      → Stepped batch a to end r
      → ((w : W) (seen : List (ℕ × ℕ))
          → Tiles batch a (end + 1) seen
          → Filled batch a to (rest (end + 1) (w, seen)))
      → Filled batch a to (
          follow
            (noted_window window)
            (λ n. beside (progress n))
            (beside live)
            (beside pause)
            r
            rest)
  unfolding follow
  follow-Filled batch a to end fuel (err e, (w, seen)) rest h k = h
  follow-Filled batch a to end fuel (ok c, (w, seen)) rest h k = rw (h.0) (k w seen h.1)

  while-Filled :
      (batch a to : ℕ) (test : Bool)
      (body : W × List (ℕ × ℕ) → Option (Result Error (Unit {0}) × (W × List (ℕ × ℕ)))) (w : W)
      (seen : List (ℕ × ℕ))
      → (test ≡ true → Filled batch a to (body (w, seen)))
      → (test ≡ false → Tiles batch a (to + 1) seen)
      → Filled batch a to (
          while_at_most
            (noted_window window)
            (λ n. beside (progress n))
            (beside live)
            (beside pause)
            test
            body
            (w, seen))
  unfolding while_at_most
  while-Filled batch a to true body w seen h k = h refl
  while-Filled batch a to false body w seen h k = k refl

  loop-Filled :
      (fuel batch a to cursor : ℕ) (w : W) (seen : List (ℕ × ℕ))
      → 0 < batch
      → to + batch < 4294967296
      → cursor ≤ to + 1
      → to + 1 < fuel + cursor
      → Tiles batch a cursor seen
      → Filled batch a to (
          backfill_loop
            (noted_window window)
            (λ n. beside (progress n))
            (beside live)
            (beside pause)
            fuel
            batch
            to
            cursor
            (w, seen))
  unfolding backfill_loop
  loop-Filled zero batch a to cursor w seen pos fits c enough tiles = absurd (omega arith)
  loop-Filled (suc fuel) batch a to cursor w seen pos fits c enough tiles =
      while-Filled batch a to (leb cursor to) _ w seen
        (λ test.
          let at_most : cursor ≤ to = leb→le cursor to test in
          let (l, u, m) = window_end-bounds batch to cursor pos fits at_most in
          follow-Filled batch a to (window_end batch to cursor) fuel _ _
            (step-Stepped batch a to cursor w seen pos fits at_most tiles)
            (λ w' seen' tiles'.
              loop-Filled fuel batch a to (window_end batch to cursor + 1) w' seen' pos fits
                (omega arith) (omega arith) tiles'))
        (λ test.
          let at_end : cursor ≡ to + 1 = ground arith in
          subst (λ b. Tiles batch a b seen) at_end tiles)

  -- The loop of Run, for any window, progress, pause and test of the context, from a cursor that is at most one
  -- behind the last ledger `to`, with a batch size above 0 that fits into a uint32 on top of `to`, and
  -- with fuel above `to + 1 - cursor`. It ends within its fuel. If it ends without an error, the windows that
  -- were filled follow one another without a gap or an overlap, have at most `batch` ledgers each, and
  -- cover the ledgers from the cursor to `to` exactly; if it ends with an error, they do so up to some ledger.
  pub backfill_loop-Filled :
      (fuel batch to cursor : ℕ) (w : W)
      → 0 < batch
      → to + batch < 4294967296
      → cursor ≤ to + 1
      → to + 1 < fuel + cursor
      → Filled batch cursor to (
          backfill_loop
            (noted_window window)
            (λ n. beside (progress n))
            (beside live)
            (beside pause)
            fuel
            batch
            to
            cursor
            (w, []))
  backfill_loop-Filled fuel batch to cursor w pos fits c enough =
      loop-Filled fuel batch cursor to cursor w [] pos fits c enough (done cursor)

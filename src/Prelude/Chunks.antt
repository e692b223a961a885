-- ===== src/Prelude/Chunks.antt =====
-- The loop `for i := 0; i < len(xs); i += n { end := min(i+n, len(xs)); ... xs[i:end] ... }`, which
-- internal/client/stellar/resilient_client.go and internal/module/ingest/service/
-- ingest_worker_service.go share.
use Prim.Native.Nat.{ℕ, zero, suc, ◌+◌, ◌-◌, ◌≤◌, ◌<◌}
use mathlib.Core.Path.{◌≡◌, sym, ◌∙◌}
use mathlib.Core.Logic.{inl, inr}
use mathlib.Core.List.{List, [], ◌∷◌, ◌++◌}
use native.Mathlib.Omega.{arith}
use naralabs_atlas.Prelude.Tests.{ltb, if◌then◌else◌, Bool-cases, ltb→lt, ltb→le}
use naralabs_atlas.Prelude.Lists.{
  length, take, drop, All, take-append-drop, take_all, drop-drop, drop_all, length-take,
  length-drop,
}

module _ {ℓ} {A : Type ℓ} where
  -- xs[i:end]
  abbrev slice : ℕ → ℕ → List A → List A
  slice i end xs = take (end - i) (drop i xs)

  -- One round for each unit of fuel: a round starts at `i`, and the next one at `i + n`.
  chunks_from : ℕ → ℕ → ℕ → List A → List (List A)
  chunks_from zero n i xs = []
  chunks_from (suc f) n i xs =
      let rest = chunks_from f n (i + n) xs in
      let end = if ltb (length xs) (i + n) then length xs else i + n in
      if ltb i (length xs) then slice i end xs ∷ rest else []

  -- A round moves `i` on by at least 1, so `len(xs)` rounds are enough.
  unfoldable pub chunks : ℕ → List A → List (List A)
  unfolding chunks_from
  chunks n xs = chunks_from (length xs) n 0 xs

  abbrev pub concat : List (List A) → List A
  concat [] = []
  concat (c ∷ cs) = c ++ concat cs

module _ {ℓ} {A : Type ℓ} where
  -- The cut at the end of the slice does not show: a round takes `n` items, or all that are left.
  slice-eq-take :
      (n i : ℕ) (xs : List A)
      → slice i (if ltb (length xs) (i + n) then length xs else i + n) xs ≡ take n (drop i xs)
  slice-eq-take n i xs = elim (Bool-cases (ltb (length xs) (i + n))) [
    | inl past ↦ rw past (
        take_all (length xs - i) (drop i xs) (omega (arith, length-drop i xs))
        ∙ sym (
            take_all n (drop i xs)
              (omega (arith, length-drop i xs, ltb→lt (length xs) (i + n) past))))
    | inr fits ↦ rw fits (let e : i + n - i ≡ n = omega arith in rw e)
  ]

  concat-chunks_from :
      (f n i : ℕ) (xs : List A)
      → 0 < n
      → length xs ≤ i + f
      → concat (chunks_from f n i xs) ≡ drop i xs
  unfolding chunks_from
  concat-chunks_from zero n i xs p h = sym (drop_all i xs (omega arith))
  concat-chunks_from (suc f) n i xs p h = elim (Bool-cases (ltb i (length xs))) [
    | inl more ↦ rw more (
        rw (slice-eq-take n i xs) (
          rw (concat-chunks_from f n (i + n) xs p (omega arith))
            (rw (← drop-drop n i xs) (take-append-drop n (drop i xs)))))
    | inr done ↦ rw done (sym (drop_all i xs (ltb→le i (length xs) done)))
  ]

  sizes-chunks_from :
      (f n i : ℕ) (xs : List A)
      → 0 < n
      → All (λ c. (0 < length c) × (length c ≤ n)) (chunks_from f n i xs)
  unfolding chunks_from
  sizes-chunks_from zero n i xs p = tt
  sizes-chunks_from (suc f) n i xs p = elim (Bool-cases (ltb i (length xs))) [
    | inl more ↦
        rw (more, slice-eq-take n i xs)
          (
            (
              omega (arith, length-take n (drop i xs), length-drop i xs, ltb→lt i (length xs) more),
              omega (arith, length-take n (drop i xs)),
            ),
            sizes-chunks_from f n (i + n) xs p,
          )
    | inr done ↦ rw done tt
  ]

  -- The chunks in order make up the whole list.
  pub concat-chunks : (n : ℕ) (xs : List A) → 0 < n → concat (chunks n xs) ≡ xs
  unfolding chunks
  concat-chunks n xs p = concat-chunks_from (length xs) n 0 xs p (omega arith)

  -- No chunk is empty, and none is longer than `n`.
  pub sizes-chunks :
      (n : ℕ) (xs : List A) → 0 < n → All (λ c. (0 < length c) × (length c ≤ n)) (chunks n xs)
  unfolding chunks
  sizes-chunks n xs p = sizes-chunks_from (length xs) n 0 xs p

-- ===== src/Ingest/Replay/Progress.antt =====
-- The loop of ReplayService.Run (internal/module/ingest/service/replay_service.go): how its cursor moves.
use naralabs_atlas.Prelude.{
  ℕ, zero, suc, ◌≡◌, ◌<◌, ◌∙◌, refl, sym, ◌&&◌, true, false, none, some, List, [], ◌∷◌, map, arith,
  ltb, Result, ok, ap,
}
use naralabs_atlas.RpcChain.Errors.{Error}
use naralabs_atlas.Ingest.Model.{ContractEvent, Settings, Key, key_of}
use naralabs_atlas.Ingest.Exec.{Exec, after}
use naralabs_atlas.Ingest.Store.{enrich, store_rows}
use naralabs_atlas.Ingest.Store.Log.{keys-enrich}
use naralabs_atlas.Ingest.Materialize.{rematerialize}
use naralabs_atlas.Ingest.Materialize.Keys.{keys-rematerialize}
use naralabs_atlas.Ingest.Replay.{
  ReplayServices, upper_of, last_ledger, next_cursor, replay_rows, replay_step, follow_page,
  unless_done, replay_loop,
}

after-ok :
    {S A B : Type 0} (r : Result Error A × S) (f : A → Exec S B) (a : A)
    → r.0 ≡ ok a
    → after r f ≡ f a r.1
after-ok r f a h = rw (h)

-- The ledger of the last key.
abbrev last_key : ℕ → List Key → ℕ
last_key cursor [] = cursor
last_key cursor (k ∷ ks) = last_key k.ledger ks

last_ledger_by_keys :
    (c : ℕ) (es : List ContractEvent) → last_ledger c es ≡ last_key c (map key_of es)
last_ledger_by_keys c [] = refl
last_ledger_by_keys c (e ∷ es) = last_ledger_by_keys e.ledger es

module _ {W : Type 0} (env : ReplayServices W) (cfg : Settings) where
  abbrev replayed : List ContractEvent → W → List ContractEvent × W
  replayed es w = enrich env.ingest env.ingest.decode true (rematerialize env.ingest.parsers es) w

  -- The rows of a page keep its keys.
  keys-replayed : (es : List ContractEvent) (w : W) → map key_of (replayed es w).0 ≡ map key_of es
  keys-replayed es w =
      keys-enrich env.ingest env.ingest.decode true (rematerialize env.ingest.parsers es) w
      ∙ keys-rematerialize env.ingest.parsers es

  page-cursor :
      (to cursor upper : ℕ) (e : ContractEvent) (es rows : List ContractEvent)
      → map key_of rows ≡ map key_of (e ∷ es)
      → last_ledger e.ledger es ≡ cursor
      → cursor < upper
      → next_cursor to cursor upper rows ≡ some cursor
  page-cursor to cursor upper e es [] keys last below = cc
  page-cursor to cursor upper e es (r ∷ rs) keys last below =
      let same : last_ledger r.ledger rs ≡ cursor =
        last_ledger_by_keys cursor (r ∷ rs)
        ∙ ap (last_key cursor) keys
        ∙ sym (last_ledger_by_keys cursor (e ∷ es))
        ∙ last in
      ground arith

  -- One round on a page whose last ledger is the cursor
  stuck_step :
      (limit to cursor : ℕ) (w : W) (e : ContractEvent) (es : List ContractEvent)
      → cursor < upper_of limit to cursor
      → (env.list cfg.network cursor (upper_of limit to cursor) limit w).0 ≡ ok (e ∷ es)
      → last_ledger e.ledger es ≡ cursor
      → ((rows : List ContractEvent) (w : W) → (store_rows env.ingest rows w).0 ≡ ok tt)
      → (w' : W) × (replay_step env cfg limit to cursor w ≡ (ok (some cursor), w'))
  unfolding replay_step replay_rows
  stuck_step limit to cursor w e es below page last stores =
      let w₁ = (env.list cfg.network cursor (upper_of limit to cursor) limit w).1 in
      let (rows, w₂) = replayed (e ∷ es) w₁ in
      let w₃ = (store_rows env.ingest rows w₂).1 in
      (
        w₃,
        rw (
          page,
          stores rows w₂,
          page-cursor to cursor (upper_of limit to cursor) e es rows (keys-replayed (e ∷ es) w₁)
              last below,
        ),
      )

  -- Let `cursor` be below the upper end of its window and not above `to`, or `to` be 0. If the window at
  -- `cursor` always lists as a non-empty page whose last event lies in the ledger `cursor` itself, and storing
  -- rows does not fail, then the loop of Run reads this same page again and again: no fuel is enough for it to end.
  pub replay_loop-Stuck :
      (limit to cursor : ℕ)
      → cursor < upper_of limit to cursor
      → (ltb 0 to && ltb to cursor) ≡ false
      → ((w : W)
          → (e : ContractEvent) × (es : List ContractEvent) × ((env.list cfg.network cursor
                (upper_of limit to cursor)
                limit
                w).0
              ≡ ok (e ∷ es))
            × (last_ledger e.ledger es ≡ cursor))
      → ((rows : List ContractEvent) (w : W) → (store_rows env.ingest rows w).0 ≡ ok tt)
      → (fuel : ℕ) (w : W) → replay_loop env cfg fuel limit to cursor w ≡ none
  unfolding replay_loop unless_done follow_page
  replay_loop-Stuck limit to cursor below goes_on page stores zero w = refl
  replay_loop-Stuck limit to cursor below goes_on page stores (suc fuel) w =
      let (e, es, listed, last) = page w in
      let (w', step) = stuck_step limit to cursor w e es below listed last stores in
      rw (goes_on, step, replay_loop-Stuck limit to cursor below goes_on page stores fuel w')

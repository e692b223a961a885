-- ===== src/Ingest/Replay.antt =====
-- internal/module/ingest/service/replay_service.go: Run; `rematerialize` stands in Materialize.antt.
pub mod Progress
use naralabs_atlas.Prelude.{
  ℕ, zero, suc, ◌+◌, ◌&&◌, Bool, true, false, Option, none, some, List, [], ◌∷◌, ltb, leb, ◌==◌,
  Result, ok, err, text, Text, if◌then◌else◌, u32, pos_i64,
}
use naralabs_atlas.RpcChain.Errors.{Error, plain}
use naralabs_atlas.Ingest.Model.{ContractEvent, Settings}
use naralabs_atlas.Ingest.Materialize.{rematerialize}
use naralabs_atlas.Ingest.Exec.{Exec, pure, after, ◌>>=◌, ◌>>◌}
use naralabs_atlas.Ingest.Store.{Services, enrich, store_rows}

-- The services of a replay: `list` is ListByLedgerRange of the network, from, to, limit.
pub record ReplayServices (W : Type 0) : Type 0 where
  pub ingest : Services W
  pub list : Text → ℕ → ℕ → ℕ → Exec W (List ContractEvent)

-- upper of the window at `cursor`, in uint32 arithmetic; `to` is 0 for no upper bound
abbrev pub upper_of : ℕ → ℕ → ℕ → ℕ
upper_of limit to cursor =
    let upper = u32 (cursor + u32 limit + 4294967295) in
    if ltb 0 to && ltb to upper then to else upper

-- The ledger of the last row; `cursor` for no row.
abbrev pub last_ledger : ℕ → List ContractEvent → ℕ
last_ledger cursor [] = cursor
last_ledger cursor (e ∷ es) = last_ledger e.ledger es

-- What a page leads to: the end of the replay, or the next cursor.
abbrev pub next_cursor : ℕ → ℕ → ℕ → List ContractEvent → Option ℕ
next_cursor to cursor upper [] =
    if ltb 0 to && leb to cursor then none else if to == 0 then none else some (u32 (upper + 1))
next_cursor to cursor upper (e ∷ es) =
    let last = last_ledger e.ledger es in some (if leb upper last then u32 (upper + 1) else last)

module _ {W : Type 0} (env : ReplayServices W) (cfg : Settings) where
  -- The rows of a page anew
  replay_rows : List ContractEvent → Exec W (List ContractEvent)
  replay_rows [] w = (ok [], w)
  replay_rows (e ∷ es) w =
      let (rows, w') =
        enrich env.ingest env.ingest.decode true (rematerialize env.ingest.parsers (e ∷ es)) w in
      after (store_rows env.ingest rows w') (λ _. pure rows)

  -- One round: the page of the window at `cursor`
  pub replay_step : ℕ → ℕ → ℕ → Exec W (Option ℕ)
  unfolding replay_rows
  replay_step limit to cursor = do
    events ← env.list cfg.network cursor (upper_of limit to cursor) limit
    rows ← replay_rows events
    pure (next_cursor to cursor (upper_of limit to cursor) rows)

  follow_page :
      Result Error (Option ℕ) × W
      → (ℕ → W → Option (Result Error (Unit {0}) × W))
      → Option (Result Error (Unit {0}) × W)
  follow_page (ok (some cursor), w) rest = rest cursor w
  follow_page (ok none, w) rest = some (ok tt, w)
  follow_page (err e, w) rest = some (err e, w)

  unless_done :
      Bool → (W → Option (Result Error (Unit {0}) × W)) → W → Option (Result Error (Unit {0}) × W)
  unless_done true body w = some (ok tt, w)
  unless_done false body w = body w

  -- The loop; `none` is a loop that goes on behind its fuel.
  pub replay_loop : ℕ → ℕ → ℕ → ℕ → W → Option (Result Error (Unit {0}) × W)
  unfolding follow_page unless_done replay_step
  replay_loop zero limit to cursor w = none
  replay_loop (suc fuel) limit to cursor w =
      unless_done (ltb 0 to && ltb to cursor)
        (λ w. follow_page (replay_step limit to cursor w) (replay_loop fuel limit to)) w

  -- Run, with the fuel of its loop
  pub run : ℕ → ℕ → ℕ → W → Option (Result Error (Unit {0}) × W)
  unfolding replay_loop
  run fuel from to w =
      if ltb 0 to && ltb to from
      then some (err (plain (text "from_ledger must be <= to_ledger") false), w)
      else replay_loop fuel (if pos_i64 cfg.replay_batch_size then cfg.replay_batch_size else 500)
          to from w

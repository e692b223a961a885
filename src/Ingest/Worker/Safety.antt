-- ===== src/Ingest/Worker/Safety.antt =====
-- ingestOnce of internal/module/ingest/service/ingest_worker_service.go: the cursor is moved at the end of
-- a cycle, behind the rows of everything that was fetched.
use naralabs_atlas.Prelude.{
  ℕ, ◌≡◌, refl, sym, ◌∙◌, ap, Bool, true, false, Option, none, some, List, [], ◌∷◌, ◌++◌, map, ltb,
  leb, ◌==◌, Result, ok, err, if◌then◌else◌, Text, ◌⊎◌, inl, inr,
}
use naralabs_atlas.RpcChain.Errors.{Error, is_reanchor_cursor}
use naralabs_atlas.Stellar.Model
use naralabs_atlas.Stellar.Batches.{build_filter_batches}
use naralabs_atlas.Ingest.Model.{Settings, Key, key_of}
use naralabs_atlas.Ingest.Exec.{Exec, pure, after, ◌>>=◌, ◌>>◌}
use naralabs_atlas.Ingest.Timing.{resolve_cold_start, reorg_from_ledger}
use naralabs_atlas.Ingest.Store.{Services, materialize_batch, persist}
use naralabs_atlas.Ingest.Store.Log.{
  Log, no_log, with_log, note_fetched, if_ok, silent, Stored, persist-Stored, materialize_with_log,
  keys-materialize_batch,
}
use naralabs_atlas.Ingest.Worker.{
  Worker, lift, store_events, fetch_input, rescan_answer, rescan_batches, too_soon, rescan,
  rescan_at, maybe_rescan_reorg, batch_answer, next_cursor, ingest_batches, move_cursor, cycle_from,
  cold_start, ingest_once,
}

-- All that was fetched has been stored.
abbrev pub Balanced : Log → Type 0
Balanced log = log.stored ≡ log.fetched

module _ {S : Type 0} (log_of : S → Log) where
  -- The cursor did not move, and a run that did not fail stored what it fetched.
  abbrev Kept : {A : Type 0} → Log → Result Error A × S → Type 0
  Kept log (ok a, s) = ((log_of s).moves ≡ log.moves) × Balanced (log_of s)
  Kept log (err e, s) = (log_of s).moves ≡ log.moves

  abbrev Keeps : {A : Type 0} → Exec S A → Type 0
  Keeps m = (s : S) → Balanced (log_of s) → Kept (log_of s) (m s)

  Kept-trans :
      {A : Type 0} (log log' : Log) (r : Result Error A × S)
      → log'.moves ≡ log.moves
      → Kept log' r
      → Kept log r
  Kept-trans log log' (ok a, s) m h = (h.0 ∙ m, h.1)
  Kept-trans log log' (err e, s) m h = h ∙ m

  after-Kept :
      {A B : Type 0} (log : Log) (r : Result Error A × S) (f : A → Exec S B)
      → Kept log r
      → ((a : A) → Keeps (f a))
      → Kept log (after r f)
  after-Kept log (err e, s) f h k = h
  after-Kept log (ok a, s) f h k = Kept-trans log (log_of s) (f a s) h.0 (k a s h.1)

  if-Kept :
      {A : Type 0} (log : Log) (t : Bool) (r r' : Result Error A × S)
      → Kept log r
      → Kept log r'
      → Kept log (if t then r else r')
  if-Kept {A} log true r r' h k = h
  if-Kept {A} log false r r' h k = k

  -- A cycle from an empty log: the cursor moves once at most, and then all that was fetched is stored.
  abbrev pub Moved : {A : Type 0} → Result Error A × S → Type 0
  Moved (ok a, s) =
      ((log_of s).moves ≡ []) ⊎ ((n : ℕ) × ((log_of s).moves ≡ n ∷ []) × Balanced (log_of s))
  Moved (err e, s) = (log_of s).moves ≡ []

  after-Moved :
      {A B : Type 0} (log : Log) (r : Result Error A × S) (f : A → Exec S B)
      → log.moves ≡ []
      → Kept log r
      → ((a : A) (s : S) → (log_of s).moves ≡ [] → Balanced (log_of s) → Moved (f a s))
      → Moved (after r f)
  after-Moved log (err e, s) f none_yet h k = h ∙ none_yet
  after-Moved log (ok a, s) f none_yet h k = k a s (h.0 ∙ none_yet) h.1

abbrev log_of_run : {W : Type 0} → W × Log → Log
log_of_run s = s.1

abbrev pub log_of_worker : {W : Type 0} → Worker (W × Log) → Log
log_of_worker s = s.outside.1

lift-Kept :
    {W A : Type 0} (s : Worker (W × Log)) (log : Log) (r : Result Error A × (W × Log))
    → Kept log_of_run log r
    → Kept log_of_worker log (r.0, record s { outside = r.1 })
lift-Kept s log (ok a, w) h = h
lift-Kept s log (err e, w) h = h

lift-Keeps :
    {W A : Type 0} (m : Exec (W × Log) A) → Keeps log_of_run m → Keeps log_of_worker (lift m)
lift-Keeps m k s b = lift-Kept s s.outside.1 (m s.outside) (k s.outside b)

same-Kept :
    {W A : Type 0} (r : Result Error A) (w : W) (log : Log)
    → Balanced log
    → Kept log_of_run log (r, (w, log))
same-Kept (ok a) w log b = (refl, b)
same-Kept (err e) w log b = refl

silent-Keeps : {W A : Type 0} (m : Exec W A) → Keeps log_of_run (silent m)
silent-Keeps m (w, log) b = same-Kept (m w).0 (m w).1 log b

Stored-Kept :
    {W A : Type 0} (new : List Key) (log log' : Log) (r : Result Error A × (W × Log))
    → log'.moves ≡ log.moves
    → log'.stored ++ new ≡ log'.fetched
    → Stored new log' r
    → Kept log_of_run log r
Stored-Kept new log log' (ok a, (w, l)) m e h = (h.1 ∙ m, h.2 ∙ e ∙ sym h.0)
Stored-Kept new log log' (err x, (w, l)) m e h = h.1 ∙ m

module _ {W : Type 0} (env : Services W) (cfg : Settings) where
  abbrev logged : Services (W × Log)
  logged = with_log env

  -- The rows of the events that were fetched last.
  store_events-Kept :
      (events : List Model.ContractEvent) (w : W) (log : Log)
      → Balanced log
      → Kept log_of_run log (store_events logged cfg events (w, note_fetched events log))
  unfolding store_events
  store_events-Kept events w log b =
      let (rows, w') = materialize_batch env events w in
      rw (materialize_with_log env events w (note_fetched events log)) (
        Stored-Kept (map key_of rows) log (note_fetched events log)
          (persist logged cfg.batch_size rows (w', note_fetched events log)) refl
          (rw (keys-materialize_batch env events w, b))
          (persist-Stored env cfg.batch_size rows w' (note_fetched events log)))

  rescan_answer-Kept :
      (es : Result Error (List Model.ContractEvent)) (next : ℕ) (w : W) (log : Log)
      → Balanced log
      → Kept log_of_run log (rescan_answer logged cfg ((es, next), (w, if_ok es note_fetched log)))
  unfolding rescan_answer
  rescan_answer-Kept (err e) next w log b = refl
  rescan_answer-Kept (ok events) next w log b = store_events-Kept events w log b

  rescan_batches-Keeps :
      (from to : ℕ) (bs : List (List Text))
      → Keeps log_of_run (rescan_batches logged cfg from to bs)
  unfolding rescan_batches
  rescan_batches-Keeps from to [] s b = (refl, b)
  rescan_batches-Keeps from to (c ∷ cs) (w, log) b =
      let r = env.fetch_events (fetch_input env cfg from to c) w in
      after-Kept log_of_run log
        (rescan_answer logged cfg (r.0, (r.1, if_ok r.0.0 note_fetched log)))
        (λ _. rescan_batches logged cfg from to cs) (rescan_answer-Kept r.0.0 r.0.1 r.1 log b)
        (λ _. rescan_batches-Keeps from to cs)

  rescan-Keeps : (from start now : ℕ) → Keeps log_of_worker (rescan logged cfg from start now)
  unfolding rescan
  rescan-Keeps from start now s b =
      after-Kept log_of_worker s.outside.1
        (lift (rescan_batches logged cfg from start (build_filter_batches cfg.watched 25)) s)
        (λ _ s. (ok tt, record s { last_reorg = now }))
        (lift-Keeps _ (rescan_batches-Keeps from start (build_filter_batches cfg.watched 25)) s b)
        (λ _ s b. (refl, b))

  maybe_rescan_reorg-Keeps :
      (last start : ℕ) → Keeps log_of_worker (maybe_rescan_reorg logged cfg last start)
  unfolding maybe_rescan_reorg rescan_at
  maybe_rescan_reorg-Keeps last start s b =
      let (now, w) = env.clock s.outside.0 in
      let s' = record s { outside = (w, s.outside.1) } in
      let from = reorg_from_ledger last cfg.reorg_window in
      let K = if-Kept log_of_worker {A = Unit {0}} s.outside.1 in
      K (cfg.reorg_window == 0) _ _ (refl, b)
        (K (too_soon env cfg s'.last_reorg now) _ _ (refl, b)
          (K (from == 0) _ _ (refl, b)
            (K (leb start from) _ _ (refl, b) (rescan-Keeps from start now s' b))))

  batch_answer-Kept :
      (es : Result Error (List Model.ContractEvent)) (next : ℕ) (w : W) (log : Log)
      → Balanced log
      → Kept log_of_run log (batch_answer logged cfg ((es, next), (w, if_ok es note_fetched log)))
  unfolding batch_answer
  batch_answer-Kept (err e) next w log b =
      if-Kept log_of_run log (is_reanchor_cursor e) (ok none, (w, log)) (err e, (w, log)) (refl, b)
        refl
  batch_answer-Kept (ok events) next w log b =
      after-Kept log_of_run log (store_events logged cfg events (w, note_fetched events log))
        (λ _. pure (some next)) (store_events-Kept events w log b) (λ _ s b. (refl, b))

  next_cursor-Keeps :
      (answer : Option ℕ) (cursor : ℕ) (rest : ℕ → Exec (W × Log) (Option ℕ))
      → ((n : ℕ) → Keeps log_of_run (rest n))
      → Keeps log_of_run (next_cursor logged cfg answer cursor rest)
  unfolding next_cursor
  next_cursor-Keeps none cursor rest k s b = (refl, b)
  next_cursor-Keeps (some next) cursor rest k s b = k (if ltb cursor next then next else cursor) s b

  ingest_batches-Keeps :
      (start latest : ℕ) (bs : List (List Text)) (cursor : ℕ)
      → Keeps log_of_run (ingest_batches logged cfg start latest bs cursor)
  unfolding ingest_batches
  ingest_batches-Keeps start latest [] cursor s b = (refl, b)
  ingest_batches-Keeps start latest (c ∷ cs) cursor (w, log) b =
      let r = env.fetch_events (fetch_input env cfg start latest c) w in
      after-Kept log_of_run log (batch_answer logged cfg (r.0, (r.1, if_ok r.0.0 note_fetched log)))
        (λ answer. next_cursor logged cfg answer cursor (ingest_batches logged cfg start latest cs))
        (batch_answer-Kept r.0.0 r.0.1 r.1 log b)
        (λ answer.
          next_cursor-Keeps answer cursor (ingest_batches logged cfg start latest cs)
            (ingest_batches-Keeps start latest cs))

  upsert_cursor-Moved :
      (r : Result Error (Unit {0})) (n : ℕ) (done : Bool) (s : Worker (W × Log)) (w : W) (log : Log)
      → log.moves ≡ []
      → Balanced log
      → Moved log_of_worker (
          lift
            (λ _.
              after
                (r, (w, if_ok r (λ _ l. record l { moves = l.moves ++ n ∷ [] }) log))
                (λ _. pure done))
            s)
  upsert_cursor-Moved (ok a) n done s w log none_yet b =
      inr (n, ap (λ ms. ms ++ n ∷ []) none_yet, b)
  upsert_cursor-Moved (err e) n done s w log none_yet b = none_yet

  move_cursor-Moved :
      (last latest : ℕ) (found : Option ℕ) (s : Worker (W × Log))
      → s.outside.1.moves ≡ []
      → Balanced s.outside.1
      → Moved log_of_worker (lift (move_cursor logged cfg last latest found) s)
  unfolding move_cursor
  move_cursor-Moved last latest none s none_yet b = inl none_yet
  move_cursor-Moved last latest (some cursor) s none_yet b =
      let next = if leb cursor last then latest else cursor in
      let r = env.upsert_cursor next s.outside.0 in
      upsert_cursor-Moved r.0 next (leb latest next) s r.1 s.outside.1 none_yet b

  if-Moved :
      (t : Bool) (m n : Exec (Worker (W × Log)) Bool) (s : Worker (W × Log))
      → Moved log_of_worker (m s)
      → Moved log_of_worker (n s)
      → Moved log_of_worker ((if t then m else n) s)
  if-Moved true m n s h k = h
  if-Moved false m n s h k = k

  cycle_from-Moved :
      (last latest start : ℕ) (s : Worker (W × Log))
      → s.outside.1.moves ≡ []
      → Balanced s.outside.1
      → Moved log_of_worker (cycle_from logged cfg last latest start s)
  unfolding cycle_from
  cycle_from-Moved last latest start s none_yet b =
      let batches = build_filter_batches cfg.watched 25 in
      let found : Exec (Worker (W × Log)) (Option ℕ) =
        lift (ingest_batches logged cfg start latest batches start) in
      let move : Option ℕ → Exec (Worker (W × Log)) Bool =
        λ f. lift (move_cursor logged cfg last latest f) in
      if-Moved (leb latest start) (pure true)
        (maybe_rescan_reorg logged cfg last start >> (found >>= move)) s (inl none_yet)
        (after-Moved log_of_worker {A = Unit {0}} s.outside.1
          (maybe_rescan_reorg logged cfg last start s) (λ _. found >>= move) none_yet
          (maybe_rescan_reorg-Keeps last start s b)
          (λ _ s₁ n₁ b₁.
            after-Moved log_of_worker s₁.outside.1 (found s₁) move n₁
              (lift-Keeps _ (ingest_batches-Keeps start latest batches start) s₁ b₁)
              (λ f s₂ n₂ b₂. move_cursor-Moved last latest f s₂ n₂ b₂)))

  cold_start-Moved :
      (last latest : ℕ) (start : Option ℕ) (s : Worker (W × Log))
      → s.outside.1.moves ≡ []
      → Balanced s.outside.1
      → Moved log_of_worker (cold_start logged cfg last latest start s)
  unfolding cold_start
  cold_start-Moved last latest none s none_yet b = none_yet
  cold_start-Moved last latest (some start) s none_yet b =
      cycle_from-Moved last latest start s none_yet b

  -- A cycle whose services keep a log, from an empty log: a cycle that fails has not moved the cursor; a cycle
  -- that does not fail has either not moved it, or moved it once and given UpsertBatch, without an
  -- error, the keys of all the events that it fetched, in the order in which they were fetched.
  pub ingest_once-Moved :
      (last_reorg : ℕ) (w : W)
      → Moved log_of_worker (
          ingest_once
            (with_log env)
            cfg
            (record { last_reorg = last_reorg; outside = (w, no_log) }))
  unfolding ingest_once
  ingest_once-Moved last_reorg w =
      let s : Worker (W × Log) = record { last_reorg = last_reorg; outside = (w, no_log) } in
      let start : ℕ → ℕ → Option ℕ =
        λ last latest. resolve_cold_start last latest cfg.retention_ledgers cfg.start_ledger_raw in
      let rest : ℕ → ℕ → Exec (Worker (W × Log)) Bool =
        λ last latest. cold_start logged cfg last latest (start last latest) in
      after-Moved log_of_worker s.outside.1 (lift logged.get_cursor s)
        (λ last. lift logged.latest_ledger >>= rest last) refl
        (lift-Keeps _ (silent-Keeps env.get_cursor) s refl)
        (λ last s₁ n₁ b₁.
          after-Moved log_of_worker s₁.outside.1 (lift logged.latest_ledger s₁) (rest last) n₁
            (lift-Keeps _ (silent-Keeps env.latest_ledger) s₁ b₁)
            (λ latest s₂ n₂ b₂. cold_start-Moved last latest (start last latest) s₂ n₂ b₂))

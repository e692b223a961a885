-- ===== src/Ingest/Store/Log.antt =====
-- The services with a log: the keys of the events that were fetched and of those that UpsertBatch took,
-- and the ledgers that the cursor was moved to.
use naralabs_atlas.Prelude.{
  ℕ, ◌≡◌, refl, sym, ◌∙◌, ap, Bool, true, false, not, Option, none, some, List, [], ◌∷◌, ◌++◌, map,
  arith, append-nil, append_assoc, length, ltb, Result, ok, err, if◌then◌else◌, chunks, concat,
  concat-chunks,
}
use mathlib.Core.List.{map-append}
use mathlib.Core.Path.{subst}
use naralabs_atlas.RpcChain.Errors.{Error}
use naralabs_atlas.Stellar.Model
use naralabs_atlas.Stellar.Model.{FetchEventsInput}
use naralabs_atlas.Ingest.Model.{ContractEvent, Key, key_of}
use naralabs_atlas.Ingest.Materialize.{
  Decoded, key_of_fetched, apply_batch, materialize_events, extract_derived,
}
use naralabs_atlas.Ingest.Materialize.Keys.{keys-apply_batch, keys-materialize_events}
use naralabs_atlas.Ingest.Exec.{Exec, after, ◌>>◌, when}
use naralabs_atlas.Ingest.Store.{
  Services, is_nil, enrich, materialize_batch, publish_ingest, store_rows, persist_chunks, persist,
}

pub record Log : Type 0 where
  pub fetched : List Key
  pub stored : List Key
  pub moves : List ℕ

abbrev pub no_log : Log
no_log = record { fetched = []; stored = []; moves = [] }

-- What a service that succeeded adds to the log.
abbrev pub if_ok : {A : Type 0} → Result Error A → (A → Log → Log) → Log → Log
if_ok (ok a) f log = f a log
if_ok (err e) f log = log

abbrev pub note_fetched : List Model.ContractEvent → Log → Log
note_fetched events log = record log { fetched = log.fetched ++ map key_of_fetched events }

module _ {W : Type 0} where
  -- A service that the log does not tell of.
  abbrev pub silent : {A : Type 0} → (W → A × W) → W × Log → A × (W × Log)
  silent m (w, log) = let (a, w') = m w in (a, (w', log))

  abbrev pub noted : {A : Type 0} → (A → Log → Log) → Exec W A → Exec (W × Log) A
  noted f m (w, log) = let (r, w') = m w in (r, (w', if_ok r f log))

  abbrev pub silent_decode :
      Option (ContractEvent → W → Option Decoded × W)
      → Option (ContractEvent → W × Log → Option Decoded × (W × Log))
  silent_decode none = none
  silent_decode (some d) = some (λ e. silent (d e))

  abbrev pub silent_publish :
      Option (List ContractEvent → W → W) → Option (List ContractEvent → W × Log → W × Log)
  silent_publish none = none
  silent_publish (some p) = some (λ es s. (p es s.0, s.1))

  abbrev pub with_log : Services W → Services (W × Log)
  with_log env = record {
    parsers = env.parsers;
    decode = silent_decode env.decode;
    publish = silent_publish env.publish;
    clock = silent env.clock;
    get_cursor = silent env.get_cursor;
    upsert_cursor =
        λ n. noted (λ _ log. record log { moves = log.moves ++ n ∷ [] }) (env.upsert_cursor n);
    latest_ledger = silent env.latest_ledger;
    fetch_events = λ i s.
        let ((es, next), w) = env.fetch_events i s.0 in
        ((es, next), (w, if_ok es note_fetched s.1));
    upsert_batch = λ rows.
        noted (λ _ log. record log { stored = log.stored ++ map key_of rows })
          (env.upsert_batch rows);
    upsert_addresses = λ rows. silent (env.upsert_addresses rows);
    upsert_token_events = λ rows. silent (env.upsert_token_events rows);
  }

-- A run from the log `log`: whether it fails or not, what was fetched and the moves of the cursor stay; if
-- it does not fail, the keys `new` have been stored.
abbrev pub Stored : {W A : Type 0} → List Key → Log → Result Error A × (W × Log) → Type 0
Stored new log (ok a, (w, log')) =
    (log'.fetched ≡ log.fetched) × (log'.moves ≡ log.moves) × (log'.stored ≡ log.stored ++ new)
Stored new log (err e, (w, log')) = (log'.fetched ≡ log.fetched) × (log'.moves ≡ log.moves)

Stored-trans :
    {W A : Type 0} (new new' : List Key) (log log' : Log) (r : Result Error A × (W × Log))
    → log'.fetched ≡ log.fetched
    → log'.moves ≡ log.moves
    → log'.stored ≡ log.stored ++ new
    → Stored new' log' r
    → Stored (new ++ new') log r
Stored-trans new new' log log' (ok a, (w, l)) f m s h =
    (h.0 ∙ f, h.1 ∙ m, h.2 ∙ ap (λ ks. ks ++ new') s ∙ append_assoc log.stored new new')
Stored-trans new new' log log' (err e, (w, l)) f m s h = (h.0 ∙ f, h.1 ∙ m)

after-Stored :
    {W A B : Type 0} (new new' : List Key) (log : Log) (r : Result Error A × (W × Log))
    (f : A → Exec (W × Log) B)
    → Stored new log r
    → ((a : A) (w : W) (log' : Log) → Stored new' log' (f a (w, log')))
    → Stored (new ++ new') log (after r f)
after-Stored new new' log (err e, (w, log')) f h k = h
after-Stored new new' log (ok a, (w, log')) f h k =
    Stored-trans new new' log log' (f a (w, log')) h.0 h.1 h.2 (k a w log')

same-Stored : {W A : Type 0} (r : Result Error A) (w : W) (log : Log) → Stored [] log (r, (w, log))
same-Stored (ok a) w log = (refl, refl, sym (append-nil log.stored))
same-Stored (err e) w log = (refl, refl)

-- UpsertBatch
upsert-Stored :
    {W : Type 0} (rows : List ContractEvent) (r : Result Error (Unit {0})) (w : W) (log : Log)
    → Stored
        (map key_of rows)
        log
        (r, (w, if_ok r (λ _ l. record l { stored = l.stored ++ map key_of rows }) log))
upsert-Stored rows (ok a) w log = (refl, refl, refl)
upsert-Stored rows (err e) w log = (refl, refl)

module _ {W : Type 0} (env : Services W) where
  abbrev logged : Services (W × Log)
  logged = with_log env

  when-Stored :
      (b : Bool) (m : Exec W (Unit {0})) (w : W) (log : Log)
      → Stored [] log (when b (silent m) (w, log))
  when-Stored true m w log = same-Stored (m w).0 (m w).1 log
  when-Stored false m w log = same-Stored (ok tt) w log

  addresses-Stored :
      (rows : List ContractEvent) (w : W) (log : Log)
      → Stored [] log (
          when
            (not (is_nil (extract_derived env.parsers rows).0))
            (logged.upsert_addresses (extract_derived env.parsers rows).0)
            (w, log))
  addresses-Stored rows w log =
      when-Stored (not (is_nil (extract_derived env.parsers rows).0))
        (env.upsert_addresses (extract_derived env.parsers rows).0) w log

  tokens-Stored :
      (rows : List ContractEvent) (w : W) (log : Log)
      → Stored [] log (
          when
            (not (is_nil (extract_derived env.parsers rows).1))
            (logged.upsert_token_events (extract_derived env.parsers rows).1)
            (w, log))
  tokens-Stored rows w log =
      when-Stored (not (is_nil (extract_derived env.parsers rows).1))
        (env.upsert_token_events (extract_derived env.parsers rows).1) w log

  pub store_rows-Stored :
      (rows : List ContractEvent) (w : W) (log : Log)
      → Stored (map key_of rows) log (store_rows logged rows (w, log))
  unfolding store_rows
  store_rows-Stored rows w log =
      let addresses : Exec (W × Log) (Unit {0}) =
        when (not (is_nil (extract_derived env.parsers rows).0))
          (logged.upsert_addresses (extract_derived env.parsers rows).0) in
      let tokens : Exec (W × Log) (Unit {0}) =
        when (not (is_nil (extract_derived env.parsers rows).1))
          (logged.upsert_token_events (extract_derived env.parsers rows).1) in
      subst (λ ks. Stored ks log (store_rows logged rows (w, log))) (append-nil (map key_of rows))
        (after-Stored {A = Unit {0}} {B = Unit {0}} (map key_of rows) [] log
          (logged.upsert_batch rows (w, log)) (λ _. addresses >> tokens)
          (upsert-Stored rows (env.upsert_batch rows w).0 (env.upsert_batch rows w).1 log)
          (λ _ w₁ l₁.
            after-Stored {A = Unit {0}} {B = Unit {0}} [] [] l₁ (addresses (w₁, l₁)) (λ _. tokens)
              (addresses-Stored rows w₁ l₁) (λ _ w₂ l₂. tokens-Stored rows w₂ l₂)))

  publish-Stored :
      (p : Option (List ContractEvent → W → W)) (c : List ContractEvent) (w : W) (log : Log)
      → Stored [] log (publish_ingest logged (silent_publish p) c (w, log))
  unfolding publish_ingest
  publish-Stored none c w log = same-Stored (ok tt) w log
  publish-Stored (some p) [] w log = same-Stored (ok tt) w log
  publish-Stored (some p) (e ∷ es) w log = same-Stored (ok tt) (p (e ∷ es) w) log

  persist_chunks-Stored :
      (cs : List (List ContractEvent)) (w : W) (log : Log)
      → Stored (map key_of (concat cs)) log (persist_chunks logged cs (w, log))
  unfolding persist_chunks
  persist_chunks-Stored [] w log = same-Stored (ok tt) w log
  persist_chunks-Stored (c ∷ cs) w log =
      let rest : Exec (W × Log) (Unit {0}) = persist_chunks logged cs in
      let publish : Exec (W × Log) (Unit {0}) =
        publish_ingest logged (silent_publish env.publish) c in
      rw (map-append) (
        after-Stored {A = Unit {0}} {B = Unit {0}} (map key_of c) (map key_of (concat cs)) log
          (store_rows logged c (w, log)) (λ _. publish >> rest) (store_rows-Stored c w log)
          (λ _ w₁ l₁.
            after-Stored {A = Unit {0}} {B = Unit {0}} [] (map key_of (concat cs)) l₁
              (publish (w₁, l₁)) (λ _. rest) (publish-Stored env.publish c w₁ l₁)
              (λ _ w₂ l₂. persist_chunks-Stored cs w₂ l₂)))

  -- If persist succeeds, UpsertBatch has taken all the rows, in their order. Whether it does or not, it has fetched
  -- no event and not moved the cursor.
  pub persist-Stored :
      (batch_size : ℕ) (rows : List ContractEvent) (w : W) (log : Log)
      → Stored (map key_of rows) log (persist logged batch_size rows (w, log))
  unfolding persist
  persist-Stored batch_size [] w log = same-Stored (ok tt) w log
  persist-Stored batch_size (e ∷ es) w log =
      let size : ℕ = if ltb 0 batch_size then batch_size else length (e ∷ es) in
      subst
        (λ rows.
          Stored (map key_of rows) log (persist_chunks logged (chunks size (e ∷ es)) (w, log)))
        (concat-chunks size (e ∷ es) (ground arith))
        (persist_chunks-Stored (chunks size (e ∷ es)) w log)

  apply_batch_with_log :
      (d : ContractEvent → W → Option Decoded × W) (bump : Bool) (now : ℕ) (es : List ContractEvent)
      (w : W) (log : Log)
      → apply_batch (λ e. silent (d e)) bump now es (w, log)
        ≡ ((apply_batch d bump now es w).0, ((apply_batch d bump now es w).1, log))
  unfolding apply_batch
  apply_batch_with_log d bump now [] w log = refl
  apply_batch_with_log d bump now (e ∷ es) w log =
      rw (apply_batch_with_log d bump now es (d e w).1 log)

  enrich_with_log :
      (d : Option (ContractEvent → W → Option Decoded × W)) (bump : Bool) (es : List ContractEvent)
      (w : W) (log : Log)
      → enrich logged (silent_decode d) bump es (w, log)
        ≡ ((enrich env d bump es w).0, ((enrich env d bump es w).1, log))
  unfolding enrich
  enrich_with_log none bump es w log = refl
  enrich_with_log (some d) bump [] w log = refl
  enrich_with_log (some d) bump (e ∷ es) w log =
      apply_batch_with_log d bump (env.clock w).0 (e ∷ es) (env.clock w).1 log

  pub keys-enrich :
      (d : Option (ContractEvent → W → Option Decoded × W)) (bump : Bool) (es : List ContractEvent)
      (w : W)
      → map key_of (enrich env d bump es w).0 ≡ map key_of es
  unfolding enrich
  keys-enrich none bump es w = refl
  keys-enrich (some d) bump [] w = refl
  keys-enrich (some d) bump (e ∷ es) w =
      keys-apply_batch d bump (env.clock w).0 (e ∷ es) (env.clock w).1

  pub materialize_with_log :
      (es : List Model.ContractEvent) (w : W) (log : Log)
      → materialize_batch logged es (w, log)
        ≡ ((materialize_batch env es w).0, ((materialize_batch env es w).1, log))
  unfolding materialize_batch
  materialize_with_log es w log =
      enrich_with_log env.decode false (materialize_events env.parsers es) w log

  pub keys-materialize_batch :
      (es : List Model.ContractEvent) (w : W)
      → map key_of (materialize_batch env es w).0 ≡ map key_of_fetched es
  unfolding materialize_batch
  keys-materialize_batch es w =
      keys-enrich env.decode false (materialize_events env.parsers es) w
      ∙ keys-materialize_events env.parsers es

-- ===== src/Database.antt =====
-- A service over PostgreSQL: the tables with what else the methods of its repositories read. A statement is one step
-- on the tables; it fails where the next of `faults` is an error, and then changes nothing. Any other failure of the
-- driver or the server (a constraint apart, which is written out) is such a fault. Time is in nanoseconds.
pub mod Keeps
use naralabs_atlas.Prelude.{ℕ, ◌+◌, Option, none, some, List, [], ◌∷◌, Text, Result, ok, err}

-- `ticks` is the time that passes before each reading of the clock, and `random` what crypto/rand gives, in
-- hexadecimal; `none` is an error.
pub record Db (T : Type 0) : Type 0 where
  pub tables : T
  pub faults : List (Option Text)
  pub clock : ℕ
  pub ticks : List ℕ
  pub random : List (Option Text)

abbrev pub Query : Type 0 → Type 0 → Type 0 → Type 0
Query E T A = Db T → Result E A × Db T

abbrev tick : {T : Type 0} → List ℕ → Db T → ℕ × Db T
tick [] db = (db.clock, db)
tick (n ∷ ns) db = (db.clock + n, record db { clock = db.clock + n; ticks = ns })

module _ {E T : Type 0} where
  abbrev pub pure : {A : Type 0} → A → Query E T A
  pure a db = (ok a, db)

  abbrev pub raise : {A : Type 0} → E → Query E T A
  raise e db = (err e, db)

  abbrev pub after : {A B : Type 0} → Result E A × Db T → (A → Query E T B) → Result E B × Db T
  after (ok a, db) f = f a db
  after (err e, db) f = (err e, db)

  infixl 5 ◌>>=◌ ◌>>◌
  abbrev pub ◌>>=◌ : {A B : Type 0} → Query E T A → (A → Query E T B) → Query E T B
  ◌>>=◌ m f db = after (m db) f

  abbrev pub ◌>>◌ : {B : Type 0} → Query E T (Unit {0}) → Query E T B → Query E T B
  m >> n = m >>= λ _. n

  -- An error is handled; what was done before it stays done.
  abbrev pub handle : {A : Type 0} → Result E A × Db T → (E → Query E T A) → Result E A × Db T
  handle (ok a, db) f = (ok a, db)
  handle (err e, db) f = f e db

  abbrev pub catch : {A : Type 0} → Query E T A → (E → Query E T A) → Query E T A
  catch m f db = handle (m db) f

  abbrev pub of_option : {A : Type 0} → E → Option A → Query E T A
  of_option e none = raise e
  of_option e (some a) = pure a

  -- A statement that reads the tables, and one that changes them; `fail` is the error around a fault.
  abbrev run_at : {A : Type 0} → (Text → E) → List (Option Text) → (T → A × T) → Query E T A
  run_at fail [] f db = (ok (f db.tables).0, record db { tables = (f db.tables).1 })
  run_at fail (none ∷ rest) f db =
      (ok (f db.tables).0, record db { tables = (f db.tables).1; faults = rest })
  run_at fail (some e ∷ rest) f db = (err (fail e), record db { faults = rest })

  abbrev pub statement : {A : Type 0} → (Text → E) → (T → A × T) → Query E T A
  statement fail f db = run_at fail db.faults f db

  abbrev pub select : {A : Type 0} → (Text → E) → (T → A) → Query E T A
  select fail f = statement fail (λ t. (f t, t))

  abbrev pub update : (Text → E) → (T → T) → Query E T (Unit {0})
  update fail f = statement fail (λ t. (tt, f t))

  -- The end of a transaction that began with the tables `old`: a commit, or the deferred Rollback.
  abbrev commit_at : {A : Type 0} → (Text → E) → T → Result E A × Db T → Result E A × Db T
  commit_at fail old (err e, db) = (err e, record db { tables = old })
  commit_at fail old (ok a, db) =
      handle (select fail (λ t. a) db) (λ e db'. (err e, record db' { tables = old }))

  -- Begin, the body, and Commit; `begin_fail` and `commit_fail` are the errors around their faults.
  abbrev pub transaction : {A : Type 0} → (Text → E) → (Text → E) → Query E T A → Query E T A
  transaction begin_fail commit_fail body =
      select begin_fail (λ t. tt) >>= λ _ db. commit_at commit_fail db.tables (body db)

  -- s.now()
  abbrev pub now : Query E T ℕ
  now db = let (t, db') = tick db.ticks db in (ok t, db')

  -- rand.Read and hex.EncodeToString; a source that is used up is one that fails.
  abbrev draw : (Text → E) → List (Option Text) → Query E T Text
  draw fail [] db = (err (fail []), db)
  draw fail (none ∷ rest) db = (err (fail []), record db { random = rest })
  draw fail (some raw ∷ rest) db = (ok raw, record db { random = rest })

  abbrev pub random_text : (Text → E) → Query E T Text
  random_text fail db = draw fail db.random db

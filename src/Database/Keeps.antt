-- ===== src/Database/Keeps.antt =====
-- What a method of a service keeps of the tables, whatever it returns and whichever statements fail.
use naralabs_atlas.Prelude.{
  ◌≡◌, refl, ◌⊎◌, inl, inr, ℕ, Option, none, some, List, [], ◌∷◌, Bool, true, false, Text, Result,
  ok, err, if◌then◌else◌,
}
use naralabs_atlas.Database.{
  Db, Query, pure, raise, after, ◌>>=◌, handle, catch, of_option, statement, select, transaction,
  now, random_text, run_at, commit_at, tick, draw,
}

module _ {E T : Type 0} (P : T → Type 0) where
  unfoldable pub Keeps : {A : Type 0} → Query E T A → Type 0
  Keeps m = (db : Db T) → P db.tables → P (m db).1.tables

  -- The same of the rest of a method, at a state that was reached.
  after-Keeps :
      {A B : Type 0} (r : Result E A × Db T) (f : A → Query E T B)
      → P r.1.tables
      → ((a : A) → Keeps (f a))
      → P (after r f).1.tables
  unfolding Keeps
  after-Keeps (ok a, db) f h k = k a db h
  after-Keeps (err e, db) f h k = h

  pub bind-Keeps :
      {A B : Type 0} (m : Query E T A) (f : A → Query E T B)
      → Keeps m
      → ((a : A) → Keeps (f a))
      → Keeps (m >>= f)
  unfolding Keeps
  bind-Keeps m f h k db p = after-Keeps (m db) f (h db p) k

  handle-Keeps :
      {A : Type 0} (r : Result E A × Db T) (f : E → Query E T A)
      → P r.1.tables
      → ((e : E) → Keeps (f e))
      → P (handle r f).1.tables
  unfolding Keeps
  handle-Keeps (ok a, db) f h k = h
  handle-Keeps (err e, db) f h k = k e db h

  pub catch-Keeps :
      {A : Type 0} (m : Query E T A) (f : E → Query E T A)
      → Keeps m
      → ((e : E) → Keeps (f e))
      → Keeps (catch m f)
  unfolding Keeps
  catch-Keeps m f h k db p = handle-Keeps (m db) f (h db p) k

  pub of_option-Keeps : {A : Type 0} (e : E) (o : Option A) → Keeps (of_option e o)
  unfolding Keeps
  of_option-Keeps e none db p = p
  of_option-Keeps e (some a) db p = p

  pub if-Keeps :
      {A : Type 0} (b : Bool) (m n : Query E T A) → Keeps m → Keeps n → Keeps (if b then m else n)
  unfolding Keeps
  if-Keeps true m n h k = h
  if-Keeps false m n h k = k

  statement_at-Keeps :
      {A : Type 0} (fail : Text → E) (faults : List (Option Text)) (f : T → A × T)
      → ((t : T) → P t → P (f t).1)
      → Keeps (run_at fail faults f)
  unfolding Keeps
  statement_at-Keeps fail [] f h db p = h db.tables p
  statement_at-Keeps fail (none ∷ rest) f h db p = h db.tables p
  statement_at-Keeps fail (some e ∷ rest) f h db p = p

  pub statement-Keeps :
      {A : Type 0} (fail : Text → E) (f : T → A × T)
      → ((t : T) → P t → P (f t).1)
      → Keeps (statement fail f)
  unfolding Keeps
  statement-Keeps fail f h db p = statement_at-Keeps fail db.faults f h db p

  pub select-Keeps : {A : Type 0} (fail : Text → E) (f : T → A) → Keeps (select fail f)
  unfolding Keeps
  select-Keeps fail f = statement-Keeps fail (λ t. (f t, t)) (λ t p. p)

  commit_at-Keeps :
      {A : Type 0} (fail : Text → E) (old : T) (r : Result E A × Db T)
      → P old
      → P r.1.tables
      → P (commit_at fail old r).1.tables
  unfolding Keeps
  commit_at-Keeps fail old (err e, db) p h = p
  commit_at-Keeps fail old (ok a, db) p h =
      handle-Keeps (select fail (λ t. a) db) (λ e db'. (err e, record db' { tables = old }))
        (select-Keeps fail (λ t. a) db h) (λ e db' q. p)

  pub transaction-Keeps :
      {A : Type 0} (begin_fail commit_fail : Text → E) (body : Query E T A)
      → Keeps body
      → Keeps (transaction begin_fail commit_fail body)
  unfolding Keeps
  transaction-Keeps begin_fail commit_fail body k =
      bind-Keeps (select begin_fail (λ t. tt)) _ (select-Keeps begin_fail (λ t. tt))
        (λ u db p. commit_at-Keeps commit_fail db.tables (body db) p (k db p))

  draw-Keeps : (fail : Text → E) (rs : List (Option Text)) → Keeps (draw fail rs)
  unfolding Keeps
  draw-Keeps fail [] db p = p
  draw-Keeps fail (none ∷ rs) db p = p
  draw-Keeps fail (some r ∷ rs) db p = p

  pub random_text-Keeps : (fail : Text → E) → Keeps (random_text fail)
  unfolding Keeps
  random_text-Keeps fail db p = draw-Keeps fail db.random db p

-- The rest of a method, after a step that gave a value.
pub after_ok :
    {E T A B : Type 0} (r : Result E A × Db T) (f : A → Query E T B) (a : A)
    (out : Result E B × Db T)
    → r.0 ≡ ok a
    → after r f ≡ out
    → f a r.1 ≡ out
after_ok (ok b, db) f a out h e = cc
after_ok (err x, db) f a out h e = cc

module _ {E T A B : Type 0} where
  pub after_at :
      (r : Result E A × Db T) (f : A → Query E T B) (a : A) → r.0 ≡ ok a → after r f ≡ f a r.1
  after_at (ok b, db) f a h = cc
  after_at (err x, db) f a h = cc

  pub after_err :
      (r : Result E A × Db T) (f : A → Query E T B) (e : E) → r.0 ≡ err e → (after r f).0 ≡ err e
  after_err (ok b, db) f e h = cc
  after_err (err x, db) f e h = cc

module _ {E T A : Type 0} where
  pub handle_ok :
      (r : Result E A × Db T) (f : E → Query E T A) (a : A) → r.0 ≡ ok a → (handle r f).0 ≡ ok a
  handle_ok (ok b, db) f a h = h
  handle_ok (err x, db) f a h = cc

  pub handle_err :
      (r : Result E A × Db T) (f : E → Query E T A) (e : E) → r.0 ≡ err e → handle r f ≡ f e r.1
  handle_err (ok b, db) f e h = cc
  handle_err (err x, db) f e h = cc

  select_at_cases :
      (fail : Text → E) (faults : List (Option Text)) (f : T → A) (db : Db T)
      → ((run_at fail faults (λ t. (f t, t)) db).0 ≡ ok (f db.tables))
        ⊎ ((e : Text) × ((run_at fail faults (λ t. (f t, t)) db).0 ≡ err (fail e)))
  select_at_cases fail [] f db = inl refl
  select_at_cases fail (none ∷ rest) f db = inl refl
  select_at_cases fail (some e ∷ rest) f db = inr (e, refl)

  -- A SELECT gives what the tables hold, or fails by a fault.
  pub select_cases :
      (fail : Text → E) (f : T → A) (db : Db T)
      → ((select fail f db).0 ≡ ok (f db.tables))
        ⊎ ((e : Text) × ((select fail f db).0 ≡ err (fail e)))
  select_cases fail f db = select_at_cases fail db.faults f db

-- What does not depend on the tables.
pub const-Keeps : {E T A : Type 0} (X : Type 0) (m : Query E T A) → Keeps (λ t. X) m
unfolding Keeps
const-Keeps X m db x = x

pub pure-Keeps :
    {T : Type 0} (E : Type 0) (P : T → Type 0) {A : Type 0} (a : A) → Keeps {E = E} P (pure a)
unfolding Keeps
pure-Keeps E P a db p = p

pub raise-Keeps : {E T : Type 0} (P : T → Type 0) (A : Type 0) (e : E) → Keeps P {A = A} (raise e)
unfolding Keeps
raise-Keeps P A e db p = p

tick-Keeps :
    {T : Type 0} (P : T → Type 0) (ns : List ℕ) (db : Db T) → P db.tables → P (tick ns db).1.tables
tick-Keeps P [] db p = p
tick-Keeps P (n ∷ ns) db p = p

pub now-Keeps : {T : Type 0} (E : Type 0) (P : T → Type 0) → Keeps {E = E} P now
unfolding Keeps
now-Keeps E P db p = tick-Keeps P db.ticks db p

-- Where a method ends: with a value and what `Q` says of it and of the tables, or with an error and tables of `R`.
module _ {E T : Type 0} (R : T → Type 0) where
  abbrev pub Ends : {A : Type 0} → (A → T → Type 0) → Result E A × Db T → Type 0
  Ends Q (ok a, db) = Q a db.tables
  Ends Q (err e, db) = R db.tables

  unfoldable pub Gives : {A : Type 0} → (T → Type 0) → Query E T A → (A → T → Type 0) → Type 0
  Gives P m Q = (db : Db T) → P db.tables → Ends Q (m db)

  after-Ends :
      {A B : Type 0} (Q : A → T → Type 0) (S : B → T → Type 0) (r : Result E A × Db T)
      (f : A → Query E T B)
      → Ends Q r
      → ((a : A) → Gives (Q a) (f a) S)
      → Ends S (after r f)
  unfolding Gives
  after-Ends Q S (ok a, db) f h k = k a db h
  after-Ends Q S (err e, db) f h k = h

  pub bind-Gives :
      {A B : Type 0} (P : T → Type 0) (Q : A → T → Type 0) (S : B → T → Type 0) (m : Query E T A)
      (f : A → Query E T B)
      → Gives P m Q
      → ((a : A) → Gives (Q a) (f a) S)
      → Gives P (m >>= f) S
  unfolding Gives
  bind-Gives P Q S m f h k db p = after-Ends Q S (m db) f (h db p) k

  handle-Ends :
      {A : Type 0} (Q : A → T → Type 0) (r : Result E A × Db T) (f : E → Query E T A)
      → Ends Q r
      → ((e : E) → Gives R (f e) Q)
      → Ends Q (handle r f)
  unfolding Gives
  handle-Ends Q (ok a, db) f h k = h
  handle-Ends Q (err e, db) f h k = k e db h

  pub catch-Gives :
      {A : Type 0} (P : T → Type 0) (Q : A → T → Type 0) (m : Query E T A) (f : E → Query E T A)
      → Gives P m Q
      → ((e : E) → Gives R (f e) Q)
      → Gives P (catch m f) Q
  unfolding Gives
  catch-Gives P Q m f h k db p = handle-Ends Q (m db) f (h db p) k

  pub if-Gives :
      {A : Type 0} (b : Bool) (P : T → Type 0) (Q : A → T → Type 0) (m n : Query E T A)
      → Gives P m Q
      → Gives P n Q
      → Gives P (if b then m else n) Q
  if-Gives true P Q m n h k = h
  if-Gives false P Q m n h k = k

  Keeps-Ends :
      {A : Type 0} (P : T → Type 0) (r : Result E A × Db T)
      → ((t : T) → P t → R t)
      → P r.1.tables
      → Ends (λ a t. P t) r
  unfolding Keeps
  Keeps-Ends P (ok a, db) w h = h
  Keeps-Ends P (err e, db) w h = w db.tables h

  pub Keeps-Gives :
      {A : Type 0} (P : T → Type 0) (m : Query E T A)
      → ((t : T) → P t → R t)
      → Keeps P m
      → Gives P m (λ a t. P t)
  unfolding Keeps Gives
  Keeps-Gives P m w h db p = Keeps-Ends P (m db) w (h db p)

  pub Ends-Keeps :
      {A : Type 0} (Q : A → T → Type 0) (r : Result E A × Db T)
      → ((a : A) (t : T) → Q a t → R t)
      → Ends Q r
      → R r.1.tables
  Ends-Keeps Q (ok a, db) w h = w a db.tables h
  Ends-Keeps Q (err e, db) w h = h

  pub Gives-Keeps :
      {A : Type 0} (Q : A → T → Type 0) (m : Query E T A)
      → ((a : A) (t : T) → Q a t → R t)
      → Gives R m Q
      → Keeps R m
  unfolding Keeps Gives
  Gives-Keeps Q m w h db p = Ends-Keeps Q (m db) w (h db p)

  statement_at-Gives :
      {A : Type 0} (P : T → Type 0) (Q : A → T → Type 0) (fail : Text → E)
      (faults : List (Option Text)) (f : T → A × T)
      → ((t : T) → P t → R t)
      → ((t : T) → P t → Q (f t).0 (f t).1)
      → Gives P (run_at fail faults f) Q
  unfolding Gives
  statement_at-Gives P Q fail [] f w h db p = h db.tables p
  statement_at-Gives P Q fail (none ∷ rest) f w h db p = h db.tables p
  statement_at-Gives P Q fail (some e ∷ rest) f w h db p = w db.tables p

  pub statement-Gives :
      {A : Type 0} (P : T → Type 0) (Q : A → T → Type 0) (fail : Text → E) (f : T → A × T)
      → ((t : T) → P t → R t)
      → ((t : T) → P t → Q (f t).0 (f t).1)
      → Gives P (statement fail f) Q
  unfolding Gives
  statement-Gives P Q fail f w h db p = statement_at-Gives P Q fail db.faults f w h db p

pub pure-Gives :
    {T : Type 0} (E : Type 0) (R : T → Type 0) {A : Type 0} (Q : A → T → Type 0) (a : A)
    → Gives {E = E} R (Q a) (pure a) Q
unfolding Gives
pure-Gives E R Q a db p = p

pub raise-Gives :
    {E T A : Type 0} (R P : T → Type 0) (Q : A → T → Type 0) (e : E)
    → ((t : T) → P t → R t)
    → Gives R P (raise e) Q
unfolding Gives
raise-Gives R P Q e w db p = w db.tables p

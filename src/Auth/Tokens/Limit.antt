-- ===== src/Auth/Tokens/Limit.antt =====
-- The limit on the active tokens of a user, over sequences of calls of the service, and what interleaved calls of
-- Create do to it (internal/module/auth/service/api_key_service.go, publish_token_service.go).
use naralabs_atlas.Prelude.{
  ℕ, suc, ◌+◌, ◌≤◌, ◌<◌, ◌≡◌, refl, ap, List, [], ◌∷◌, ◌++◌, Text, text_eq, text_eq_sound, subst,
  leb, leb→lt, ok, err, length, length-append, Bool-cases, inl, inr, arith,
}
use naralabs_atlas.Auth.Errors.{AuthError}
use naralabs_atlas.Database.{Db}
use naralabs_atlas.Database.Keeps.{
  Keeps, Gives, Ends, bind-Gives, Keeps-Gives, Ends-Keeps, pure-Gives, statement-Gives,
  of_option-Keeps,
}
use naralabs_atlas.Auth.Tokens.{Table, Kind, count_active, insert}
use naralabs_atlas.Auth.Tokens.Service.{Env, below_limit, label_or_default, admit, issue}
use naralabs_atlas.Auth.Tokens.Stable.{
  System, Step, admits, refuses, issues, lists, revokes, resolves, Reach, start, next,
  user_of-Keeps, list-Keeps, new_key-Keeps, revoke-Keeps, resolve_auth-Keeps,
}
use naralabs_atlas.Auth.Tokens.Count.{active, waiting, insert_le, NoMore, NoMore-Stable}

-- The tokens of a user, with those to come, exceed the limit by at most `k`, and at most `k + 1` calls are in flight.
unfoldable pub Within : Kind → ℕ → System → Type 0
unfolding active waiting
Within kind k s =
    ((user : Text) → active user s.db.tables + waiting user s.pending ≤ kind.limit + k)
    × (length s.pending ≤ suc k)

module _ (env : Env) (kind : Kind) (t₀ : Table) where
  -- The tables are as they were.
  Same : Table → Type 0
  Same t = t ≡ t₀

  count-Gives :
      (user : Text)
      → Gives {E = AuthError} Same Same (count_active user) (λ n t. Same t × (n ≡ active user t₀))
  unfolding count_active active Same
  count-Gives user = statement-Gives Same Same _ _ _ (λ t h. h) (λ t h. (h, ap (active user) h))

  below_limit-Gives :
      (user : Text) (n : ℕ)
      → Gives Same
          (λ t. Same t × (n ≡ active user t₀))
          (below_limit env kind n)
          (λ u t. Same t × (active user t₀ < kind.limit))
  unfolding below_limit Gives
  below_limit-Gives user n db h = elim (Bool-cases (leb kind.limit n)) [
    | inl e ↦ rw e h.0
    | inr e ↦ rw e (h.0, omega (arith, leb→lt kind.limit n e, h.1))
  ]

  admit-Gives :
      (authorization : Text)
      → Gives Same Same
          (admit env kind authorization)
          (λ user t. Same t × (active user t₀ < kind.limit))
  unfolding admit
  admit-Gives authorization =
      bind-Gives Same Same (λ user. Same) _ _ _
        (Keeps-Gives Same Same _ (λ t h. h) (user_of-Keeps env kind Same authorization))
        (λ user. bind-Gives Same Same _ _ _ _ (count-Gives user) (λ n.
          bind-Gives Same _ _ _ _ _ (below_limit-Gives user n) (λ u.
            pure-Gives AuthError Same (λ user t. Same t × (active user t₀ < kind.limit)) user)))

  -- The tables as they were, but for one token that `user` may have got.
  Issued : Text → Table → Type 0
  unfolding active waiting
  Issued user t = (u : Text) → active u t ≤ active u t₀ + waiting u (user ∷ [])

  Same-Issued : (user : Text) (t : Table) → Same t → Issued user t
  unfolding Issued Same
  Same-Issued user t h u = omega (arith, ap (active u) h)

  insert-Gives :
      (user hash prefix label : Text)
      → Gives (Issued user) Same (insert user hash prefix label) (λ token t. Issued user t)
  unfolding insert Issued Same
  insert-Gives user hash prefix label =
      bind-Gives (Issued user) _ (λ o t. Issued user t) _ _ _
        (statement-Gives (Issued user) _ (λ o t. Issued user t) _ _ (Same-Issued user)
          (λ t h u. omega (arith, insert_le user u hash prefix label t, ap (active u) h)))
        (λ o.
          Keeps-Gives (Issued user) (Issued user) _ (λ t h. h) (of_option-Keeps (Issued user) _ o))

  issue-Gives :
      (label user : Text)
      → Gives (Issued user) Same (issue env kind label user) (λ created t. Issued user t)
  unfolding issue
  issue-Gives label user =
      bind-Gives (Issued user) _ (λ key. Same) _ _ _
        (Keeps-Gives (Issued user) Same _ (Same-Issued user) (new_key-Keeps env kind Same))
        (λ key.
          bind-Gives (Issued user) _ (λ token t. Issued user t) _ _ _
            (insert-Gives user key.1 key.2 (label_or_default env kind label))
            (λ token. pure-Gives AuthError (Issued user) (λ created t. Issued user t) _))

  issue_le :
      (label user u : Text) (db : Db Table)
      → db.tables ≡ t₀
      → active u (issue env kind label user db).1.tables ≤ active u t₀ + waiting u (user ∷ [])
  unfolding Gives Issued Same
  issue_le label user u db h =
      Ends-Keeps (Issued user) (λ created t. Issued user t) (issue env kind label user db)
        (λ a t g. g) (issue-Gives label user db h) u

  admit_ok :
      (authorization user : Text) (db db' : Db Table)
      → admit env kind authorization db ≡ (ok user, db')
      → db.tables ≡ t₀
      → (db'.tables ≡ t₀) × (active user t₀ < kind.limit)
  unfolding Gives Same
  admit_ok authorization user db db' e h =
      subst (Ends Same (λ v t. Same t × (active v t₀ < kind.limit))) e
        (admit-Gives authorization db h)

  admit_err :
      (authorization : Text) (error : AuthError) (db db' : Db Table)
      → admit env kind authorization db ≡ (err error, db')
      → db.tables ≡ t₀
      → db'.tables ≡ t₀
  unfolding Gives Same
  admit_err authorization error db db' e h =
      subst (Ends Same (λ v t. Same t × (active v t₀ < kind.limit))) e
        (admit-Gives authorization db h)

none_more : (t : Table) → NoMore t t
unfolding NoMore
none_more t u = omega arith

waiting_le : (user : Text) (users : List Text) → waiting user users ≤ length users
unfolding waiting
waiting_le user [] = omega arith
waiting_le user (u ∷ users) = elim (Bool-cases (text_eq u user)) [
  | inl e ↦ rw e (omega (arith, waiting_le user users))
  | inr e ↦ rw e (omega (arith, waiting_le user users))
]

-- A user who waits, among the others.
waiting-append :
    (u user : Text) (before behind : List Text)
    → waiting u (before ++ user ∷ behind) ≡ waiting u (before ++ behind) + waiting u (user ∷ [])
unfolding waiting
waiting-append u user [] behind = elim (Bool-cases (text_eq user u)) [
  | inl e ↦ rw e (omega arith)
  | inr e ↦ rw e (omega arith)
]
waiting-append u user (v ∷ before) behind = elim (Bool-cases (text_eq v u)) [
  | inl e ↦ rw e (omega (arith, waiting-append u user before behind))
  | inr e ↦ rw e (omega (arith, waiting-append u user before behind))
]

admits_le :
    (limit k : ℕ) (u user : Text) (pending : List Text) (t : Table)
    → length pending ≤ k
    → active user t < limit
    → active u t + waiting u pending ≤ limit + k
    → active u t + waiting u (user ∷ pending) ≤ limit + k
unfolding waiting
admits_le limit k u user pending t room few h = elim (Bool-cases (text_eq user u)) [
  | inl e ↦
      rw e (omega (arith, waiting_le u pending, ap (λ v. active v t) (text_eq_sound user u e), few))
  | inr e ↦ rw e h
]

module _ (env : Env) (kind : Kind) (k : ℕ) where
  Step-Within : (s s' : System) → Step env kind k s s' → Within kind k s → Within kind k s'
  unfolding Within Keeps NoMore
  Step-Within _ _ (admits authorization user db db' pending e le) (h, room) =
      let (same, few) = admit_ok env kind db.tables authorization user db db' e refl in
      (λ u. rw same (admits_le kind.limit k u user pending db.tables le few (h u)), omega arith)
  Step-Within _ _ (refuses authorization e db db' pending eq) (h, room) =
      (λ u. rw (admit_err env kind db.tables authorization e db db' eq refl) (h u), room)
  Step-Within _ _ (issues label user db before behind) (h, room) = (
    λ u. omega (
      arith,
      h u,
      issue_le env kind db.tables label user u db refl,
      waiting-append u user before behind,
    ),
    omega (arith, length-append before (user ∷ behind), length-append before behind),
  )
  Step-Within _ _ (lists authorization db pending) (h, room) = (
    λ u. omega (
      arith,
      h u,
      list-Keeps env kind (NoMore db.tables) authorization db (none_more db.tables) u,
    ),
    room,
  )
  Step-Within _ _ (revokes authorization id db pending) (h, room) = (
    λ u. omega (
      arith,
      h u,
      revoke-Keeps env kind (NoMore db.tables) (NoMore-Stable db.tables) authorization id db
          (none_more db.tables) u,
    ),
    room,
  )
  Step-Within _ _ (resolves authorization db pending) (h, room) = (
    λ u. omega (
      arith,
      h u,
      resolve_auth-Keeps env kind (NoMore db.tables) (NoMore-Stable db.tables) authorization db
          (none_more db.tables) u,
    ),
    room,
  )

  -- Whatever the callers do, whichever statements fail and however calls of Create, at most `k + 1` of them in flight,
  -- interleave with each other and with List, Revoke and ResolveAPIKeyAuth: if no user has more than `kind.limit + k`
  -- active tokens with those to come at first, none ever has. With `k = 0`, calls of Create that do not overlap, this is
  -- the limit.
  pub Reach-Within : (s s' : System) → Reach env kind k s s' → Within kind k s → Within kind k s'
  Reach-Within s _ start w = w
  Reach-Within s _ (next t t' reach step) w = Step-Within t t' step (Reach-Within s t reach w)

-- ===== src/Registry/Verify/Promote.antt =====
-- internal/module/registry/repository/schema_repository.go: the promotion of a publisher's schemas.
use naralabs_atlas.Prelude.{
  ℕ, ◌&&◌, Bool, true, false, not, Option, none, some, List, [], ◌∷◌, Text, text, text_eq, ltb,
  Result, ok, err, keep, ◌==◌, if◌then◌else◌,
}
use naralabs_atlas.Database.{
  Query, pure, raise, ◌>>=◌, ◌>>◌, statement, select, update, transaction,
}
use naralabs_atlas.Registry.Verify.{
  archived, VerifyError, TrustTier, Status, EventSchema, Registry, wrap, first, is_none,
  schema_not_found, community, verified, draft, published,
}

abbrev is_verified : TrustTier → Bool
is_verified community = false
is_verified verified = true

abbrev is_published : Status → Bool
is_published published = true
is_published draft = false
is_published archived = false

abbrev opt_eq : Option Text → Text → Bool
opt_eq none a = false
opt_eq (some b) a = text_eq b a

-- The community schemas of a publisher for a contract
abbrev pub is_candidate : Text → Text → Text → EventSchema → Bool
is_candidate user contract network s =
    opt_eq s.publisher_user_id user
    && (text_eq s.contract_id contract
        && (text_eq s.network network && (not (is_verified s.trust_tier) && is_published s.status)))

-- ORDER BY event_name, version DESC and DISTINCT ON (event_name): `before` is the collation of the database.
unfoldable pub place : (Text → Text → Bool) → EventSchema → List EventSchema → List EventSchema
place before s [] = s ∷ []
place before s (t ∷ ts) =
    let rest = place before s ts in
    if text_eq s.event_name t.event_name
    then (if ltb t.version s.version then s ∷ ts else t ∷ ts)
    else if before s.event_name t.event_name
    then s ∷ t ∷ ts
    else t ∷ rest

unfoldable pub latest_by_event : (Text → Text → Bool) → List EventSchema → List EventSchema
unfolding place
latest_by_event before [] = []
latest_by_event before (s ∷ ss) = place before s (latest_by_event before ss)

abbrev is_current : Text → Text → Text → EventSchema → Bool
is_current contract network event s =
    text_eq s.contract_id contract
    && (text_eq s.network network
        && (text_eq s.event_name event && (is_verified s.trust_tier && is_published s.status)))

-- archiveQuery
unfoldable pub archive_rows : Text → Text → Text → List EventSchema → List EventSchema
archive_rows contract network event [] = []
archive_rows contract network event (s ∷ ss) =
    let rest = archive_rows contract network event ss in
    if is_current contract network event s then record s { status = archived } ∷ rest else s ∷ rest

-- promoteQuery and the row that it returns
unfoldable pub promote_rows :
    Text → Text → ℕ → ℕ → List EventSchema → Option EventSchema × List EventSchema
promote_rows user wallet at id [] = (none, [])
promote_rows user wallet at id (s ∷ ss) =
    let (found, rest) = promote_rows user wallet at id ss in
    let promoted : EventSchema = record s {
      trust_tier = verified;
      verified_wallet = some wallet;
      verified_at = some at;
    } in
    if s.id == id
      && (opt_eq s.publisher_user_id user
          && (not (is_verified s.trust_tier) && is_published s.status))
    then (some promoted, promoted ∷ rest)
    else (found, s ∷ rest)

unfoldable pub promoted_row :
    Bool → Option EventSchema → Registry → Registry → Result Text EventSchema × Registry
promoted_row taken none t t' = (err (text "no rows in result set"), t)
promoted_row true (some s) t t' = (err (text "23505"), t)
promoted_row false (some s) t t' = (ok s, t')

-- The index event_schemas_verified_unique refuses a second verified schema for an event.
unfoldable pub promote :
    Text → Text → ℕ → EventSchema → Registry → Result Text EventSchema × Registry
unfolding promote_rows first promoted_row
promote user wallet at target t =
    let (found, rows) = promote_rows user wallet at target.id t.schemas in
    let current =
      first (is_current target.contract_id target.network target.event_name) t.schemas in
    promoted_row (not (is_none current)) found t (record t { schemas = rows })

unfoldable pub of_promoted : Result Text EventSchema → Query VerifyError Registry EventSchema
of_promoted (ok s) = pure s
of_promoted (err e) = raise (wrap (text "promote schema to verified: ") e)

unfoldable pub promote_all :
    Text → Text → Text → Text → ℕ → List EventSchema → Query VerifyError Registry (List EventSchema)
unfolding archive_rows promote of_promoted
promote_all user contract network wallet at [] = pure []
promote_all user contract network wallet at (target ∷ rest) = do
  update (wrap (text "archive verified schema: "))
      (λ t. record t { schemas = archive_rows contract network target.event_name t.schemas })
  row ← statement (wrap (text "promote schema to verified: ")) (promote user wallet at target)
  schema ← of_promoted row
  schemas ← promote_all user contract network wallet at rest
  pure (schema ∷ schemas)

unfoldable pub promote_some :
    Text → Text → Text → Text → ℕ → List EventSchema → Query VerifyError Registry (List EventSchema)
unfolding promote_all
promote_some user contract network wallet at [] = raise schema_not_found
promote_some user contract network wallet at (target ∷ rest) =
    promote_all user contract network wallet at (target ∷ rest)

-- VerifyContractForPublisher
unfoldable pub verify_contract_for_publisher :
    (Text → Text → Bool)
    → Text
    → Text
    → Text
    → Text
    → ℕ
    → Query VerifyError Registry (List EventSchema)
unfolding latest_by_event promote_some
verify_contract_for_publisher before user contract network wallet at =
    transaction (wrap (text "begin verify contract tx: "))
      (wrap (text "commit verify contract tx: "))
      (do
        targets ←
            select (wrap (text "list latest community schemas: "))
              (λ t. latest_by_event before (keep (is_candidate user contract network) t.schemas))
        promote_some user contract network wallet at targets)

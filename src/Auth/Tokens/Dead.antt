-- ===== src/Auth/Tokens/Dead.antt =====
-- What stays true of a token once it is revoked (internal/module/auth/service: api_key_service.go,
-- publish_token_service.go).
use naralabs_atlas.Prelude.{
  ℕ, ◌+◌, ◌<◌, ◌≡◌, refl, Bool, true, false, ◌&&◌, Option, some, List, [], ◌∷◌, Text, text_eq,
  is_empty, trim_space, ==_iff, All, All-append, Bool-cases, inl, inr, if◌then◌else◌, ◌==◌, arith,
}
use naralabs_atlas.Auth.Errors.{AuthError, token_not_found, row_not_found}
use naralabs_atlas.Database.{pure, raise, ◌>>=◌, catch, now}
use naralabs_atlas.Database.Keeps.{
  catch-Gives, raise-Gives, if-Gives, Gives, bind-Gives, Keeps-Gives, statement-Gives, now-Keeps,
}
use naralabs_atlas.Auth.Tokens.{
  Token, Table, Kind, is_active_of, has_hash, new_token, insert_row, revoke_rows, revoke_row, touch,
}
use naralabs_atlas.Auth.Tokens.Service.{Env, not_found_as, revoke_id}
use naralabs_atlas.Auth.Tokens.Stable.{Lasting}

-- The ids that the rows have were given out.
unfoldable pub Numbered : Table → Type 0
Numbered t = All (λ (row : Token). row.id < t.issued) t.rows

unfoldable pub is_live : Text → ℕ → Token → Bool
is_live user id row = row.id == id && is_active_of user row

-- The user's token with this id is revoked, and the id was given out.
unfoldable pub Dead : Text → ℕ → Table → Type 0
unfolding is_live
Dead user id t = All (λ row. is_live user id row ≡ false) t.rows × (id < t.issued)

module _ (user : Text) (id : ℕ) where
  unfoldable pub Gone : List Token → Type 0
  Gone = All (λ row. is_live user id row ≡ false)

  and_false : (b c : Bool) → (b && (c && false)) ≡ false
  and_false true true = refl
  and_false true false = refl
  and_false false c = refl

  revoked-Gone :
      (other_user : Text) (other_id at : ℕ) (ts : List Token)
      → Gone ts
      → Gone (revoke_rows other_user other_id at ts).1
  unfolding revoke_rows Gone is_live
  revoked-Gone other_user other_id at [] h = h
  revoked-Gone other_user other_id at (t ∷ ts) (h, hs) =
      let rest = revoked-Gone other_user other_id at ts hs in
      elim (Bool-cases (t.id == other_id && is_active_of other_user t)) [
        | inl e ↦ rw e (and_false (t.id == id) (text_eq t.user_id user), rest)
        | inr e ↦ rw e (h, rest)
      ]

  touched-Gone : (other_id at : ℕ) (ts : List Token) → Gone ts → Gone (touch other_id at ts)
  unfolding touch Gone is_live
  touched-Gone other_id at [] h = h
  touched-Gone other_id at (t ∷ ts) (h, hs) =
      let rest = touched-Gone other_id at ts hs in
      elim (Bool-cases (t.id == other_id)) [ inl e ↦ rw e (h, rest) | inr e ↦ rw e (h, rest) ]

  fresh : (n m : ℕ) → m < n → (n == m) ≡ false
  fresh n m h = ground arith

  inserted-Dead :
      (u hash prefix label : Text) (t : Table)
      → Dead user id t
      → Dead user id (insert_row u hash prefix label t).1
  unfolding insert_row Dead is_live new_token
  inserted-Dead u hash prefix label t (h, few) = elim (Bool-cases (has_hash hash t.rows)) [
    | inl e ↦ rw e (h, few)
    | inr e ↦
        let unlike : is_live user id (new_token u hash prefix label t) ≡ false =
          rw (fresh t.issued id few) refl in
        rw e (All-append (λ row. is_live user id row ≡ false) t.rows _ h (unlike, tt), omega arith)
  ]

  pub Dead-Lasting : Lasting (Dead user id)
  unfolding Dead Gone
  Dead-Lasting = record {
    stable = record {
      revoked = λ u i at t h. (revoked-Gone u i at t.rows h.0, h.1);
      touched = λ i at t h. (touched-Gone i at t.rows h.0, h.1);
    };
    inserted = inserted-Dead;
  }

  -- The UPDATE of Revoke: no row is left, and there was one if it says so.
  revoke_rows-Gone : (at : ℕ) (ts : List Token) → Gone (revoke_rows user id at ts).1
  unfolding revoke_rows Gone is_live
  revoke_rows-Gone at [] = tt
  revoke_rows-Gone at (t ∷ ts) = elim (Bool-cases (t.id == id && is_active_of user t)) [
    | inl e ↦ rw e (and_false (t.id == id) (text_eq t.user_id user), revoke_rows-Gone at ts)
    | inr e ↦ rw e (e, revoke_rows-Gone at ts)
  ]

  counts :
      (b : Bool) (n : ℕ) (xs ys : List Token)
      → b ≡ false
      → ((if◌then◌else◌ {A = ℕ × List Token} b (n + 1, xs) (n, ys)).0 == 0) ≡ false
      → (n == 0) ≡ false
  counts true n xs ys h f = cc
  counts false n xs ys h f = f

  revoke_rows-found :
      (issued at : ℕ) (ts : List Token)
      → All (λ (row : Token). row.id < issued) ts
      → ((revoke_rows user id at ts).0 == 0) ≡ false
      → id < issued
  unfolding revoke_rows
  revoke_rows-found issued at [] h f = cc
  revoke_rows-found issued at (t ∷ ts) (h, hs) f = elim (Bool-cases (t.id == id)) [
    | inl e ↦ ground (arith, ==_iff t.id id)
    | inr e ↦
        revoke_rows-found issued at ts hs
          (counts (t.id == id && is_active_of user t) _ _ _ (rw e refl) f)
  ]

  Counted : ℕ → Table → Type 0
  Counted n t = (n == 0) ≡ false → Dead user id t

  Counted-Gives :
      (n : ℕ)
      → Gives {E = AuthError}
          (λ t. Unit {0})
          (Counted n)
          (if n == 0 then raise row_not_found else pure tt)
          (λ u t. Dead user id t)
  unfolding Counted Gives
  Counted-Gives n db h = elim (Bool-cases (n == 0)) [ inl e ↦ rw e tt | inr e ↦ rw e (h e) ]

  revoked_rows :
      (at : ℕ) (t : Table)
      → Numbered t
      → Counted
          (revoke_rows user id at t.rows).0
          (record t { rows = (revoke_rows user id at t.rows).1 })
  unfolding Counted Gone Dead Numbered
  revoked_rows at t h f = (revoke_rows-Gone at t.rows, revoke_rows-found t.issued at t.rows h f)

  revoke_row-Gives :
      (at : ℕ)
      → Gives {E = AuthError}
          (λ t. Unit {0})
          Numbered
          (revoke_row user id at)
          (λ u t. Dead user id t)
  unfolding revoke_row
  revoke_row-Gives at =
      bind-Gives _ Numbered Counted (λ u t. Dead user id t) _ _
        (statement-Gives _ Numbered Counted _ _ (λ t h. tt) (λ t h. revoked_rows at t h))
        (λ n. Counted-Gives n)

  revoke_id-Gives :
      (env : Env) (kind : Kind) (at : ℕ) (o : Option ℕ)
      → o ≡ some id
      → Gives {E = AuthError}
          (λ t. Unit {0})
          Numbered
          (revoke_id env kind user at o)
          (λ u t. Dead user id t)
  unfolding revoke_id
  revoke_id-Gives env kind at o e = rw e (revoke_row-Gives at)

  -- The methods after the user is known.
  pub revoke_known-Gives :
      (env : Env) (kind : Kind) (key_id : Text)
      → env.uuid_of (trim_space key_id) ≡ some id
      → Gives {E = AuthError}
          (λ t. Unit {0})
          Numbered
          (if is_empty (trim_space key_id)
            then raise token_not_found
            else catch
                (do t ← now; revoke_id env kind user t (env.uuid_of (trim_space key_id)))
                (λ e. raise (not_found_as env kind token_not_found e)))
          (λ u t. Dead user id t)
  revoke_known-Gives env kind key_id e =
      if-Gives _ (is_empty (trim_space key_id)) Numbered _ _ _
        (raise-Gives _ Numbered _ token_not_found (λ t h. tt))
        (catch-Gives _ Numbered _ _ _
          (bind-Gives _ Numbered (λ t. Numbered) _ _ _
            (Keeps-Gives _ Numbered _ (λ t h. tt) (now-Keeps AuthError Numbered))
            (λ t. revoke_id-Gives env kind t _ e))
          (λ error. raise-Gives _ _ _ (not_found_as env kind token_not_found error) (λ t h. h)))

-- ===== src/Registry/Verify/Once.antt =====
-- internal/module/registry: what a used challenge is good for (verify_challenge_repository.go, verify_service.go).
use naralabs_atlas.Prelude.{
  ℕ, ◌≡◌, ◌≢◌, refl, subst, not, ◌&&◌, Option, none, some, List, Text, text, is_empty, has_prefix,
  trim_space, ok,
}
use naralabs_atlas.Database.{Db}
use naralabs_atlas.Database.Keeps.{
  Gives, Ends, select-Keeps, now-Keeps, bind-Gives, Keeps-Gives, statement-Gives, raise-Gives,
}
use naralabs_atlas.Registry.Verify.{
  VerifyError, invalid_schema_body, challenge_not_found, other, Registry, Key, key, first, has_key,
  use_challenge, why_not, consumed, consume,
}
use naralabs_atlas.Registry.Verify.Service.{
  VerifyEnv, Verified, Answer, verify_signed, verify_contract,
}
use naralabs_atlas.Registry.Verify.Nonces.{OneNonce, UsedUp, Spent, use-UsedUp, spent-rows}
use naralabs_atlas.Registry.Verify.Calls.{
  Spent-Stable, enter-Keeps, require-Keeps, verify_signed-Keeps, Call, run_all, run_all-Keeps,
}

abbrev Any : Registry → Type 0
Any t = Unit {0}

module _ (k : Key) (at : ℕ) where
  -- Consume leaves the nonce used up where it returns a message, and returns none where it is.
  Left : Option Text → Registry → Type 0
  Left o t = (m : Text) → o ≡ some m → Spent k.nonce t

  refused-Gives : (Q : Text → Registry → Type 0) → Gives Any Any (consumed k at none) Q
  unfolding consumed
  refused-Gives Q =
      bind-Gives Any Any (λ row. Any) Q _ _
        (Keeps-Gives Any Any _ (λ t h. h)
          (select-Keeps Any (λ e. other (text "lookup verify challenge: ") e)
            (λ t. first (has_key k) t.challenges)))
        (λ row. raise-Gives Any Any Q (why_not at row) (λ t h. h))

  consumed-Gives : (o : Option Text) → Gives Any (Left o) (consumed k at o) (λ m t. Spent k.nonce t)
  unfolding consumed Left Gives
  consumed-Gives (some m) db h = h m refl
  consumed-Gives none db h = refused-Gives (λ m t. Spent k.nonce t) db tt

  spends :
      (t : Registry) → OneNonce k.nonce t → Left (use_challenge k at t).0 (use_challenge k at t).1
  unfolding OneNonce Left use_challenge Spent
  spends t h m e = use-UsedUp k at t.challenges m h e

  consume-Gives : Gives Any (OneNonce k.nonce) (consume k at) (λ m t. Spent k.nonce t)
  unfolding consume
  consume-Gives =
      bind-Gives Any (OneNonce k.nonce) Left (λ m t. Spent k.nonce t) _ _
        (statement-Gives Any (OneNonce k.nonce) Left _ _ (λ t h. tt) spends) consumed-Gives

  spent-Gives : (o : Option Text) → Gives Any (λ t. o ≡ none) (consumed k at o) (λ m t. ⊥)
  unfolding consumed Gives
  spent-Gives (some m) db h = absurd (cc h)
  spent-Gives none db h = refused-Gives (λ m t. ⊥) db tt

  unspendable : (t : Registry) → Spent k.nonce t → (use_challenge k at t).0 ≡ none
  unfolding Spent UsedUp use_challenge
  unspendable t (h, f) = spent-rows k at t.challenges h

  unspendable-Gives : Gives Any (Spent k.nonce) (consume k at) (λ m t. ⊥)
  unfolding consume
  unspendable-Gives =
      bind-Gives Any (Spent k.nonce) (λ o t. o ≡ none) (λ m t. ⊥) _ _
        (statement-Gives Any (Spent k.nonce) (λ o t. o ≡ none) _ _ (λ t h. tt) unspendable)
        spent-Gives

-- VerifyContract, from what its Consume gives
module _ (env : VerifyEnv) (ask : Text → Answer)
    (authorization project contract_input network_input wallet_input nonce_input signature : Text)
    (P : Registry → Type 0) (S : Text → Registry → Type 0) (Q : Verified → Registry → Type 0) where
  verify_contract-Gives :
      ((user contract network : Text) (at : ℕ)
        → Gives Any P (consume (key project user contract network (trim_space nonce_input)) at) S)
      → ((user contract network : Text) (at : ℕ) (message : Text)
          → Gives Any
              (S message)
              (verify_signed env ask user contract network
                (trim_space wallet_input)
                signature
                at
                message)
              Q)
      → Gives Any P
          (verify_contract env ask authorization project contract_input network_input wallet_input
            nonce_input signature)
          Q
  unfolding verify_contract
  verify_contract-Gives c v =
      let drop = λ (t : Registry) (h : P t). tt in
      bind-Gives Any P (λ who. P) Q _ _
        (Keeps-Gives Any P _ drop
          (enter-Keeps env P authorization project contract_input network_input))
        (λ who.
          bind-Gives Any P (λ u. P) Q _ _
            (Keeps-Gives Any P _ drop (
              require-Keeps env P invalid_schema_body (
                not (is_empty (trim_space wallet_input))
                && has_prefix (trim_space wallet_input) (text "G"))))
            (λ u.
              bind-Gives Any P (λ u. P) Q _ _
                (Keeps-Gives Any P _ drop (
                  require-Keeps env P challenge_not_found
                    (not (is_empty (trim_space nonce_input)))))
                (λ u.
                  bind-Gives Any P (λ t. P) Q _ _
                    (Keeps-Gives Any P _ drop (now-Keeps VerifyError P))
                    (λ t.
                      bind-Gives Any P S Q _ _ (c who.0 who.1 who.2 t)
                        (λ message. v who.0 who.1 who.2 t message)))))

module _ (env : VerifyEnv) where
  verify_contract-Spent :
      (ask : Text → Answer) (authorization project contract network wallet nonce signature : Text)
      → Gives Any
          (OneNonce (trim_space nonce))
          (verify_contract env ask authorization project contract network wallet nonce signature)
          (λ r t. Spent (trim_space nonce) t)
  verify_contract-Spent ask authorization project contract network wallet nonce signature =
      let n = trim_space nonce in
      verify_contract-Gives env ask authorization project contract network wallet nonce signature _
        (λ m t. Spent n t) (λ r t. Spent n t)
        (λ user c net at. consume-Gives (key project user c net n) at)
        (λ user c net at message.
          Keeps-Gives Any (Spent n) _ (λ t h. tt)
            (verify_signed-Keeps (Spent n) (Spent-Stable n) env ask user c net (trim_space wallet)
              signature at message))

  verify_contract-none :
      (ask : Text → Answer) (authorization project contract network wallet nonce signature : Text)
      → Gives Any
          (Spent (trim_space nonce))
          (verify_contract env ask authorization project contract network wallet nonce signature)
          (λ r t. ⊥)
  unfolding Gives
  verify_contract-none ask authorization project contract network wallet nonce signature =
      verify_contract-Gives env ask authorization project contract network wallet nonce signature _
        (λ m t. ⊥) (λ r t. ⊥)
        (λ user c net at. unspendable-Gives (key project user c net (trim_space nonce)) at)
        (λ user c net at message db h. absurd h)

  -- A nonce serves one VerifyContract: once a call with it succeeded, every later one with it fails, whoever makes it,
  -- for whatever project and contract, after any calls of the service and whichever statements fail.
  pub verified_once :
      (ask ask' : Text → Answer) (a p c n w nonce s a' p' c' n' w' s' : Text) (db db' : Db Registry)
      (r r' : Verified) (last : Db Registry)
      → OneNonce (trim_space nonce) db.tables
      → verify_contract env ask a p c n w nonce s db ≡ (ok r, db')
      → (calls : List Call)
      → verify_contract env ask' a' p' c' n' w' nonce s' (run_all env calls db') ≢ (ok r', last)
  unfolding Gives
  verified_once ask ask' a p c n w nonce s a' p' c' n' w' s' db db' r r' last one e calls e' =
      let spent =
        subst (Ends Any (λ r t. Spent (trim_space nonce) t)) e
          (verify_contract-Spent ask a p c n w nonce s db one) in
      let later =
        run_all-Keeps env (Spent (trim_space nonce)) (Spent-Stable (trim_space nonce)) calls db'
          spent in
      subst (Ends Any (λ r t. ⊥)) e'
        (verify_contract-none ask' a' p' c' n' w' nonce s' (run_all env calls db') later)

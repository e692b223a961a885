-- ===== src/Registry/Contracts/Tally.antt =====
-- buildContractSummaries of internal/module/registry/service/schema_bundle_service.go: how many contracts it groups.
use naralabs_atlas.Prelude.{
  ℕ, suc, ◌≡◌, refl, ◌+◌, sym, ap, ◌∙◌, Bool, true, false, ◌&&◌, ◌||◌, not, List, [], ◌∷◌, ◌++◌,
  text_eq, text_eq_sound, keep, length, All, Bool-cases, inl, inr, arith, if◌then◌else◌,
}
use naralabs_atlas.Registry.Bundles.{EventSchema, is_published}
use naralabs_atlas.Registry.Contracts.{Group, same_key, put, group_from}

-- The two schemas are of one contract.
unfoldable pub same_contract : EventSchema → EventSchema → Bool
same_contract s t = text_eq s.contract_id t.contract_id && text_eq s.network t.network

unfoldable pub was_seen : EventSchema → List EventSchema → Bool
unfolding same_contract
was_seen t [] = false
was_seen t (s ∷ ss) = same_contract s t || was_seen t ss

-- The number of contracts of the schemas that are none of a contract that was seen.
unfoldable pub new_contracts : List EventSchema → List EventSchema → ℕ
unfolding was_seen
new_contracts seen [] = 0
new_contracts seen (s ∷ ss) =
    let rest = new_contracts (s ∷ seen) ss in if was_seen s seen then rest else suc rest

-- The number of contracts of the schemas.
pub contracts : List EventSchema → ℕ
contracts ss = new_contracts [] ss

unfoldable pub any : (EventSchema → Bool) → List EventSchema → Bool
any p [] = false
any p (s ∷ ss) = p s || any p ss

any-append :
    (p : EventSchema → Bool) (ss : List EventSchema) (s : EventSchema)
    → any p (ss ++ s ∷ []) ≡ (any p ss || p s)
unfolding any
any-append p [] s = ground arith
any-append p (t ∷ ss) s = ground (arith, any-append p ss s)

and_true : (b c : Bool) → (b && c) ≡ true → (b ≡ true) × (c ≡ true)
and_true true c h = (refl, h)
and_true false c h = cc

same_key-same_contract :
    (g : Group) (s t : EventSchema) → same_key g s ≡ true → same_key g t ≡ same_contract s t
unfolding same_key same_contract
same_key-same_contract g s t h =
    let (c, n) = and_true (text_eq g.contract_id s.contract_id) (text_eq g.network s.network) h in
    rw (text_eq_sound g.contract_id s.contract_id c, text_eq_sound g.network s.network n) refl

same_contract-same_key :
    (g : Group) (s t : EventSchema) → same_contract s t ≡ true → same_key g s ≡ same_key g t
unfolding same_key same_contract
same_contract-same_key g s t h =
    let (c, n) = and_true (text_eq s.contract_id t.contract_id) (text_eq s.network t.network) h in
    rw (text_eq_sound s.contract_id t.contract_id c, text_eq_sound s.network t.network n) refl

both : (b c : Bool) → ((b && true) || c) ≡ (b || c)
both b c = ground arith

neither : (b c : Bool) → ((b && false) || c) ≡ c
neither b c = ground arith

joined :
    (was : Bool) (k n m total : ℕ)
    → total ≡ n + k
    → n ≡ (if was then m else suc m)
    → total ≡ m + (if was then k else suc k)
joined true k n m total h e = omega arith
joined false k n m total h e = omega arith

module _ (p : EventSchema → Bool) where
  -- The number of groups with a schema that meets `p`.
  unfoldable pub tally : List Group → ℕ
  tally [] = 0
  tally (g ∷ gs) = let rest = tally gs in if any p g.schemas then suc rest else rest

  -- Whether the group of the contract has one.
  held_in : EventSchema → List Group → Bool
  held_in t [] = false
  held_in t (g ∷ gs) = let rest = held_in t gs in if same_key g t then any p g.schemas else rest

  tally_step :
      (same has meets : Bool) (s : EventSchema) (g : Group) (gs rest : List Group)
      → any p g.schemas ≡ has
      → p s ≡ meets
      → tally rest ≡ (if meets && not (held_in s gs) then suc (tally gs) else tally gs)
      → tally (if same then record g { schemas = g.schemas ++ s ∷ [] } ∷ gs else g ∷ rest) ≡ (
          if meets && not (if same then has else held_in s gs)
          then suc (if has then suc (tally gs) else tally gs)
          else (if has then suc (tally gs) else tally gs))
  unfolding tally
  tally_step true has meets s g gs rest h m k = ground (arith, any-append p g.schemas s)
  tally_step false has meets s g gs rest h m k = ground arith

  tally-put :
      (s : EventSchema) (gs : List Group)
      → tally (put s gs) ≡ (if p s && not (held_in s gs) then suc (tally gs) else tally gs)
  unfolding put tally held_in any
  tally-put s [] = ground arith
  tally-put s (g ∷ gs) = tally_step (same_key g s) _ _ s g gs (put s gs) refl refl (tally-put s gs)

  held_step :
      (same here there meets : Bool) (s t : EventSchema) (g : Group) (gs rest : List Group)
      → same_key g t ≡ here
      → same_contract s t ≡ there
      → p s ≡ meets
      → (same ≡ true → here ≡ there)
      → (there ≡ true → same ≡ here)
      → held_in t rest ≡ ((there && meets) || held_in t gs)
      → held_in t (if same then record g { schemas = g.schemas ++ s ∷ [] } ∷ gs else g ∷ rest)
        ≡ ((there && meets) || (if here then any p g.schemas else held_in t gs))
  unfolding held_in same_key
  held_step true true true meets s t g gs rest h e m k l i =
      rw h (ground (arith, any-append p g.schemas s))
  held_step true true false meets s t g gs rest h e m k l i = absurd (cc (k refl))
  held_step true false true meets s t g gs rest h e m k l i = absurd (cc (k refl))
  held_step true false false meets s t g gs rest h e m k l i = rw h refl
  held_step false true true meets s t g gs rest h e m k l i = absurd (cc (l refl))
  held_step false true false meets s t g gs rest h e m k l i = rw h refl
  held_step false false there meets s t g gs rest h e m k l i = rw h i

  held_in-put :
      (s t : EventSchema) (gs : List Group)
      → held_in t (put s gs) ≡ ((same_contract s t && p s) || held_in t gs)
  unfolding put held_in any same_key same_contract
  held_in-put s t [] = ground arith
  held_in-put s t (g ∷ gs) =
      held_step (same_key g s) _ _ _ s t g gs (put s gs) refl refl refl
        (same_key-same_contract g s t) (same_contract-same_key g s t) (held_in-put s t gs)

  seen_more :
      (gs : List Group) (seen : List EventSchema) (s : EventSchema)
      → ((t : EventSchema) → held_in t gs ≡ was_seen t seen)
      → p s ≡ true
      → (t : EventSchema) → held_in t (put s gs) ≡ was_seen t (s ∷ seen)
  unfolding was_seen
  seen_more gs seen s h m t =
      held_in-put s t gs ∙ rw (m, h t) (both (same_contract s t) (was_seen t seen))

  seen_same :
      (gs : List Group) (seen : List EventSchema) (s : EventSchema)
      → ((t : EventSchema) → held_in t gs ≡ was_seen t seen)
      → p s ≡ false
      → (t : EventSchema) → held_in t (put s gs) ≡ was_seen t seen
  seen_same gs seen s h m t =
      held_in-put s t gs ∙ rw (m, h t) (neither (same_contract s t) (was_seen t seen))

  met :
      (s : EventSchema) (gs : List Group) (was : Bool)
      → p s ≡ true
      → held_in s gs ≡ was
      → (if p s && not (held_in s gs) then suc (tally gs) else tally gs)
        ≡ (if was then tally gs else suc (tally gs))
  met s gs true m h = rw (m, h) refl
  met s gs false m h = rw (m, h) refl

  unmet :
      (s : EventSchema) (gs : List Group)
      → p s ≡ false
      → (if p s && not (held_in s gs) then suc (tally gs) else tally gs) ≡ tally gs
  unmet s gs m = rw m refl

  -- As many groups have a schema that meets `p` as there are contracts of published schemas that meet it.
  tally-group_from :
      (gs : List Group) (seen ss : List EventSchema)
      → ((t : EventSchema) → held_in t gs ≡ was_seen t seen)
      → tally (group_from gs ss) ≡ tally gs + new_contracts seen (keep p (keep is_published ss))
  unfolding group_from new_contracts was_seen
  tally-group_from gs seen [] h = omega arith
  tally-group_from gs seen (s ∷ ss) h = elim (Bool-cases (is_published s)) [
    | inl e ↦ elim (Bool-cases (p s)) [
      | inl m ↦
          rw (e, m)
            (joined (was_seen s seen) _ _ _ (tally (group_from (put s gs) ss))
              (tally-group_from (put s gs) (s ∷ seen) ss (seen_more gs seen s h m))
              (tally-put s gs ∙ met s gs _ m (h s)))
      | inr m ↦
          rw (e, m)
            (tally-group_from (put s gs) seen ss (seen_same gs seen s h m)
              ∙ ap (λ n. n + new_contracts seen (keep p (keep is_published ss)))
                  (tally-put s gs ∙ unmet s gs m))
    ]
    | inr e ↦ rw e (tally-group_from gs seen ss h)
  ]

-- No group is empty.
Filled : Group → Type 0
Filled g = any (λ s. true) g.schemas ≡ true

put_Filled_step :
    (same : Bool) (s : EventSchema) (g : Group) (gs rest : List Group)
    → Filled g
    → All Filled gs
    → All Filled rest
    → All Filled (if same then record g { schemas = g.schemas ++ s ∷ [] } ∷ gs else g ∷ rest)
unfolding Filled
put_Filled_step true s g gs rest h k l = (any-append (λ t. true) g.schemas s ∙ rw h refl, k)
put_Filled_step false s g gs rest h k l = (h, l)

put-Filled : (s : EventSchema) (gs : List Group) → All Filled gs → All Filled (put s gs)
unfolding put Filled any
put-Filled s [] h = (refl, tt)
put-Filled s (g ∷ gs) (h, k) =
    put_Filled_step (same_key g s) s g gs (put s gs) h k (put-Filled s gs k)

group_from-Filled :
    (gs : List Group) (ss : List EventSchema) → All Filled gs → All Filled (group_from gs ss)
unfolding group_from
group_from-Filled gs [] h = h
group_from-Filled gs (s ∷ ss) h = elim (Bool-cases (is_published s)) [
  | inl e ↦ rw e (group_from-Filled (put s gs) ss (put-Filled s gs h))
  | inr e ↦ rw e (group_from-Filled gs ss h)
]

tally_every : (gs : List Group) → All Filled gs → tally (λ s. true) gs ≡ length gs
unfolding tally Filled
tally_every [] h = refl
tally_every (g ∷ gs) (h, k) = rw h (ap suc (tally_every gs k))

keep_every : (ss : List EventSchema) → keep (λ s. true) ss ≡ ss
keep_every [] = refl
keep_every (s ∷ ss) = ap (λ rest. s ∷ rest) (keep_every ss)

none_before : (n : ℕ) → 0 + n ≡ n
none_before n = omega arith

-- There is a group for each contract of the published schemas.
pub length-group_from :
    (ss : List EventSchema) → length (group_from [] ss) ≡ contracts (keep is_published ss)
unfolding tally held_in was_seen contracts
length-group_from ss =
    sym (tally_every (group_from [] ss) (group_from-Filled [] ss tt))
    ∙ tally-group_from (λ s. true) [] [] ss (λ t. refl)
    ∙ none_before (new_contracts [] (keep (λ s. true) (keep is_published ss)))
    ∙ ap (new_contracts []) (keep_every (keep is_published ss))

-- As many groups have a schema that meets `p` as there are contracts of such schemas.
pub tally-contracts :
    (p : EventSchema → Bool) (ss : List EventSchema)
    → tally p (group_from [] ss) ≡ contracts (keep p (keep is_published ss))
unfolding tally held_in was_seen contracts
tally-contracts p ss =
    tally-group_from p [] [] ss (λ t. refl)
    ∙ none_before (new_contracts [] (keep p (keep is_published ss)))

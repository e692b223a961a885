-- ===== src/Registry/Contracts/Pages.antt =====
-- The pages of ListContracts (internal/module/registry/service/schema_bundle_service.go).
use naralabs_atlas.Prelude.{
  ℕ, zero, suc, ◌≡◌, refl, ◌+◌, ◌-◌, ◌*◌, ◌≤◌, Bool, true, false, List, [], ◌++◌, length, take,
  drop, take_all, drop_all, take-append-drop, drop-drop, length-take, length-drop, leb→le, ltb→lt,
  ◌<◌, sym, ap, ◌∙◌, arith, if◌then◌else◌, ltb, leb,
}
use native.Mathlib.Nat.{suc-mul}
use naralabs_atlas.Registry.Contracts.{
  ℤ, pos, negsuc, ContractItem, page, page_limit, page_offset, page_of,
}

page_cut :
    (limit offset : ℕ) (xs : List ContractItem) (b c : Bool)
    → leb (length xs) offset ≡ b
    → ltb (length xs) (offset + limit) ≡ c
    → (if b then [] else take ((if c then length xs else offset + limit) - offset) (drop offset xs))
      ≡ take limit (drop offset xs)
page_cut limit offset xs true c p q =
    let past : length xs ≤ offset = leb→le _ _ p in
    rw (drop_all offset xs past) (sym (take_all limit [] (omega arith)))
page_cut limit offset xs false true p q =
    let few : length xs < offset + limit = ltb→lt _ _ q in
    take_all (length xs - offset) (drop offset xs) (omega (arith, length-drop offset xs))
    ∙ sym (take_all limit (drop offset xs) (omega (arith, length-drop offset xs)))
page_cut limit offset xs false false p q =
    let e : (offset + limit) - offset ≡ limit = omega arith in rw e refl

page_lem :
    (limit offset : ℕ) (xs : List ContractItem) → page limit offset xs ≡ take limit (drop offset xs)
unfolding page
page_lem limit offset xs = page_cut limit offset xs _ _ refl refl

page_limit_bounds : (n : ℤ) → (1 ≤ page_limit n) × (page_limit n ≤ 100)
unfolding page_limit
page_limit_bounds (pos zero) = (omega arith, omega arith)
page_limit_bounds (pos (suc n)) = (ground arith, ground arith)
page_limit_bounds (negsuc n) = (omega arith, omega arith)

-- The items of `count` pages, one behind the other.
unfoldable pub pages : ℤ → ℕ → ℕ → List ContractItem → List ContractItem
pages limit zero offset summaries = []
pages limit (suc count) offset summaries =
    (page_of limit (pos offset) summaries).0
    ++ pages limit count (offset + page_limit limit) summaries

pages_from :
    (limit : ℤ) (count offset : ℕ) (xs : List ContractItem)
    → length xs ≤ offset + count * page_limit limit
    → pages limit count offset xs ≡ drop offset xs
unfolding pages page_of page_offset
pages_from limit zero offset xs h = sym (drop_all offset xs (omega arith))
pages_from limit (suc count) offset xs h =
    let n = page_limit limit in
    let rest = pages_from limit count (offset + n) xs (omega (arith, suc-mul count n)) in
    rw (page_lem n offset xs)
      (rw rest (rw (sym (drop-drop n offset xs)) (take-append-drop n (drop offset xs))))

-- The pages of ListContracts lose and repeat nothing: with the offsets 0, l, 2l and so on, where l is the limit that
-- the call goes on with, they are the summaries in their order, once there are enough of them. Every page has at
-- most 100 items, whatever limit and offset the request has, and its total is that of all summaries.
pub pages_whole :
    (limit offset : ℤ) (count : ℕ) (summaries : List ContractItem)
    → length summaries ≤ count * page_limit limit
    → (pages limit count 0 summaries ≡ summaries)
      × (length (page_of limit offset summaries).0 ≤ 100)
      × ((page_of limit offset summaries).1 ≡ length summaries)
unfolding page_of
pages_whole limit offset count summaries h =
    let n = page_limit limit in
    let o = page_offset offset in
    (
      pages_from limit count 0 summaries (omega arith),
      omega (
        arith,
        ap length (page_lem n o summaries),
        length-take n (drop o summaries),
        page_limit_bounds limit,
      ),
      refl,
    )

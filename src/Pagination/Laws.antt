-- ===== src/Pagination/Laws.antt =====
-- The pages of a list.
use native.Mathlib.Nat.{div-add-mod', mod-lt, suc-mul}
use go_with_me.Base.{
  ℕ, zero, suc, ◌+◌, ◌-◌, ◌*◌, ◌/◌, ◌%◌, ◌^◌, ◌≤◌, ◌<◌, List, [], ◌++◌, ◌≡◌, refl, ◌∙◌, arith, take,
  drop, take-+, take-all, length, ltb, Bool-cases, inl, inr,
}
use go_with_me.Http.{HttpRequest}
use go_with_me.Pagination.{Params, offset, parse_params, new_meta}

-- Whatever the query holds, the page is at least 1 and its size is between 1 and 100.
pub parse_params_lem :
    (r : HttpRequest)
    → let p = parse_params r in (1 ≤ p.page) × (1 ≤ p.page_size) × (p.page_size ≤ 100)
unfolding parse_params
parse_params_lem r = ground arith

-- The multiple below this one.
pred_times : (n s : ℕ) → 1 ≤ s → (n - 1) * s ≤ n * s - 1
pred_times zero s h = omega arith
pred_times (suc n) s h =
    let pred : suc n - 1 ≡ n = omega arith in rw pred (omega (arith, suc-mul n s))

-- For a page size of at least 1, the number of pages of `new_meta` is enough for all rows, and one
-- page fewer is not, if there is a row.
pub new_meta_lem :
    (p : Params) (total : ℕ)
    → 1 ≤ p.page_size
    → let pages = (new_meta p total).total_pages in
      (total ≤ pages * p.page_size) × ((pages - 1) * p.page_size ≤ total - 1)
unfolding new_meta
new_meta_lem p total h =
    let whole = div-add-mod' total p.page_size in
    let part = mod-lt total {m = p.page_size} (omega arith) in
    let next = suc-mul (total / p.page_size) p.page_size in
    elim (Bool-cases (ltb 0 (total % p.page_size))) [
      | inl more ↦
          let positive : 0 < total % p.page_size = ground arith in
          let pages : total / p.page_size + 1 ≡ suc (total / p.page_size) = omega arith in
          let pred : suc (total / p.page_size) - 1 ≡ total / p.page_size = omega arith in
          rw (more, pages, pred) (omega (arith, next, whole, part), omega (arith, whole, positive))
      | inr no_more ↦
          let exact : total % p.page_size ≡ 0 = ground arith in
          rw no_more (
            omega (arith, whole, exact),
            omega (arith, whole, exact, pred_times (total / p.page_size) p.page_size h),
          )
    ]

-- The rows of a page.
abbrev pub page_of {ℓ} : {A : Type ℓ} → Params → List A → List A
page_of p xs = take p.page_size (drop (offset p) xs)

-- The rows of the pages from the first to the `n`th.
abbrev pub pages {ℓ} : {A : Type ℓ} → ℕ → ℕ → List A → List A
pages zero size xs = []
pages (suc n) size xs = pages n size xs ++ page_of (record { page = suc n; page_size = size }) xs

pages-take :
    {A : Type 0} (n size : ℕ) (xs : List A)
    → n * size < 2 ^ 63
    → pages n size xs ≡ take (n * size) xs
unfolding offset
pages-take zero size xs h = let none_yet : 0 * size ≡ 0 = omega arith in rw none_yet refl
pages-take (suc n) size xs h =
    let step = suc-mul n size in
    let pred : suc n - 1 ≡ n = omega arith in
    let small : n * size % 2 ^ 64 ≡ n * size = omega (arith, step) in
    rw (step, pred, small, take-+ (n * size) size xs, pages-take n size xs (omega (arith, step)))

-- For a page size of at least 1, and rows whose number stays below the largest int: the pages up to
-- the last one of `new_meta`, one after the other, are the whole list.
pub pages_cover :
    {A : Type 0} (size : ℕ) (xs : List A)
    → 1 ≤ size
    → let last = (new_meta (record { page = 1; page_size = size }) (length xs)).total_pages in
      last * size < 2 ^ 63 → pages last size xs ≡ xs
pages_cover size xs h small =
    let p : Params = record { page = 1; page_size = size } in
    let last = (new_meta p (length xs)).total_pages in
    pages-take last size xs small ∙ take-all (last * size) xs (new_meta_lem p (length xs) h).0

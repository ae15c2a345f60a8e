-- ===== src/Pager/Pages.antt =====
-- The rows of the pages of orm/page.go.
use b_go_util.Base.{
  ℕ, zero, suc, ℤ, pos, negsuc, ◌*ℤ◌, ◌-ℤ◌, ◌+ℤ◌, ◌≤ℤ◌, ltb, leb, ltb_ℤ, ◌&&◌, wrap64,
  wrap64_of_IsInt64, if◌then◌else◌, ◌≡◌, refl, arith, ◌*◌, ◌^◌, ◌<◌, ◌≤◌,
}
use b_go_util.Pager.{new_pager, limit, offset}

rows : ℤ → ℕ
rows (negsuc size) = 30
rows (pos size) = if leb size 0 then 30 else if ltb 100 size then 100 else size

rows_bounds : (size : ℤ) → (1 ≤ rows size) × (rows size ≤ 100)
unfolding rows
rows_bounds (negsuc size) = (omega arith, omega arith)
rows_bounds (pos size) = ground arith

limit-rows : (number size : ℤ) → limit (new_pager number size) ≡ pos (rows size)
unfolding limit new_pager rows
limit-rows number (negsuc size) = ground arith
limit-rows number (pos size) = ground arith

product_pos : (l k : ℕ) → pos l *ℤ pos k ≡ pos (l * k)
unfolding ◌*ℤ◌
product_pos l k = ground arith

before_pos : (n : ℕ) → pos (suc n) -ℤ pos 1 ≡ pos n
unfolding ◌-ℤ◌
before_pos n = ground arith

wrap64_product :
    (l n : ℕ)
    → l * n < 2 ^ 63
    → n < 2 ^ 63
    → wrap64 (pos l *ℤ wrap64 (pos (suc n) -ℤ pos 1)) ≡ pos (l * n)
wrap64_product l n h k =
    rw (before_pos n, wrap64_of_IsInt64 (pos n) (k, omega arith), product_pos l n)
      (wrap64_of_IsInt64 (pos (l * n)) (h, omega arith))

product_bound : (l n : ℕ) → l ≤ 100 → l * n ≤ 100 * n
product_bound l zero h = omega arith
product_bound l (suc n) h = omega (arith, product_bound l n h)

offset-rows :
    (n : ℕ) (size : ℤ) → n < 2 ^ 56 → offset (new_pager (pos (suc n)) size) ≡ pos (rows size * n)
unfolding offset new_pager
offset-rows n size h =
    let bound = product_bound (rows size) n (rows_bounds size).1 in
    let product = wrap64_product (rows size) n (omega arith) (omega arith) in
    rw (limit-rows (pos (suc n)) size, product) (offset_cases n (rows size) (rows_bounds size).0)
  where
    offset_cases :
        (n l : ℕ)
        → 1 ≤ l
        → (if ltb_ℤ (pos 0) (pos l) && ltb_ℤ (pos 1) (pos (suc n)) then pos (l * n) else pos 0)
          ≡ pos (l * n)
    offset_cases zero l h = ground arith
    offset_cases (suc n) l h = ground arith

sum_pos : (l n : ℕ) → pos (l * suc n) ≡ pos (l * n) +ℤ pos l
unfolding ◌+ℤ◌
sum_pos l n = ground arith

-- For every page size that is asked for, of a pager of NewPager: a page holds from 1 to 100 rows, the
-- first page starts at row 0, and each page starts where the one before it ends. The page numbers
-- are below 2^56.
pub pages_follow :
    (size : ℤ) (n : ℕ)
    → suc n < 2 ^ 56
    → (pos 1 ≤ℤ limit (new_pager (pos (suc n)) size))
      × (limit (new_pager (pos (suc n)) size) ≤ℤ pos 100)
      × (offset (new_pager (pos 1) size) ≡ pos 0)
      × (offset (new_pager (pos (suc (suc n))) size)
          ≡ offset (new_pager (pos (suc n)) size) +ℤ limit (new_pager (pos (suc n)) size))
pages_follow size n h =
    let (low, high) = rows_bounds size in
    let nothing : rows size * 0 ≡ 0 = omega arith in
    rw
      (
        limit-rows (pos (suc n)) size,
        offset-rows 0 size (omega arith),
        offset-rows n size (omega arith),
        offset-rows (suc n) size h,
        nothing,
      )
      (omega arith, omega arith, refl, sum_pos (rows size) n)

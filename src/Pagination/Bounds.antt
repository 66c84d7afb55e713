-- ===== src/Pagination/Bounds.antt =====
-- What the page parameters of pkg/pagination become.
use go_backend_core.Prelude.{ℕ, suc, ◌+◌, ◌-◌, ◌*◌, ◌≤◌, ◌<◌, ◌≡◌, arith, ltb, if◌then◌else◌}
use go_backend_core.Prelude.Int.{ℤ, pos, negsuc, pos_part, half64, wrap64_pos, ◌+ℤ◌, ◌-ℤ◌, ◌*ℤ◌}
use go_backend_core.Pagination.{clamp_page, clamp_size, parse_offset, parse_page}

-- The 0-based number of a page and the number of rows on it.
abbrev pub page_index : ℤ → ℕ
page_index page = pos_part page - 1

abbrev pub page_rows : ℤ → ℕ
page_rows size =
    if ltb (pos_part size) 1 then 20 else if ltb 100 (pos_part size) then 100 else pos_part size

page_rows_bounds : (size : ℤ) → (1 ≤ page_rows size) × (page_rows size ≤ 100)
page_rows_bounds (pos n) = ground arith
page_rows_bounds (negsuc n) = ground arith

clamp_page_lem : (page : ℤ) → clamp_page page ≡ pos (suc (page_index page))
clamp_page_lem (pos n) = ground arith
clamp_page_lem (negsuc n) = ground arith

clamp_size_lem : (size : ℤ) → clamp_size size ≡ pos (page_rows size)
clamp_size_lem (pos n) = ground arith
clamp_size_lem (negsuc n) = ground arith

pub one_less : (n : ℕ) → pos (suc n) -ℤ pos 1 ≡ pos n
unfolding ◌-ℤ◌
one_less n = ground arith

pub times_pos : (a b : ℕ) → pos a *ℤ pos b ≡ pos (a * b)
unfolding ◌*ℤ◌
times_pos a b = ground arith

pub plus_pos : (a b : ℕ) → pos a +ℤ pos b ≡ pos (a + b)
unfolding ◌+ℤ◌
plus_pos a b = ground arith

pub row_bound : (n s : ℕ) → s ≤ 100 → n * 100 + 100 < half64 → n * s + s < half64
row_bound n s h k = grind arith

-- Whatever page and size are asked for, the page counts from 1 and the size lies between 1 and
-- 100; the offset is the exact number of rows on the earlier pages, if that many pages of the
-- greatest size fit an int.
pub parse_offset_exact :
    (page size : ℤ)
    → page_index page * 100 + 100 < half64
    → (parse_page page size ≡ (pos (suc (page_index page)), pos (page_rows size)))
      × (parse_offset page size ≡ (pos (page_index page * page_rows size), pos (page_rows size)))
      × (1 ≤ page_rows size)
      × (page_rows size ≤ 100)
unfolding parse_offset parse_page
parse_offset_exact page size h =
    let (low, high) = page_rows_bounds size in
    let n = page_index page in
    let s = page_rows size in
    let small : n * s < half64 = omega (arith, row_bound n s high h) in
    (
      rw (clamp_page_lem page, clamp_size_lem size),
      rw (
        clamp_page_lem page,
        clamp_size_lem size,
        one_less n,
        wrap64_pos n (omega arith),
        times_pos n s,
        wrap64_pos _ small,
      ),
      low,
      high,
    )

index_suc : (n : ℕ) → suc n - 1 ≡ n
index_suc n = omega arith

-- The same for a page that is asked for by its number.
pub parse_at :
    (n : ℕ) (size : ℤ)
    → n * 100 + 100 < half64
    → (parse_page (pos (suc n)) size ≡ (pos (suc n), pos (page_rows size)))
      × (parse_offset (pos (suc n)) size ≡ (pos (n * page_rows size), pos (page_rows size)))
      × (1 ≤ page_rows size)
      × (page_rows size ≤ 100)
parse_at n size h = rw (index_suc n) at (parse_offset_exact (pos (suc n)) size (rw (index_suc n) h))

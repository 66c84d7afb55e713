-- ===== src/Auth/Listing.antt =====
-- The page that ListUsers (internal/services/auth/store.go) and ListAll (apikey.go) cut out of a
-- filtered slice.
use go_backend_core.Prelude.{
  ℕ, zero, suc, ◌+◌, ◌-◌, ◌*◌, ◌≤◌, ◌<◌, ◌≡◌, refl, ◌||◌, ap, Option, none, some, List, [], ◌∷◌,
  arith, length, take, drop, length-drop, ltb, if◌then◌else◌, page-eq-nil_iff,
}
use go_backend_core.Prelude.Int.{
  ℤ, pos, negsuc, pos_part, half64, ◌-ℤ◌, ◌*ℤ◌, ◌+ℤ◌, leb_ℤ, ltb_ℤ, wrap64, wrap64_pos,
}

abbrev page_or_first : ℤ → ℤ
page_or_first page = if ltb_ℤ page (pos 1) then pos 1 else page

-- A size out of range becomes 20, also one above 100.
abbrev size_or_default : ℤ → ℤ
size_or_default size = if ltb_ℤ size (pos 1) || ltb_ℤ (pos 100) size then pos 20 else size

-- `filtered[start:end]`: `none` is the panic on bounds out of range.
abbrev slice {ℓ} : {A : Type ℓ} → List A → ℤ → ℤ → Option (List A)
slice filtered start end =
    if ltb_ℤ start (pos 0) || ltb_ℤ end start
    then none
    else some (take (pos_part end - pos_part start) (drop (pos_part start) filtered))

abbrev with_total : {A : Type 0} → ℤ → Option (List A) → Option (List A × ℤ)
with_total total none = none
with_total total (some rows) = some (rows, total)

-- The rows of the page, and the total.
unfoldable pub list_page : {A : Type 0} → List A → ℤ → ℤ → Option (List A × ℤ)
list_page filtered page size =
    let total = pos (length filtered) in
    let s = size_or_default size in
    let start = wrap64 (wrap64 (page_or_first page -ℤ pos 1) *ℤ s) in
    let end = wrap64 (start +ℤ s) in
    let rows = slice filtered start (if ltb_ℤ total end then total else end) in
    if leb_ℤ total start then some ([], total) else with_total total rows

-- The number of rows before a page, in pages, and the number of rows on a page.
abbrev pub pages_before : ℤ → ℕ
pages_before page = pos_part page - 1

abbrev pub rows_of : ℤ → ℕ
rows_of size = if ltb (pos_part size) 1 || ltb 100 (pos_part size) then 20 else pos_part size

rows_of_bounds : (size : ℤ) → (1 ≤ rows_of size) × (rows_of size ≤ 100)
rows_of_bounds (pos n) = ground arith
rows_of_bounds (negsuc n) = ground arith

page_or_first_lem : (page : ℤ) → page_or_first page ≡ pos (suc (pages_before page))
page_or_first_lem (pos n) = ground arith
page_or_first_lem (negsuc n) = ground arith

size_or_default_lem : (size : ℤ) → size_or_default size ≡ pos (rows_of size)
size_or_default_lem (pos n) = ground arith
size_or_default_lem (negsuc n) = ground arith

one_less : (n : ℕ) → pos (suc n) -ℤ pos 1 ≡ pos n
unfolding ◌-ℤ◌
one_less n = ground arith

times_pos : (a b : ℕ) → pos a *ℤ pos b ≡ pos (a * b)
unfolding ◌*ℤ◌
times_pos a b = ground arith

plus_pos : (a b : ℕ) → pos a +ℤ pos b ≡ pos (a + b)
unfolding ◌+ℤ◌
plus_pos a b = ground arith

row_bound : (n s : ℕ) → s ≤ 100 → n * 100 + 100 < half64 → n * s + s < half64
row_bound n s h k = grind arith

take_all {ℓ} : {A : Type ℓ} (n : ℕ) (xs : List A) → length xs ≤ n → take n xs ≡ xs
take_all zero [] h = refl
take_all zero (x ∷ xs) h = absurd (omega arith)
take_all (suc n) [] h = refl
take_all (suc n) (x ∷ xs) h = rw (take_all n xs (omega arith))

-- With exact bounds the slice is the page, cut where the rows end.
cut :
    {A : Type 0} (xs : List A) (skip s : ℕ)
    → 1 ≤ s
    → (let total = pos (length xs) in
        let end = pos (skip + s) in
        if leb_ℤ total (pos skip)
        then some ([], total)
        else with_total total (slice xs (pos skip) (if ltb_ℤ total end then total else end)))
      ≡ some (take s (drop skip xs), pos (length xs))
cut xs skip s h =
    let same : skip + s - skip ≡ s = omega arith in
    ground (
      arith,
      same,
      ap (λ n. take n (drop skip xs)) same,
      page-eq-nil_iff skip s xs h,
      take_all (length xs - skip) (drop skip xs),
      take_all s (drop skip xs),
      length-drop skip xs,
    )

-- A page asked for is the rows from its offset on, as many as its size allows, with the number of
-- all rows as the total; it never panics, if that many pages of the greatest size fit an int.
pub list_page_lem :
    {A : Type 0} (filtered : List A) (page size : ℤ)
    → pages_before page * 100 + 100 < half64
    → list_page filtered page size
      ≡ some (
        take (rows_of size) (drop (pages_before page * rows_of size) filtered),
        pos (length filtered),
      )
unfolding list_page
list_page_lem filtered page size h =
    let (low, high) = rows_of_bounds size in
    let n = pages_before page in
    let s = rows_of size in
    let small : n * s + s < half64 = row_bound n s high h in
    rw
      (
        page_or_first_lem page,
        size_or_default_lem size,
        one_less n,
        wrap64_pos n (omega arith),
        times_pos n s,
        wrap64_pos (n * s) (omega arith),
        plus_pos (n * s) s,
        wrap64_pos (n * s + s) small,
      )
      (cut filtered (n * s) s low)

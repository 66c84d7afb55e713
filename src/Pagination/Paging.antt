-- ===== src/Pagination/Paging.antt =====
-- Paging through a list of rows with the limits of pkg/pagination: the pages cover the rows, and
-- `HasMore` says whether the next one is empty.
use mathlib.Core.Path.{◌≡⟨◌⟩◌, ◌∎}
use native.Mathlib.Decide.{dec_le}
use native.Mathlib.Nat.{zero-mul}
use go_backend_core.Prelude.{
  ℕ, zero, suc, ◌+◌, ◌*◌, ◌<◌, ◌≡◌, refl, ◌≢◌, sym, ap, ap₂, ◌∙◌, ◌↔◌, true, List, [], ◌++◌, arith,
  length, take, drop, take-add, page-eq-nil_iff, ltb→lt, lt→ltb,
}
use go_backend_core.Prelude.Int.{ℤ, pos, pos_part, half64, wrap64, wrap64_pos, ◌+ℤ◌, ◌*ℤ◌}
use go_backend_core.Pagination.{SqlClause, build_offset_query, new_offset_result, new_page_result}
use go_backend_core.Pagination.Bounds.{page_rows, parse_at, plus_pos, times_pos, row_bound}

-- What a query returns with the clause's LIMIT and OFFSET.
abbrev pub select : {C A : Type 0} → SqlClause C → List A → List A
select c rows = take (pos_part c.limit) (drop (pos_part c.offset) rows)

module _ (C : Type 0) {A : Type 0} where
  select_page :
      (n : ℕ) (size : ℤ) (rows : List A)
      → n * 100 + 100 < half64
      → select (build_offset_query {C = C} (pos (suc n)) size) rows
        ≡ take (page_rows size) (drop (n * page_rows size) rows)
  unfolding build_offset_query
  select_page n size rows h = let (_, e, _, _) = parse_at n size h in rw e

  -- The first `count` pages, one after another.
  abbrev pub first_pages : ℕ → ℤ → List A → List A
  first_pages zero size rows = []
  first_pages (suc count) size rows =
      first_pages count size rows ++ select (build_offset_query {C = C} (pos (suc count)) size) rows

  -- The pages 1 to `count` together are the first rows, each once and in order, as many as fit,
  -- if so many pages of the greatest size fit an int.
  pub first_pages_cover :
      (count : ℕ) (size : ℤ) (rows : List A)
      → count * 100 < half64
      → first_pages count size rows ≡ take (count * page_rows size) rows
  first_pages_cover zero size rows h = rw zero-mul
  first_pages_cover (suc count) size rows h =
      let s = page_rows size in
      let fits : count * 100 + 100 < half64 = omega arith in
      first_pages count size rows ++ select (build_offset_query {C = C} (pos (suc count)) size) rows
      ≡⟨ ap₂ ◌++◌ (first_pages_cover count size rows (omega arith))
          (select_page count size rows fits) ⟩
        take (count * s) rows ++ take s (drop (count * s) rows)
      ≡⟨ sym (take-add (count * s) s rows) ⟩ take (count * s + s) rows
      ≡⟨ ap (λ n. take n rows) (omega arith) ⟩ take (suc count * s) rows ∎

-- Both results with a total say that there is more exactly when the next page of the rows is not
-- empty, if the pages up to it, of the greatest size, fit an int64.
pub has_more_iff :
    (C : Type 0) {I A : Type 0} (items : I) (rows : List A) (n : ℕ) (size : ℤ)
    → n * 100 + 200 < half64
    → let page = pos (suc n) in
      let next = select (build_offset_query {C = C} (pos (suc (suc n))) size) rows in
      (((new_offset_result items (pos (length rows)) page size).has_more ≡ true) ↔ (next ≢ []))
      × ((new_page_result items (pos (length rows)) page size).has_more
          ≡ (new_offset_result items (pos (length rows)) page size).has_more)
unfolding new_offset_result new_page_result
has_more_iff C items rows n size h =
    let s = page_rows size in
    let (e, f, low, high) = parse_at n size (omega arith) in
    let small : n * s + s < half64 = row_bound n s high (omega arith) in
    let sum : wrap64 (pos (n * s) +ℤ pos s) ≡ pos (n * s + s) =
      ap wrap64 (plus_pos (n * s) s) ∙ wrap64_pos _ small in
    let product : wrap64 (pos (suc n) *ℤ pos s) ≡ pos (n * s + s) =
      ap wrap64 (times_pos (suc n) s ∙ ap pos (omega arith)) ∙ wrap64_pos _ small in
    let (empty, ended) = page-eq-nil_iff (suc n * s) s rows low in
    rw (e, f, sum, product, select_page C (suc n) size rows (omega arith))
      (
        (
          λ m k. absurd (omega (arith, empty k, ltb→lt _ _ m)),
          λ ne. elim (dec_le (length rows) (suc n * s)) [
            | yes le ↦ absurd (ne (ended le))
            | no gt ↦ lt→ltb _ _ (omega arith)
          ],
        ),
        refl,
      )

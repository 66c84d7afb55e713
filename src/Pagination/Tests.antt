-- ===== src/Pagination/Tests.antt =====
-- Page requests at concrete values, and the theorems of the other modules there.
use go_backend_core.Prelude.{ℕ, ◌≤◌, ◌≡◌, refl, ◌↔◌, ◌≢◌, true, List, [], ◌∷◌, arith}
use go_backend_core.Prelude.Int.{pos, negsuc, wrap64, ◌-ℤ◌, ◌*ℤ◌}
use go_backend_core.Pagination.{
  parse_offset, parse_page, new_offset_result, new_page_result, build_offset_query,
}
use go_backend_core.Pagination.Bounds.{parse_offset_exact}
use go_backend_core.Pagination.Paging.{select, first_pages, first_pages_cover, has_more_iff}

negative_page : parse_offset (negsuc 4) (pos 500) ≡ (pos 0, pos 100)
unfolding parse_offset wrap64 ◌-ℤ◌ ◌*ℤ◌
negative_page = refl

parse_offset_exact_example :
    (parse_page (pos 3) (pos 0) ≡ (pos 3, pos 20))
    × (parse_offset (pos 3) (pos 0) ≡ (pos 40, pos 20))
    × (1 ≤ 20)
    × (20 ≤ 100)
parse_offset_exact_example = parse_offset_exact (pos 3) (pos 0) (omega arith)

abbrev rows : List ℕ
rows = 1 ∷ 2 ∷ 3 ∷ 4 ∷ 5 ∷ []

first_pages_cover_example : first_pages ℕ 2 (pos 2) rows ≡ 1 ∷ 2 ∷ 3 ∷ 4 ∷ []
first_pages_cover_example = first_pages_cover ℕ 2 (pos 2) rows (omega arith)

has_more_iff_test :
    (((new_offset_result rows (pos 5) (pos 2) (pos 2)).has_more ≡ true)
      ↔ (select (build_offset_query {C = ℕ} (pos 3) (pos 2)) rows ≢ []))
    × ((new_page_result rows (pos 5) (pos 2) (pos 2)).has_more
        ≡ (new_offset_result rows (pos 5) (pos 2) (pos 2)).has_more)
has_more_iff_test = has_more_iff ℕ rows rows 1 (pos 2) (omega arith)

-- ===== src/Pagination.antt =====
-- pkg/pagination: page parameters, page results and the SQL limits made from them. Items, cursor
-- values and columns are parameters; `int` and `int64` have 64 bits.
pub mod Bounds
pub mod Paging
mod Tests
use go_backend_core.Prelude.{Bool, Option, none, some, List, [], ◌∷◌, String, if◌then◌else◌}
use go_backend_core.Prelude.Int.{ℤ, pos, ◌+ℤ◌, ◌-ℤ◌, ◌*ℤ◌, ltb_ℤ, wrap64}

abbrev clamp_page : ℤ → ℤ
clamp_page page = if ltb_ℤ page (pos 1) then pos 1 else page

abbrev clamp_size : ℤ → ℤ
clamp_size size =
    if ltb_ℤ size (pos 1) then pos 20 else if ltb_ℤ (pos 100) size then pos 100 else size

-- The offset and the limit.
unfoldable pub parse_offset : ℤ → ℤ → ℤ × ℤ
parse_offset page size =
    let page' = clamp_page page in
    let size' = clamp_size size in (wrap64 (wrap64 (page' -ℤ pos 1) *ℤ size'), size')

unfoldable pub parse_page : ℤ → ℤ → ℤ × ℤ
parse_page page size = (clamp_page page, clamp_size size)

unfoldable pub parse_cursor : String → ℤ → ℤ
parse_cursor cursor limit = clamp_size limit

pub record Result (I : Type 0) : Type 0 where
  pub items : I
  pub total : ℤ
  pub page : ℤ
  pub size : ℤ
  pub limit : ℤ
  pub offset : ℤ
  pub cursor : String
  pub next_cursor : String
  pub has_more : Bool

module _ {I : Type 0} where
  unfoldable pub new_offset_result : I → ℤ → ℤ → ℤ → Result I
  new_offset_result items total page size =
      let (offset, limit) = parse_offset page size in
      record {
        items = items;
        total = total;
        page = pos 0;
        size = limit;
        limit = pos 0;
        offset = offset;
        cursor = "";
        next_cursor = "";
        has_more = ltb_ℤ (wrap64 (offset +ℤ limit)) total;
      }

  unfoldable pub new_page_result : I → ℤ → ℤ → ℤ → Result I
  new_page_result items total page size =
      let (p, s) = parse_page page size in
      record {
        items = items;
        total = total;
        page = p;
        size = s;
        limit = pos 0;
        offset = pos 0;
        cursor = "";
        next_cursor = "";
        has_more = ltb_ℤ (wrap64 (p *ℤ s)) total;
      }

  unfoldable pub new_cursor_result : I → String → ℤ → Bool → Result I
  new_cursor_result items next_cursor limit has_more = record {
    items = items;
    total = pos 0;
    page = pos 0;
    size = pos 0;
    limit = parse_cursor next_cursor limit;
    offset = pos 0;
    cursor = "";
    next_cursor = next_cursor;
    has_more = has_more;
  }

-- Any direction but `DESC` is taken for `ASC`.
pub data Order : Type 0 where
  asc desc : Order

pub record CursorQuery (C : Type 0) : Type 0 where
  pub column : String
  pub cursor : Option C
  pub direction : Order
  pub limit : ℤ

-- `Where` (the field `condition`) and `Order` as the parts that their texts are built from.
pub data Comparison : Type 0 where
  gt lt : Comparison

pub record SqlClause (C : Type 0) : Type 0 where
  pub condition : Option (String × Comparison)
  pub args : List C
  pub order : Option (String × Order)
  pub limit : ℤ
  pub offset : ℤ

abbrev operator : Order → Comparison
operator asc = gt
operator desc = lt

module _ {C : Type 0} where
  abbrev bind_cursor : CursorQuery C → Option C → Option (String × Comparison) × List C
  bind_cursor q none = (none, [])
  bind_cursor q (some c) = (some (q.column, operator q.direction), c ∷ [])

  unfoldable pub build_cursor_query : CursorQuery C → SqlClause C
  build_cursor_query q =
      let (bound, args) = bind_cursor q q.cursor in
      record {
        condition = bound;
        args = args;
        order = some (q.column, q.direction);
        limit = parse_cursor "" q.limit;
        offset = pos 0;
      }

  unfoldable pub build_offset_query : ℤ → ℤ → SqlClause C
  build_offset_query page size =
      let (offset, limit) = parse_offset page size in
      record { condition = none; args = []; order = none; limit = limit; offset = offset }

  unfoldable pub build_page_query : ℤ → ℤ → SqlClause C
  build_page_query page size =
      let (p, s) = parse_page page size in
      record {
        condition = none;
        args = [];
        order = none;
        limit = s;
        offset = wrap64 (wrap64 (p -ℤ pos 1) *ℤ s);
      }

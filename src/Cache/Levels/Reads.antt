-- ===== src/Cache/Levels/Reads.antt =====
-- What is read through both levels of internal/services/cache/cache.go.
use go_backend_core.Prelude.{ℕ, ◌≡◌, refl, false, Option, none, some, String}
use go_backend_core.Prelude.Int.{pos, ◌+ℤ◌, ◌≤ℤ◌}
use go_backend_core.Prelude.Equality.{string_eq}
use go_backend_core.Prelude.Dict.{read}
use go_backend_core.Prelude.Result.{ok}
use go_backend_core.Cache.Codecs.{Bytes, Registry, decode_with}
use go_backend_core.Cache.Level.{MultiLevelCache, l1_get, l1_set}
use go_backend_core.Cache.Level.Writes.{get_written}
use go_backend_core.Cache.Levels.{is_nil_value, l2_key, hit, decoded, from_l1, get}
use go_backend_core.Cache.Levels.Redis.{Client}

decoded_ok :
    {V : Type 0} (reg : Registry V) (bytes : Bytes) (value : V)
    → decode_with reg bytes ≡ ok value
    → decoded reg bytes ≡ ok value
decoded_ok reg bytes value back = rw (back, decoded) refl

module _ {V R : Type 0} (reg : Registry V) (rdb : Option (Client R)) where
  served_locally :
      (key : String) (now : ℕ) (r : R) (found : MultiLevelCache V × Option Bytes) (bytes : Bytes)
      (value : V)
      → found.1 ≡ some bytes
      → is_nil_value bytes ≡ false
      → decode_with reg bytes ≡ ok value
      → (from_l1 reg rdb key now r found).1 ≡ ok value
  served_locally key now r (c, none) bytes value h plain back = cc
  served_locally key now r (c, some b) bytes value h plain back =
      let same : b ≡ bytes = cc in rw (same, plain) (decoded_ok reg bytes value back)

-- A key that only Redis holds is answered from there, and from then on from the local level until the
-- default lifetime is over, also if Redis is gone or holds something else.
pub get_reads_through :
    {V R : Type 0} (reg : Registry V) (redis : Client R) (later_rdb : Option (Client R))
    (key : String) (now later : ℕ) (bytes : Bytes) (value : V) (c : MultiLevelCache V) (r r' : R)
    → read key c.l1 ≡ none
    → redis.get (l2_key "cache" key) r ≡ ok (some bytes)
    → is_nil_value bytes ≡ false
    → decode_with reg bytes ≡ ok value
    → pos later ≤ℤ pos now +ℤ c.opts.default_ttl
    → ((get reg (some redis) none key now c r).1 ≡ ok value)
      × ((get reg later_rdb none key later (get reg (some redis) none key now c r).0 r').1
          ≡ ok value)
unfolding get l1_get l1_set
get_reads_through {V} reg redis later_rdb key now later bytes value c r r' absent held plain back
      live =
    let answer = decoded_ok reg bytes value back in
    let there : MultiLevelCache V = hit (l1_set key bytes c.opts.default_ttl now c) in
    rw (absent, held, plain)
      (
        answer,
        served_locally reg later_rdb key later r' (l1_get key later there) bytes value
            (get_written (hit c) key bytes c.opts.default_ttl now later live) plain back,
      )

-- ===== src/Cache/Levels.antt =====
-- internal/services/cache/cache.go: the two levels together. Redis is a parameter, or nil; `ctx` is
-- the error of the context, if it has one; the counters of hits and misses have 64 bits. Calls for
-- one key that `singleflight` joins are modelled one at a time; metrics and slow logs are left out.
pub mod Redis
pub mod Reads
use Prim.Native.String
use go_backend_core.Prelude.{
  ℕ, ◌&&◌, Bool, true, false, not, Option, none, some, List, [], ◌∷◌, ◌++◌, String, length, map,
  ltb, keep, if◌then◌else◌,
}
use go_backend_core.Prelude.Int.{ℤ, pos, ◌+ℤ◌, leb_ℤ, wrap64}
use go_backend_core.Prelude.Equality.{◌==◌, nat_eq, string_eq}
use go_backend_core.Prelude.Dict.{Dict, read, write}
use go_backend_core.Prelude.Result.{Result, ok, err}
use go_backend_core.Cache.Codecs.{Bytes, CodecError, Registry, encode_with, decode_with}
use go_backend_core.Cache.Level.{MultiLevelCache, jitter_ttl, l1_get, l1_set, l1_del, l1_clear}
use Redis.{Client}

pub data CacheError : Type 0 where
  miss nil_value no_redis : CacheError
  cancelled redis_failed loader_failed : String → CacheError
  codec_failed : CodecError → CacheError
  warmup_failed : String → CacheError → CacheError

abbrev pub nil_placeholder : Bytes
nil_placeholder = 0 ∷ b'n' ∷ b'i' ∷ b'l' ∷ []

abbrev pub is_nil_value : Bytes → Bool
is_nil_value (a ∷ b ∷ c ∷ d ∷ []) = a == 0 && b == b'n' && c == b'i' && d == b'l'
is_nil_value bytes = false

abbrev pub l2_key : String → String → String
l2_key namespace key = String.◌++◌ namespace (String.◌++◌ ":" key)

pub record Stats : Type 0 where
  pub l1_count : ℕ
  pub hits : ℤ
  pub misses : ℤ

module _ {V : Type 0} where
  abbrev pub hit : MultiLevelCache V → MultiLevelCache V
  hit c = record c { hits = wrap64 (c.hits +ℤ pos 1) }

  abbrev pub missed : MultiLevelCache V → MultiLevelCache V
  missed c = record c { misses = wrap64 (c.misses +ℤ pos 1) }

  abbrev pub decoded : Registry V → Bytes → Result CacheError V
  decoded reg bytes = elim (decode_with reg bytes) [ ok v ↦ ok v | err e ↦ err (codec_failed e) ]

  -- The lifetime that is written: the default if none is given, then the jitter.
  abbrev pub lifetime : ℤ → ℤ → MultiLevelCache V → ℤ
  lifetime ttl drawn c =
      jitter_ttl (if leb_ℤ ttl (pos 0) then c.opts.default_ttl else ttl) c.opts.jitter drawn

  unfoldable pub stats : MultiLevelCache V → Stats
  stats c = record { l1_count = length c.l1; hits = c.hits; misses = c.misses }

  unfoldable pub close : MultiLevelCache V → MultiLevelCache V
  close c = l1_clear c

abbrev pub Done : Type 0
Done = Result CacheError (Unit {0})

abbrev pub done_unless : Option String → Done
done_unless none = ok tt
done_unless (some e) = err (redis_failed e)

module _ {V R : Type 0} (reg : Registry V) (rdb : Option (Client R)) where
  -- The answer of Redis inside `singleflight`.
  abbrev pub fetched :
      String
      → ℕ
      → MultiLevelCache V
      → Result String (Option Bytes)
      → MultiLevelCache V × Result CacheError V
  fetched key now c (err e) = (missed c, err (redis_failed e))
  fetched key now c (ok none) = (missed c, err miss)
  fetched key now c (ok (some bytes)) =
      let c' = l1_set key bytes c.opts.default_ttl now c in
      if is_nil_value bytes then (missed c', err nil_value) else (hit c', decoded reg bytes)

  abbrev pub from_l2 :
      Option (Client R)
      → String
      → ℕ
      → MultiLevelCache V
      → R
      → MultiLevelCache V × Result CacheError V
  from_l2 none key now c r = (missed c, err miss)
  from_l2 (some redis) key now c r = fetched key now c (redis.get (l2_key "cache" key) r)

  abbrev pub from_l1 :
      String → ℕ → R → MultiLevelCache V × Option Bytes → MultiLevelCache V × Result CacheError V
  from_l1 key now r (c, some bytes) =
      (hit c, if is_nil_value bytes then err nil_value else decoded reg bytes)
  from_l1 key now r (c, none) = from_l2 rdb key now c r

  unfoldable pub get :
      Option String → String → ℕ → MultiLevelCache V → R → MultiLevelCache V × Result CacheError V
  get (some e) key now c r = (c, err (cancelled e))
  get none key now c r = from_l1 key now r (l1_get key now c)

abbrev is_counted : Result String ℕ → Result CacheError Bool
is_counted (err e) = err (redis_failed e)
is_counted (ok n) = ok (ltb 0 n)

module _ {R : Type 0} where
  abbrev write_l2 : Option (Client R) → String → Bytes → ℤ → R → R × Done
  write_l2 none key bytes ttl r = (r, ok tt)
  write_l2 (some redis) key bytes ttl r =
      let (r', e) = redis.set (l2_key "cache" key) bytes ttl r in (r', done_unless e)

  abbrev delete_l2 : Option (Client R) → String → R → R × Done
  delete_l2 none key r = (r, ok tt)
  delete_l2 (some redis) key r = let (r', e) = redis.del key r in (r', done_unless e)

module _ {V R : Type 0} (rdb : Option (Client R)) where
  abbrev pub set_encoded :
      String
      → ℤ
      → ℕ
      → MultiLevelCache V
      → R
      → Result CodecError Bytes
      → MultiLevelCache V × R × Done
  set_encoded key ttl now c r (err e) = (c, r, err (codec_failed e))
  set_encoded key ttl now c r (ok bytes) =
      let (r', done) = write_l2 rdb key bytes ttl r in (l1_set key bytes ttl now c, r', done)

  -- `drawn` is the random part of the lifetime.
  unfoldable pub set : String → V → ℤ → ℤ → ℕ → MultiLevelCache V → R → MultiLevelCache V × R × Done
  set key value ttl drawn now c r =
      set_encoded key (lifetime ttl drawn c) now c r (encode_with c.codec value)

  unfoldable pub set_nil : String → ℕ → MultiLevelCache V → R → MultiLevelCache V × R × Done
  set_nil key now c r =
      let ttl = c.opts.default_nil_ttl in
      let (r', done) = write_l2 rdb key nil_placeholder ttl r in
      (l1_set key nil_placeholder ttl now c, r', done)

  unfoldable pub delete : String → MultiLevelCache V → R → MultiLevelCache V × R × Done
  delete key c r = let (r', done) = delete_l2 rdb (l2_key "cache" key) r in (l1_del key c, r', done)

  abbrev exists_in :
      Option (Client R)
      → String
      → R
      → MultiLevelCache V × Option Bytes
      → MultiLevelCache V × Result CacheError Bool
  exists_in rdb key r (c, some bytes) = (c, ok true)
  exists_in none key r (c, none) = (c, ok false)
  exists_in (some redis) key r (c, none) = (c, is_counted (redis.exists (l2_key "cache" key) r))

  unfoldable pub exists :
      String → ℕ → MultiLevelCache V → R → MultiLevelCache V × Result CacheError Bool
  exists key now c r = exists_in rdb key r (l1_get key now c)

-- ===== src/Cache/Bulk.antt =====
-- internal/services/cache/cache.go: many keys at once, the warm-up, the locks and the notice of an
-- invalid key, over both levels.
use go_backend_core.Prelude.{
  ℕ, Bool, true, false, Option, none, some, List, [], ◌∷◌, ◌++◌, String, map, keep, if◌then◌else◌,
}
use go_backend_core.Prelude.Int.{ℤ, pos, leb_ℤ}
use go_backend_core.Prelude.Equality.{string_eq}
use go_backend_core.Prelude.Dict.{Dict, read, write}
use go_backend_core.Prelude.Result.{Result, ok, err}
use go_backend_core.Cache.Codecs.{Bytes, CodecError, encode_with}
use go_backend_core.Cache.Level.{MultiLevelCache, l1_get, l1_set, l1_del, l1_clear}
use go_backend_core.Cache.Levels.{
  CacheError, miss, no_redis, redis_failed, loader_failed, warmup_failed, codec_failed, Done,
  done_unless, l2_key, hit, missed, lifetime, set,
}
use go_backend_core.Cache.Levels.Redis.{Client}

abbrev is_missing : Dict String Bytes → String → Bool
is_missing result key = elim (read key result) [ none ↦ true | some bytes ↦ false ]

module _ {V : Type 0} where
  abbrev look_up :
      String
      → MultiLevelCache V × Option Bytes
      → Dict String Bytes
      → MultiLevelCache V × Dict String Bytes
  look_up key (c, none) result = (c, result)
  look_up key (c, some bytes) result = (hit c, write key bytes result)

  -- The first loop of `GetMany`, over the keys.
  unfoldable pub get_local :
      List String
      → ℕ
      → MultiLevelCache V
      → Dict String Bytes
      → MultiLevelCache V × Dict String Bytes
  get_local [] now c result = (c, result)
  get_local (key ∷ keys) now c result =
      let (c', result') = look_up key (l1_get key now c) result in get_local keys now c' result'

  -- The loop over the answers of `MGet`, beside the keys that were asked for.
  unfoldable pub get_remote :
      List String
      → List (Option Bytes)
      → ℕ
      → MultiLevelCache V
      → Dict String Bytes
      → MultiLevelCache V × Dict String Bytes
  get_remote (key ∷ keys) (none ∷ answers) now c result =
      get_remote keys answers now (missed c) result
  get_remote (key ∷ keys) (some bytes ∷ answers) now c result =
      get_remote keys answers now (hit (l1_set key bytes c.opts.default_ttl now c))
        (write key bytes result)
  get_remote _ _ now c result = (c, result)

  abbrev unless_empty :
      MultiLevelCache V × Dict String Bytes
      → MultiLevelCache V × Result CacheError (Dict String Bytes)
  unless_empty (c, []) = (c, err miss)
  unless_empty (c, e ∷ result) = (c, ok (e ∷ result))

  abbrev answered :
      List String
      → ℕ
      → MultiLevelCache V
      → Dict String Bytes
      → Result String (List (Option Bytes))
      → MultiLevelCache V × Result CacheError (Dict String Bytes)
  answered missing now c result (err e) = (c, err (redis_failed e))
  answered missing now c result (ok answers) =
      unless_empty (get_remote missing answers now c result)

  -- The loop of `SetMany`; an error of the codec ends it, and leaves what was written before.
  unfoldable pub set_local :
      List (String × V)
      → ℤ
      → ℕ
      → MultiLevelCache V
      → List (String × Bytes)
      → MultiLevelCache V × Result CodecError (List (String × Bytes))
  set_local [] ttl now c pairs = (c, ok pairs)
  set_local ((key, value) ∷ items) ttl now c pairs = elim (encode_with c.codec value) [
    | err e ↦ (c, err e)
    | ok bytes ↦
        set_local items ttl now (l1_set key bytes ttl now c)
          (pairs ++ (l2_key "cache" key, bytes) ∷ [])
  ]

module _ {R : Type 0} where
  abbrev send_pairs : Option (Client R) → List (String × Bytes) → R → R × Done
  send_pairs none pairs r = (r, ok tt)
  send_pairs (some redis) [] r = (r, ok tt)
  send_pairs (some redis) (p ∷ ps) r = let (r', e) = redis.mset (p ∷ ps) r in (r', done_unless e)

  -- The iteration of `Clear`, which an error of `Del` ends.
  unfoldable pub delete_keys : Client R → List String → Option String → R → R × Done
  delete_keys redis [] last r = (r, done_unless last)
  delete_keys redis (k ∷ ks) last r =
      let (r', e) = redis.del k r in
      elim e [ some why ↦ (r', err (redis_failed why)) | none ↦ delete_keys redis ks last r' ]

  abbrev clear_l2 : Option (Client R) → R → R × Done
  clear_l2 none r = (r, ok tt)
  clear_l2 (some redis) r =
      let (keys, last) = redis.scan "cache:*" r in delete_keys redis keys last r

module _ {R : Type 0} (rdb : Option (Client R)) where
  -- The lifetime of a lock is 30 seconds if none is given.
  unfoldable pub try_lock : String → ℤ → R → R × Result CacheError Bool
  try_lock key ttl r = elim rdb [
    | none ↦ (r, err no_redis)
    | some redis ↦
        let (r', got) =
          redis.set_nx (l2_key "lock" key) (if leb_ℤ ttl (pos 0) then pos 30000000000 else ttl) r in
        (r', elim got [ ok won ↦ ok won | err e ↦ err (redis_failed e) ])
  ]

  unfoldable pub unlock : String → R → R × Done
  unlock key r = elim rdb [
    | none ↦ (r, err no_redis)
    | some redis ↦ let (r', e) = redis.del (l2_key "lock" key) r in (r', done_unless e)
  ]

module _ {V R : Type 0} (rdb : Option (Client R)) where
  abbrev ask_remote :
      Option (Client R)
      → List String
      → ℕ
      → R
      → MultiLevelCache V × Dict String Bytes
      → MultiLevelCache V × Result CacheError (Dict String Bytes)
  ask_remote none missing now r (c, result) = unless_empty (c, result)
  ask_remote (some redis) [] now r (c, result) = unless_empty (c, result)
  ask_remote (some redis) (k ∷ ks) now r (c, result) =
      answered (k ∷ ks) now c result (redis.mget (map (l2_key "cache") (k ∷ ks)) r)

  unfoldable pub get_many :
      List String
      → ℕ
      → MultiLevelCache V
      → R
      → MultiLevelCache V × Result CacheError (Dict String Bytes)
  get_many [] now c r = (c, ok [])
  get_many (k ∷ ks) now c r =
      let (c', result) = get_local (k ∷ ks) now c [] in
      ask_remote rdb (keep (is_missing result) (k ∷ ks)) now r (c', result)

  abbrev send :
      R
      → MultiLevelCache V × Result CodecError (List (String × Bytes))
      → MultiLevelCache V × R × Done
  send r (c, err e) = (c, r, err (codec_failed e))
  send r (c, ok pairs) = let (r', done) = send_pairs rdb pairs r in (c, r', done)

  -- MSET has no lifetime, so the pairs never expire in Redis.
  unfoldable pub set_many :
      List (String × V) → ℤ → ℤ → ℕ → MultiLevelCache V → R → MultiLevelCache V × R × Done
  set_many items ttl drawn now c r = send r (set_local items (lifetime ttl drawn c) now c [])

  unfoldable pub clear : MultiLevelCache V → R → MultiLevelCache V × R × Done
  clear c r = let (r', done) = clear_l2 rdb r in (l1_clear c, r', done)

  unfoldable pub publish_invalidation :
      String → MultiLevelCache V → R → MultiLevelCache V × R × Done
  publish_invalidation key c r = elim rdb [
    | none ↦ (l1_del key c, r, ok tt)
    | some redis ↦
        let (r', failed) = redis.del (l2_key "cache" key) r in
        elim failed [
          | some why ↦ (c, r', err (redis_failed why))
          | none ↦
              let (r'', e) = redis.publish "cache:invalidate" key r' in
              (l1_del key c, r'', done_unless e)
        ]
  ]

  -- The loop of `Warmup`; an error ends it. Each write draws its own random part.
  unfoldable pub warm :
      List (String × V × ℤ) → ℕ → MultiLevelCache V → R → MultiLevelCache V × R × Done
  warm [] now c r = (c, r, ok tt)
  warm ((key, value, drawn) ∷ items) now c r =
      let (c', r', done) = set rdb key value c.opts.default_ttl drawn now c r in
      elim done [ err e ↦ (c', r', err (warmup_failed key e)) | ok u ↦ warm items now c' r' ]

  unfoldable pub warmup :
      Result String (List (String × V × ℤ))
      → ℕ
      → MultiLevelCache V
      → R
      → MultiLevelCache V × R × Done
  warmup (err e) now c r = (c, r, err (loader_failed e))
  warmup (ok items) now c r = warm items now c r

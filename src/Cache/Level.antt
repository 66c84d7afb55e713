-- ===== src/Cache/Level.antt =====
-- internal/services/cache/cache.go: the options, and the local level with its eviction. An instant
-- is the number of nanoseconds since the epoch. Metrics and the log of slow calls are left out; the
-- counter of the local level has 64 bits. A method under the mutex is one step.
pub mod Eviction
pub mod Invariant
pub mod Bounded
pub mod Writes
pub mod Fresh
use go_backend_core.Prelude.{
  ℕ, ◌-◌, Bool, true, false, Option, none, some, List, [], ◌∷◌, ◌++◌, String, length, if◌then◌else◌,
}
use go_backend_core.Prelude.Int.{ℤ, pos, half64, ◌+ℤ◌, ◌-ℤ◌, ltb_ℤ, leb_ℤ, wrap64}
use go_backend_core.Prelude.Equality.{◌==◌, string_eq}
use go_backend_core.Prelude.Dict.{Dict, read, write, delete}
use go_backend_core.Cache.Codecs.{Bytes, Codec, Registry, get_codec}

pub record Options : Type 0 where
  pub default_ttl : ℤ
  pub default_nil_ttl : ℤ
  pub jitter : ℤ
  pub l1_max_size : ℤ
  pub slow_threshold : ℤ
  pub codec : String

abbrev pub default_options : Options
default_options = record {
  default_ttl = pos 300000000000;
  default_nil_ttl = pos 30000000000;
  jitter = pos 10000000000;
  l1_max_size = pos 10000;
  slow_threshold = pos 100000000;
  codec = "gob";
}

pub record L1Entry : Type 0 where
  pub bytes : Bytes
  pub expires_at : ℤ
  pub last_hit : ℤ

pub record MultiLevelCache (V : Type 0) : Type 0 where
  pub opts : Options
  pub l1 : Dict String L1Entry
  pub codec : Codec V
  pub hits : ℤ
  pub misses : ℤ
  pub clock : ℤ

abbrev if_positive : ℤ → ℤ → ℤ
if_positive given default = if leb_ℤ given (pos 0) then default else given

abbrev with_defaults : Options → Options
with_defaults opts = record opts {
  default_ttl = if_positive opts.default_ttl default_options.default_ttl;
  default_nil_ttl = if_positive opts.default_nil_ttl default_options.default_nil_ttl;
  jitter = if ltb_ℤ opts.jitter (pos 0) then default_options.jitter else opts.jitter;
  l1_max_size = if_positive opts.l1_max_size default_options.l1_max_size;
  slow_threshold = if_positive opts.slow_threshold default_options.slow_threshold;
}

-- An unknown codec becomes gob; `none` is the nil codec, if gob itself is not registered.
abbrev codec_or_gob : {V : Type 0} → Registry V → Option (Codec V) → Option (Codec V)
codec_or_gob r none = get_codec "gob" r
codec_or_gob r (some codec) = some codec

abbrev empty_cache : {V : Type 0} → Options → Option (Codec V) → Option (MultiLevelCache V)
empty_cache opts none = none
empty_cache opts (some codec) =
    some
      (record { opts = opts; l1 = []; codec = codec; hits = pos 0; misses = pos 0; clock = pos 0 })

unfoldable pub new : {V : Type 0} → Registry V → Options → Option (MultiLevelCache V)
new r opts = empty_cache (with_defaults opts) (codec_or_gob r (get_codec opts.codec r))

-- `drawn` is what `rand.Int63n` gives, at least 0 and below twice the jitter.
unfoldable pub jitter_ttl : ℤ → ℤ → ℤ → ℤ
jitter_ttl base jitter drawn =
    let ttl = wrap64 (base +ℤ wrap64 (drawn -ℤ jitter)) in
    if leb_ℤ jitter (pos 0)
    then base
    else if ltb_ℤ ttl (pos 1000000000)
    then pos 1000000000
    else ttl

-- The loop of `evictOneLocked`: the key that was hit longest ago, among entries hit before `hit`.
unfoldable pub oldest_key : String → ℤ → Dict String L1Entry → String
oldest_key key hit [] = key
oldest_key key hit ((k, e) ∷ rest) =
    let older = ltb_ℤ e.last_hit hit in
    oldest_key (if older then k else key) (if older then e.last_hit else hit) rest

abbrev pub greatest64 : ℤ
greatest64 = pos (half64 - 1)

unfoldable pub evict_one : Dict String L1Entry → Dict String L1Entry
evict_one m = let key = oldest_key "" greatest64 m in if key == "" then m else delete key m

-- `time.Now().After(entry.expiresAt)`.
abbrev pub is_expired : ℕ → L1Entry → Bool
is_expired now e = ltb_ℤ e.expires_at (pos now)

-- The sweep of `evictLoop` at one tick.
unfoldable pub sweep : ℕ → Dict String L1Entry → Dict String L1Entry
sweep now [] = []
sweep now ((k, e) ∷ rest) = if is_expired now e then sweep now rest else (k, e) ∷ sweep now rest

module _ {V : Type 0} where
  abbrev pub l1_get_found :
      String → ℕ → MultiLevelCache V → Option L1Entry → MultiLevelCache V × Option Bytes
  l1_get_found key now c none = (c, none)
  l1_get_found key now c (some e) =
      let tick = wrap64 (c.clock +ℤ pos 1) in
      if is_expired now e then (record c { l1 = delete key c.l1 }, none) else (
        record c { l1 = write key (record e { last_hit = tick }) c.l1; clock = tick },
        some e.bytes,
      )

  unfoldable pub l1_get : String → ℕ → MultiLevelCache V → MultiLevelCache V × Option Bytes
  l1_get key now c = l1_get_found key now c (read key c.l1)

  unfoldable pub l1_set : String → Bytes → ℤ → ℕ → MultiLevelCache V → MultiLevelCache V
  l1_set key bytes ttl now c =
      let tick = wrap64 (c.clock +ℤ pos 1) in
      let m = if leb_ℤ c.opts.l1_max_size (pos (length c.l1)) then evict_one c.l1 else c.l1 in
      record c {
        l1 = write key (record { bytes = bytes; expires_at = pos now +ℤ ttl; last_hit = tick }) m;
        clock = tick;
      }

  unfoldable pub l1_del : String → MultiLevelCache V → MultiLevelCache V
  l1_del key c = record c { l1 = delete key c.l1 }

  unfoldable pub l1_clear : MultiLevelCache V → MultiLevelCache V
  l1_clear c = record c { l1 = [] }

  -- One tick of `evictLoop`.
  unfoldable pub evict_tick : ℕ → MultiLevelCache V → MultiLevelCache V
  evict_tick now c = record c { l1 = sweep now c.l1 }

pub data Call : Type 0 where
  gets dels : String → Call
  sets : String → Bytes → ℤ → Call
  clears ticks : Call

module _ {V : Type 0} where
  unfoldable pub step : ℕ → Call → MultiLevelCache V → MultiLevelCache V × List (Option Bytes)
  step now (gets key) c = let (c', answer) = l1_get key now c in (c', answer ∷ [])
  step now (dels key) c = (l1_del key c, [])
  step now (sets key bytes ttl) c = (l1_set key bytes ttl now c, [])
  step now clears c = (l1_clear c, [])
  step now ticks c = (evict_tick now c, [])

  -- Calls at their instants, with the answers to the reads in order.
  unfoldable pub run : List (ℕ × Call) → MultiLevelCache V → MultiLevelCache V × List (Option Bytes)
  run [] c = (c, [])
  run ((now, call) ∷ cs) c =
      let (c', answers) = step now call c in let (last, rest) = run cs c' in (last, answers ++ rest)

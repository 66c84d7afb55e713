-- ===== src/Cache/Tests.antt =====
-- The cache at concrete keys, with numbers for values and one byte for each.
use go_backend_core.Prelude.{
  ℕ, ◌≡◌, refl, ◌≢◌, ◌⊎◌, none, some, List, [], ◌∷◌, String, arith, length,
}
use go_backend_core.Prelude.Int.{pos, ◌+ℤ◌, ◌≤ℤ◌, ◌<ℤ◌}
use go_backend_core.Prelude.Equality.{string_eq}
use go_backend_core.Prelude.Dict.{read, write, delete}
use go_backend_core.Prelude.Result.{Result, ok, err}
use go_backend_core.Cache.Codecs.{
  Bytes, Codec, CodecError, empty_data, Registry, register_codec, get_codec, encode_with,
  decode_with, get_codec_by_ver,
}
use go_backend_core.Cache.Codecs.RoundTrip.{decode_with-encode_with}
use go_backend_core.Cache.Level.{
  MultiLevelCache, Options, default_options, new, l1_set, Call, gets, sets, run,
}
use go_backend_core.Cache.Level.Invariant.{IsValid}
use go_backend_core.Cache.Level.Bounded.{run_l1-IsBounded}
use go_backend_core.Cache.Level.Writes.{IsVictim, written, l1_set_lem}
use go_backend_core.Cache.Level.Fresh.{AreFresh, none_written, run_l1-AreFresh}
use go_backend_core.Cache.Levels.{get, set}
use go_backend_core.Cache.Levels.Redis.{Client}
use go_backend_core.Cache.Levels.Reads.{get_reads_through}

abbrev decode_byte : Bytes → Result CodecError ℕ
decode_byte [] = err empty_data
decode_byte (b ∷ rest) = ok b

abbrev byte_codec : Codec ℕ
byte_codec = record { encode = λ v. ok (v ∷ []); decode = decode_byte; version = 1; name = "gob" }

abbrev registry : Registry ℕ
registry = record {
  by_version = (1, byte_codec) ∷ [];
  by_name = ("gob", byte_codec) ∷ [];
  legacy_gob = byte_codec;
}

reads_back :
    (v : ℕ) (b : Bytes) → byte_codec.encode v ≡ ok b → (b ≢ []) × (byte_codec.decode b ≡ ok v)
reads_back v [] h = cc
reads_back v (b ∷ rest) h = ((λ k. cc), cc)

decode_with-encode_with_test :
    (decode_with (register_codec byte_codec registry) (1 ∷ 7 ∷ []) ≡ ok 7)
    × (get_codec "gob" (register_codec byte_codec registry) ≡ some byte_codec)
unfolding encode_with
decode_with-encode_with_test =
    decode_with-encode_with registry byte_codec 7 (1 ∷ 7 ∷ []) reads_back refl

abbrev small : Options
small = record default_options { l1_max_size = pos 1; jitter = pos 0 }

abbrev empty : MultiLevelCache ℕ
empty = record {
  opts = small;
  l1 = [];
  codec = byte_codec;
  hits = pos 0;
  misses = pos 0;
  clock = pos 0;
}

made : new registry small ≡ some empty
unfolding new get_codec read
made = refl

abbrev calls : List (ℕ × Call)
calls =
    (1, sets "a" (1 ∷ 5 ∷ []) (pos 10))
    ∷ (2, gets "a")
    ∷ (3, sets "b" (1 ∷ 6 ∷ []) (pos 10))
    ∷ (4, gets "a")
    ∷ (20, gets "b")
    ∷ []

run_l1-IsBounded_example : (pos 0 <ℤ pos 1) × (pos (length (run calls empty).0.l1) ≤ℤ pos 1)
run_l1-IsBounded_example =
    run_l1-IsBounded registry small empty calls made
      (
        ground (arith, string_eq.equals_iff "a" ""),
        (tt, (ground (arith, string_eq.equals_iff "b" ""), (tt, (tt, tt)))),
      )
      (omega arith)

run_l1-AreFresh_example : AreFresh none_written calls (run calls empty).1
run_l1-AreFresh_example = run_l1-AreFresh registry small empty calls made

abbrev full : MultiLevelCache ℕ
full = record empty {
  l1 = ("a", record { bytes = 1 ∷ 5 ∷ []; expires_at = pos 11; last_hit = pos 1 }) ∷ [];
  clock = pos 1;
}

full-IsValid : IsValid 1 full
full-IsValid = record {
  capacity = 1;
  positive = omega arith;
  limit = refl;
  fits = omega arith;
  counter = refl;
  entries = record {
    once = (tt, tt);
    named = (ground (arith, string_eq.equals_iff "a" ""), tt);
    ticked = (omega arith, tt);
  };
}

l1_set_lem_example :
    ((pos 1 <ℤ pos 1)
      × ((l1_set "b" (7 ∷ []) (pos 10) 3 full).l1
          ≡ write "b" (written full (7 ∷ []) (pos 10) 3) full.l1))
    ⊎ ((pos 1 ≤ℤ pos 1)
        × ((victim : String) × IsVictim victim full.l1
            × ((l1_set "b" (7 ∷ []) (pos 10) 3 full).l1
                ≡ write "b" (written full (7 ∷ []) (pos 10) 3) (delete victim full.l1))))
l1_set_lem_example = l1_set_lem 1 full "b" (7 ∷ []) (pos 10) 3 (omega arith) full-IsValid

-- A Redis that fails every write, and holds the byte 9 under each key.
abbrev broken : Client (Unit {0})
broken = record {
  get = λ key r. ok (some (1 ∷ 9 ∷ []));
  mget = λ keys r. err "down";
  exists = λ key r. ok 1;
  scan = λ pattern_text r. ([], none);
  set = λ key bytes ttl r. (r, some "down");
  mset = λ pairs r. (r, some "down");
  set_nx = λ key ttl r. (r, err "down");
  del = λ key r. (r, some "down");
  publish = λ channel key r. (r, some "down");
}

get_reads_through_test :
    ((get registry (some broken) none "k" 1 empty tt).1 ≡ ok 9)
    × ((get registry none none "k" 4 (get registry (some broken) none "k" 1 empty tt).0 tt).1
        ≡ ok 9)
unfolding decode_with get_codec_by_ver read ◌+ℤ◌
get_reads_through_test =
    get_reads_through registry broken none "k" 1 4 (1 ∷ 9 ∷ []) 9 empty tt tt refl refl refl refl
      (omega arith)
